-- ===== src/Server/Loop/Reply.antt =====
-- What client_data_process answers to a message.
use linux_command.Base.{
  ℕ, zero, suc, ◌-◌, ◌<◌, ◌≡◌, ◌≢◌, refl, ◌∙◌, ap, true, false, ◌||◌, none, some, List, [], ◌∷◌,
  ◌++◌, ◌==◌, if◌then◌else◌, ◌>>=◌, length, replicate, ltb, ltb→lt, Bool-cases, inl, inr, c_string,
  append-nil, arith,
}
use linux_command.Server.Io.{Recv, Poll, Received, n_recv, Sent, n_send}
use linux_command.Server.Loop.{
  ServerState, log_call, replied, starts_with_a, respond, client_data_process, max_buffer,
}

-- No byte is a NUL.
abbrev pub NoNul : List ℕ → Type 0
NoNul [] = Unit {0}
NoNul (b ∷ bs) = (b ≢ 0) × NoNul bs

c_string-padded :
    (xs : List ℕ) (n : ℕ) → NoNul xs → 0 < n → c_string (xs ++ replicate n 0) ≡ some xs
unfolding c_string
c_string-padded [] zero h lt = absurd (omega arith)
c_string-padded [] (suc n) h lt = refl
c_string-padded (b ∷ bs) n (ne, h) lt = rw (no_nul, c_string-padded bs n h lt) refl
  where
    no_nul : (b == 0) ≡ false
    no_nul = ground arith

c_string_unended : (xs : List ℕ) → NoNul xs → c_string xs ≡ none
unfolding c_string
c_string_unended [] h = refl
c_string_unended (b ∷ bs) (ne, h) = rw (no_nul, c_string_unended bs h) refl
  where
    no_nul : (b == 0) ≡ false
    no_nul = ground arith

-- When the server answers (`nRun` is set, or the message starts with an 'a'), it sends a message
-- without a NUL back through nSend if it is shorter than the buffer of 128 bytes; a message that
-- fills the buffer makes strlen read behind its end.
pub client_data_process_replies :
    (s : ServerState) (fd : ℕ) (ins : List (Recv × Poll)) (outs : List (Poll × ℕ)) (r : Received)
    (b : ℕ) (bs : List ℕ)
    → n_recv ins max_buffer ≡ some r
    → r.stored ≡ b ∷ bs
    → NoNul (b ∷ bs)
    → (s.n_run || starts_with_a (b ∷ bs)) ≡ true
    → client_data_process s fd ins outs ≡ (
        if ltb (length (b ∷ bs)) max_buffer
        then (n_send outs (b ∷ bs) >>= (λ (x : Sent). some (log_call s (replied fd x.out))))
        else none)
unfolding client_data_process respond
client_data_process_replies s fd ins outs r b bs e cut nn answers =
    elim (Bool-cases (ltb (length (b ∷ bs)) max_buffer)) [
      | inl lt ↦
          rw
            (
              e,
              ◌>>=◌,
              cut,
              answers,
              lt,
              c_string-padded (b ∷ bs) (max_buffer - length (b ∷ bs)) nn (room lt),
            )
            refl
      | inr full ↦ rw (e, ◌>>=◌, cut, answers, full) (rw (unended full) refl)
    ]
  where
    room : ltb (length (b ∷ bs)) max_buffer ≡ true → 0 < max_buffer - length (b ∷ bs)
    room h = omega (arith, ltb→lt _ _ h)

    unended :
        ltb (length (b ∷ bs)) max_buffer ≡ false
        → c_string ((b ∷ bs) ++ replicate (max_buffer - length (b ∷ bs)) 0) ≡ none
    unended h =
        ap (λ n. c_string ((b ∷ bs) ++ replicate n 0)) zero_left
        ∙ ap c_string (append-nil (b ∷ bs))
        ∙ c_string_unended (b ∷ bs) nn
      where
        zero_left : max_buffer - length (b ∷ bs) ≡ 0
        zero_left = ground arith
