-- ===== src/Server/Io/Sending.antt =====
-- What nSend sends, for every behaviour of the socket.
use linux_command.Base.{
  ◌⊎◌, inl, inr, ℕ, zero, suc, ◌+◌, ◌≡◌, refl, sym, ◌∙◌, ap, Option, none, some, List, [], ◌∷◌,
  ◌++◌, append_assoc, ◌==◌, ltb, some_inj, Bool-cases, length, length-append, take, drop, arith,
}
use mathlib.Core.Path.{subst}
use linux_command.Server.Io.{
  Poll, hup, interrupted, timeout, ready, broken, Sent, send_loop, n_send,
}
use linux_command.Server.Io.Bounds.{IsFront}

take-rest : (k : ℕ) (xs : List ℕ) → xs ≡ take k xs ++ drop (length (take k xs)) xs
take-rest zero xs = refl
take-rest (suc k) [] = refl
take-rest (suc k) (x ∷ xs) = ap (◌∷◌ x) (take-rest k xs)

drop-nil : (n : ℕ) → drop {A = ℕ} n [] ≡ []
drop-nil zero = refl
drop-nil (suc n) = refl

drop-add : (m n : ℕ) (xs : List ℕ) → drop (m + n) xs ≡ drop n (drop m xs)
drop-add zero n xs = ap (λ k. drop k xs) (omega arith)
drop-add (suc m) n [] = drop-nil (suc m + n) ∙ sym (drop-nil n)
drop-add (suc m) n (x ∷ xs) = ap (λ k. drop k (x ∷ xs)) (shift) ∙ drop-add m n xs
  where
    shift : suc m + n ≡ suc (m + n)
    shift = omega arith

ended-IsFront :
    (buffer : List ℕ) (wrote : ℕ) (out : List ℕ) (result : Option ℕ) (s : Sent)
    → buffer ≡ out ++ drop wrote buffer
    → (result ≡ none) ⊎ (result ≡ some (length out))
    → some (record { result = result; out = out }) ≡ some s
    → IsFront s.out buffer × ((s.result ≡ none) ⊎ (s.result ≡ some (length s.out)))
unfolding IsFront
ended-IsFront buffer wrote out result s cut ends e =
    subst
      (λ (x : Sent). IsFront x.out buffer × ((x.result ≡ none) ⊎ (x.result ≡ some (length x.out))))
      (some_inj _ s e) ((drop wrote buffer, cut), ends)

-- The bytes that went out are the first of the buffer.
send_loop-IsFront :
    (rounds : List (Poll × ℕ)) (buffer : List ℕ) (wrote : ℕ) (out : List ℕ) (s : Sent)
    → buffer ≡ out ++ drop wrote buffer
    → wrote ≡ length out
    → send_loop rounds buffer wrote out ≡ some s
    → IsFront s.out buffer × ((s.result ≡ none) ⊎ (s.result ≡ some (length s.out)))
unfolding send_loop IsFront
send_loop-IsFront [] buffer wrote out s cut n e = cc
send_loop-IsFront ((hup, k) ∷ rounds) buffer wrote out s cut n e =
    ended-IsFront buffer wrote out none s cut (inl refl) e
send_loop-IsFront ((broken errno, k) ∷ rounds) buffer wrote out s cut n e =
    ended-IsFront buffer wrote out none s cut (inl refl) e
send_loop-IsFront ((timeout, k) ∷ rounds) buffer wrote out s cut n e =
    ended-IsFront buffer wrote out none s cut (inl refl) e
send_loop-IsFront ((interrupted, k) ∷ rounds) buffer wrote out s cut n e =
    elim (Bool-cases (ltb wrote (length buffer))) [
      | inl more ↦ send_loop-IsFront rounds buffer wrote out s cut n (rw more at e)
      | inr all ↦ ended-IsFront buffer wrote out (some wrote) s cut (inr (ap some n)) (rw all at e)
    ]
send_loop-IsFront ((ready, k) ∷ rounds) buffer wrote out s cut n e =
    elim (Bool-cases (length piece == 0)) [
      | inl empty ↦
          ended-IsFront buffer wrote out (some wrote) s cut (inr (ap some n)) (rw empty at e)
      | inr more ↦ elim (Bool-cases (ltb (wrote + length piece) (length buffer))) [
        | inl on ↦
            send_loop-IsFront rounds buffer (wrote + length piece) (out ++ piece) s longer counted
              (rw (more, on) at e)
        | inr full ↦
            ended-IsFront buffer (wrote + length piece) (out ++ piece) (some (wrote + length piece))
              s longer (inr (ap some counted)) (rw (more, full) at e)
      ]
    ]
  where
    piece : List ℕ
    piece = take k (drop wrote buffer)

    longer : buffer ≡ (out ++ piece) ++ drop (wrote + length piece) buffer
    longer =
        cut
        ∙ ap (◌++◌ out) (
            take-rest k (drop wrote buffer)
            ∙ ap (◌++◌ piece) (sym (drop-add wrote (length piece) buffer)))
        ∙ sym (append_assoc out piece (drop (wrote + length piece) buffer))

    counted : wrote + length piece ≡ length (out ++ piece)
    counted = omega (arith, length-append out piece)

-- However the socket behaves, when nSend returns, the bytes that went out are the first of the
-- buffer, in their order; it returns their number or -1.
pub n_send_sends :
    (rounds : List (Poll × ℕ)) (buffer : List ℕ) (s : Sent)
    → n_send rounds buffer ≡ some s
    → IsFront s.out buffer × ((s.result ≡ none) ⊎ (s.result ≡ some (length s.out)))
unfolding n_send
n_send_sends rounds buffer s e = send_loop-IsFront rounds buffer 0 [] s refl refl e
