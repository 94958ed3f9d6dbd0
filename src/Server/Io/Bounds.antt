-- ===== src/Server/Io/Bounds.antt =====
-- What nRecv stores, for every behaviour of the socket.
use linux_command.Base.{
  ◌⊎◌, ℕ, zero, suc, ◌-◌, ◌≤◌, ◌≡◌, ◌≢◌, refl, sym, ◌∙◌, ap, inl, inr, Option, some, List, [], ◌∷◌,
  ◌++◌, append-nil, append_assoc, ◌==◌, some_inj, Bool-cases, length, length-append, length-take,
  take, drop, arith,
}
use native.Mathlib.Decide.{dec_lt}
use linux_command.Server.Io.{
  errno_or, Recv, got, again, failed, closed, Poll, hup, interrupted, timeout, ready, broken,
  Received, after_poll, conclude, recv_loop, n_recv,
}

-- The bytes that came, in order.
abbrev pub arrived : List (Recv × Poll) → List ℕ
arrived [] = []
arrived ((got b bs, poll) ∷ rounds) = (b ∷ bs) ++ arrived rounds
arrived ((again, poll) ∷ rounds) = arrived rounds
arrived ((failed errno, poll) ∷ rounds) = arrived rounds
arrived ((closed, poll) ∷ rounds) = arrived rounds

-- `xs` is a front part of `ys`.
unfoldable pub IsFront : List ℕ → List ℕ → Type 0
IsFront xs ys = (rest : List ℕ) × (ys ≡ xs ++ rest)

take-append-drop : (n : ℕ) (xs : List ℕ) → take n xs ++ drop n xs ≡ xs
take-append-drop zero xs = refl
take-append-drop (suc n) [] = refl
take-append-drop (suc n) (x ∷ xs) = ap (◌∷◌ x) (take-append-drop n xs)

-- What nRecv has added to the buffer when it returns.
record Adds (rounds : List (Recv × Poll)) (left : ℕ) (stored : List ℕ) (r : Received) : Type 0 where
  new : List ℕ
  appended : r.stored ≡ stored ++ new
  front : IsFront new (arrived rounds)
  short : length new ≤ left
  full : r.ret_code ≡ 0 → length new ≡ left

errno_or_pos : (errno : ℕ) → errno_or errno ≢ 0
errno_or_pos errno = ground arith

Adds-nothing :
    (rounds : List (Recv × Poll)) (left : ℕ) (stored : List ℕ) (r : Received)
    → r.stored ≡ stored
    → (r.ret_code ≡ 0 → left ≡ 0)
    → Adds rounds left stored r
unfolding IsFront
Adds-nothing rounds left stored r same code = record {
  new = [];
  appended = same ∙ sym (append-nil stored);
  front = (arrived rounds, refl);
  short = omega arith;
  full = λ h. omega (arith, code h);
}

-- A poll behind a recv that brought nothing.
conclude-Adds :
    (next : ℕ → Option Received) (rounds : List (Recv × Poll)) (left code : ℕ) (stored : List ℕ)
    (poll : Poll) (r : Received)
    → ((c : ℕ) → next c ≡ some r → Adds rounds (suc left) stored r)
    → conclude next stored (after_poll code poll) ≡ some r
    → Adds rounds (suc left) stored r
unfolding conclude after_poll
conclude-Adds next rounds left code stored hup r ih e =
    Adds-nothing rounds (suc left) stored r (sym (ap (λ (x : Received). x.stored) (some_inj _ r e)))
      (λ h. absurd (omega (arith, ap (λ (x : Received). x.ret_code) (some_inj _ r e))))
conclude-Adds next rounds left code stored interrupted r ih e = ih code e
conclude-Adds next rounds left code stored (broken errno) r ih e = ih (errno_or errno) e
conclude-Adds next rounds left code stored timeout r ih e =
    Adds-nothing rounds (suc left) stored r (sym (ap (λ (x : Received). x.stored) (some_inj _ r e)))
      (λ h. absurd (omega (arith, ap (λ (x : Received). x.ret_code) (some_inj _ r e))))
conclude-Adds next rounds left code stored ready r ih e = ih code e

-- The bytes of one recv in front of what later rounds add.
got-Adds :
    (rounds : List (Recv × Poll)) (left : ℕ) (stored xs : List ℕ) (r : Received)
    → Adds rounds (left - length (take left xs)) (stored ++ take left xs) r
    → (new : List ℕ) × (r.stored ≡ stored ++ new)
      × IsFront new (xs ++ arrived rounds)
      × (length new ≤ left)
      × (r.ret_code ≡ 0 → length new ≡ left)
unfolding IsFront
got-Adds rounds left stored xs r a = (
  take left xs ++ a.new,
  a.appended ∙ append_assoc stored (take left xs) a.new,
  front (a.front),
  omega (arith, length-append (take left xs) a.new, a.short, length-take left xs),
  λ h. omega (arith, length-append (take left xs) a.new, a.full h, length-take left xs),
)
  where
    cut : xs ≡ take left xs ++ drop left xs
    cut = sym (take-append-drop left xs)

    empty : (ys : List ℕ) → length ys ≡ 0 → ys ≡ []
    empty [] h = refl
    empty (y ∷ ys) h = absurd (omega arith)

    front :
        IsFront a.new (arrived rounds)
        → (rest : List ℕ) × (xs ++ arrived rounds ≡ (take left xs ++ a.new) ++ rest)
    front (rest, e) = elim (dec_lt left (length xs)) [
      | yes more ↦
          let none_new : a.new ≡ [] = empty a.new (omega (arith, a.short, length-take left xs)) in
          (
            drop left xs ++ arrived rounds,
            ap (λ ys. ys ++ arrived rounds) cut
                ∙ append_assoc (take left xs) (drop left xs) (arrived rounds)
                ∙ sym (
                    ap (λ ys. ys ++ (drop left xs ++ arrived rounds))
                      (ap (◌++◌ (take left xs)) none_new ∙ append-nil (take left xs))),
          )
      | no all ↦
          let nothing : drop left xs ≡ [] = empty (drop left xs) (
            omega (
              arith,
              ap length cut,
              length-append (take left xs) (drop left xs),
              length-take left xs,
            )) in
          (
            rest,
            ap (λ ys. ys ++ arrived rounds)
                  (cut ∙ ap (◌++◌ (take left xs)) nothing ∙ append-nil (take left xs))
                ∙ ap (◌++◌ (take left xs)) e
                ∙ sym (append_assoc (take left xs) a.new rest),
          )
    ]

recv_loop-Adds :
    (rounds : List (Recv × Poll)) (left code : ℕ) (stored : List ℕ) (r : Received)
    → recv_loop rounds left code stored ≡ some r
    → Adds rounds left stored r
unfolding recv_loop
recv_loop-Adds rounds zero code stored r e =
    Adds-nothing rounds 0 stored r (sym (ap (λ (x : Received). x.stored) (some_inj _ r e)))
      (λ h. refl)
recv_loop-Adds [] (suc left) code stored r e = cc
recv_loop-Adds ((got b bs, poll) ∷ rounds) (suc left) code stored r e =
    let (new, same, front, short, full) =
      got-Adds rounds (suc left) stored (b ∷ bs) r (recv_loop-Adds rounds _ code _ r e) in
    record { new = new; appended = same; front = front; short = short; full = full }
recv_loop-Adds ((closed, poll) ∷ rounds) (suc left) code stored r e =
    Adds-nothing ((closed, poll) ∷ rounds) (suc left) stored r
      (sym (ap (λ (x : Received). x.stored) (some_inj _ r e)))
      (λ h. absurd (omega (arith, ap (λ (x : Received). x.ret_code) (some_inj _ r e))))
recv_loop-Adds ((again, poll) ∷ rounds) (suc left) code stored r e =
    let a =
      conclude-Adds (λ c. recv_loop rounds (suc left) c stored) rounds left code stored poll r
        (λ c. recv_loop-Adds rounds (suc left) c stored r) e in
    record { new = a.new; appended = a.appended; front = a.front; short = a.short; full = a.full }
recv_loop-Adds ((failed errno, poll) ∷ rounds) (suc left) code stored r e =
    let a =
      conclude-Adds (λ c. recv_loop rounds (suc left) c stored) rounds left (errno_or errno) stored
        poll r (λ c. recv_loop-Adds rounds (suc left) c stored r) e in
    record { new = a.new; appended = a.appended; front = a.front; short = a.short; full = a.full }

-- However the socket behaves, when nRecv returns, it has stored at most `len` bytes, which are the
-- first of those that came, in their order; either it has stored exactly `len` bytes, or it returns
-- a code other than 0.
pub n_recv_stores :
    (rounds : List (Recv × Poll)) (len : ℕ) (r : Received)
    → n_recv rounds len ≡ some r
    → IsFront r.stored (arrived rounds)
      × (length r.stored ≤ len)
      × ((length r.stored ≡ len) ⊎ (r.ret_code ≢ 0))
unfolding n_recv
n_recv_stores rounds len r e =
    let a = recv_loop-Adds rounds len 0 [] r e in
    rw a.appended (a.front, a.short, full_or_code a.full)
  where
    full_or_code : {n : ℕ} → (r.ret_code ≡ 0 → n ≡ len) → (n ≡ len) ⊎ (r.ret_code ≢ 0)
    full_or_code full = elim (Bool-cases (r.ret_code == 0)) [
      | inl same ↦ inl (full (ground (arith, same)))
      | inr ne ↦ inr (λ h. absurd (ground (arith, ne, h)))
    ]
