-- ===== src/StringMatch/Rolling.antt =====
-- The hashes of rkMatch for bytes below 128, as numbers: the hash of the next window from that of the
-- last.
use linux_command.Base.{
  ℕ, zero, suc, ◌+◌, ◌-◌, ◌*◌, ◌%◌, ◌/◌, ◌≡◌, refl, sym, ◌∙◌, ap, List, [], ◌∷◌, ◌++◌, length,
  arith,
}
use linux_command.StringMatch.{hash_base, hash_mod, base_pow}

unfoldable pub plain_step : ℕ → ℕ → ℕ
plain_step h c = (h * hash_base + c) % hash_mod

unfoldable pub plain_from : ℕ → List ℕ → ℕ
plain_from h [] = h
plain_from h (c ∷ cs) = plain_from (plain_step h c) cs

unfoldable pub plain_roll : ℕ → ℕ → ℕ → ℕ → ℕ
plain_roll pow h c d = plain_step ((h + hash_mod - c * pow % hash_mod) % hash_mod) d

-- The hash before it is reduced, and the weight of the byte before `n` others.
value : ℕ → List ℕ → ℕ
value h [] = h
value h (c ∷ cs) = value (h * hash_base + c) cs

weight : ℕ → ℕ
weight zero = 1
weight (suc n) = hash_base * weight n

step_mod : (h c : ℕ) → (h % hash_mod * hash_base + c) % hash_mod ≡ (h * hash_base + c) % hash_mod
step_mod h c = omega arith

plain_from-value : (h : ℕ) (cs : List ℕ) → plain_from (h % hash_mod) cs ≡ value h cs % hash_mod
unfolding plain_from plain_step value
plain_from-value h [] = refl
plain_from-value h (c ∷ cs) =
    ap (λ x. plain_from x cs) (step_mod h c) ∙ plain_from-value (h * hash_base + c) cs

add_weight : (h c w v : ℕ) → (h * hash_base + c) * w + v ≡ h * (hash_base * w) + (c * w + v)
add_weight h c w v = grind arith

value-weight : (h : ℕ) (cs : List ℕ) → value h cs ≡ h * weight (length cs) + value 0 cs
unfolding value weight
value-weight h [] = omega arith
value-weight h (c ∷ cs) =
    value-weight (h * hash_base + c) cs
    ∙ add_weight h c (weight (length cs)) (value 0 cs)
    ∙ ap (λ x. h * (hash_base * weight (length cs)) + x)
        (sym (value-weight c cs) ∙ ap (λ x. value x cs) (from_zero c))
  where
    from_zero : (n : ℕ) → n ≡ 0 * hash_base + n
    from_zero n = omega arith

base_pow-weight : (n p : ℕ) → base_pow n (p % hash_mod) ≡ p * weight n % hash_mod
unfolding base_pow weight
base_pow-weight zero p = omega arith
base_pow-weight (suc n) p =
    ap (base_pow n) (omega arith)
    ∙ base_pow-weight n (p * hash_base)
    ∙ ap (λ x. x % hash_mod) (grind arith)

distribute : (c r q m w : ℕ) → w ≡ r + m * q → c * w ≡ c * r + m * (c * q)
distribute c r q m w e = rw e (grind arith)

split_weight : (c w : ℕ) → c * w ≡ c * (w % hash_mod) + hash_mod * (c * (w / hash_mod))
split_weight c w = distribute c (w % hash_mod) (w / hash_mod) hash_mod w (omega arith)

roll_parts :
    (x y v : ℕ)
    → ((x + hash_mod * y + v) % hash_mod + hash_mod - x % hash_mod) % hash_mod ≡ v % hash_mod
roll_parts x y v = omega arith

roll_mod :
    (c w v : ℕ)
    → ((c * w + v) % hash_mod + hash_mod - c * (w % hash_mod) % hash_mod) % hash_mod ≡ v % hash_mod
roll_mod c w v =
    ap (λ x. ((x + v) % hash_mod + hash_mod - c * (w % hash_mod) % hash_mod) % hash_mod)
      (split_weight c w)
    ∙ roll_parts (c * (w % hash_mod)) (c * (w / hash_mod)) v

value-append : (h d : ℕ) (cs : List ℕ) → value h (cs ++ d ∷ []) ≡ value h cs * hash_base + d
unfolding value
value-append h d [] = refl
value-append h d (c ∷ cs) = value-append (h * hash_base + c) d cs

plain_step-mod : (h d : ℕ) → plain_step (h % hash_mod) d ≡ (h * hash_base + d) % hash_mod
unfolding plain_step
plain_step-mod h d = step_mod h d

-- The hash of a window and the byte behind it give the hash of the next.
pub plain_roll_lem :
    (c d : ℕ) (cs : List ℕ)
    → plain_roll (base_pow (length cs) 1) (plain_from 0 (c ∷ cs)) c d ≡ plain_from 0 (cs ++ d ∷ [])
unfolding plain_roll value
plain_roll_lem c d cs =
    ap (λ p. plain_step ((plain_from 0 (c ∷ cs) + hash_mod - c * p % hash_mod) % hash_mod) d) power
    ∙ ap
        (λ h.
          plain_step ((h + hash_mod - c * (weight (length cs) % hash_mod) % hash_mod) % hash_mod) d)
        whole
    ∙ ap (λ h. plain_step h d) (roll_mod c (weight (length cs)) (value 0 cs))
    ∙ plain_step-mod (value 0 cs) d
    ∙ ap (λ h. h % hash_mod) (sym (value-append 0 d cs))
    ∙ sym (plain_from-value 0 (cs ++ d ∷ []))
  where
    power : base_pow (length cs) 1 ≡ weight (length cs) % hash_mod
    power = base_pow-weight (length cs) 1 ∙ ap (λ w. w % hash_mod) (omega arith)

    head : value 0 (c ∷ cs) ≡ value c cs
    head = ap (λ x. value x cs) (omega arith)

    whole : plain_from 0 (c ∷ cs) ≡ (c * weight (length cs) + value 0 cs) % hash_mod
    whole = plain_from-value 0 (c ∷ cs) ∙ ap (λ v. v % hash_mod) (head ∙ value-weight c cs)
