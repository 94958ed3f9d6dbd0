-- ===== src/StringMatch/Signed.antt =====
-- The signed hashes of rkMatch on texts whose bytes are below 128: none goes below 0.
use linux_command.Base.{
  ℕ, zero, suc, ◌+◌, ◌-◌, ◌*◌, ◌%◌, ◌≤◌, ◌<◌, ◌≡◌, refl, sym, ◌∙◌, ap, true, some, List, [], ◌∷◌,
  ◌++◌, some_inj, get_elem?, lt→ltb, take, drop, length, arith,
}
use linux_command.Base.Int.{ℤ, pos, negsuc, neg, negate, sub_nat, ◌+ℤ◌, ◌-ℤ◌, ◌*ℤ◌, rem, int_eq}
use linux_command.StringMatch.{hash_mod, base_pow, char_value, hash_step, hash_from, roll}
use linux_command.StringMatch.Rolling.{plain_step, plain_from, plain_roll, plain_roll_lem}

-- Every byte is below 128.
abbrev pub AllAscii : List ℕ → Type 0
AllAscii [] = Unit {0}
AllAscii (c ∷ cs) = (c < 128) × AllAscii cs

pub AllAscii-drop : (n : ℕ) (cs : List ℕ) → AllAscii cs → AllAscii (drop n cs)
AllAscii-drop zero cs a = a
AllAscii-drop (suc n) [] a = a
AllAscii-drop (suc n) (c ∷ cs) (_, a) = AllAscii-drop n cs a

pub AllAscii-take : (n : ℕ) (cs : List ℕ) → AllAscii cs → AllAscii (take n cs)
AllAscii-take zero cs a = tt
AllAscii-take (suc n) [] a = tt
AllAscii-take (suc n) (c ∷ cs) (lt, a) = (lt, AllAscii-take n cs a)

pub get_elem?-AllAscii : (i c : ℕ) (cs : List ℕ) → AllAscii cs → get_elem? cs i ≡ some c → c < 128
get_elem?-AllAscii i c [] a at = cc at
get_elem?-AllAscii zero c (x ∷ cs) (lt, a) at = omega (arith, lt, some_inj x c at)
get_elem?-AllAscii (suc i) c (x ∷ cs) (_, a) at = get_elem?-AllAscii i c cs a at

pub int_eq_self : (x : ℤ) → int_eq x x ≡ true
unfolding int_eq
int_eq_self (pos n) = ground arith
int_eq_self (negsuc n) = ground arith

char_value-pos : (c : ℕ) → c < 128 → char_value c ≡ pos c
unfolding char_value
char_value-pos c lt = rw (lt→ltb c 128 lt) refl

hash_step-pos : (h c : ℕ) → c < 128 → hash_step (pos h) c ≡ pos (plain_step h c)
unfolding hash_step plain_step rem ◌+ℤ◌ ◌*ℤ◌
hash_step-pos h c lt = rw (char_value-pos c lt) refl

hash_from-pos : (h : ℕ) (cs : List ℕ) → AllAscii cs → hash_from (pos h) cs ≡ pos (plain_from h cs)
unfolding hash_from plain_from
hash_from-pos h [] a = refl
hash_from-pos h (c ∷ cs) (lt, a) =
    ap (λ x. hash_from x cs) (hash_step-pos h c lt) ∙ hash_from-pos (plain_step h c) cs a

-- h - x + m does not go below 0 where x ≤ m.
less_more : (h x m : ℕ) → x ≤ m → (pos h -ℤ pos x) +ℤ pos m ≡ pos (h + m - x)
unfolding ◌-ℤ◌ ◌+ℤ◌ negate neg sub_nat
less_more h zero m le = ap pos (omega arith)
less_more h (suc x) m le = ground arith

roll-pos : (pow h c d : ℕ) → c < 128 → d < 128 → roll pow (pos h) c d ≡ pos (plain_roll pow h c d)
unfolding roll plain_roll
roll-pos pow h c d lt lt' =
    ap (λ x. hash_step (rem x hash_mod) d)
      (ap (λ v. pos h -ℤ rem (v *ℤ pos pow) hash_mod +ℤ pos hash_mod) (char_value-pos c lt) ∙ less)
    ∙ rest
  where
    less :
        pos h -ℤ rem (pos c *ℤ pos pow) hash_mod +ℤ pos hash_mod
        ≡ pos (h + hash_mod - c * pow % hash_mod)
    less = unfold ◌*ℤ◌ rem in less_more h (c * pow % hash_mod) hash_mod (omega arith)

    rest :
        hash_step (rem (pos (h + hash_mod - c * pow % hash_mod)) hash_mod) d
        ≡ pos (plain_step ((h + hash_mod - c * pow % hash_mod) % hash_mod) d)
    rest = unfold rem in hash_step-pos ((h + hash_mod - c * pow % hash_mod) % hash_mod) d lt'

-- The hash of a window and the byte behind it give the hash of the next.
pub roll_lem :
    (c d : ℕ) (cs : List ℕ)
    → c < 128
    → d < 128
    → AllAscii cs
    → roll (base_pow (length cs) 1) (hash_from (pos 0) (c ∷ cs)) c d
      ≡ hash_from (pos 0) (cs ++ d ∷ [])
roll_lem c d cs lt lt' a =
    ap (λ h. roll (base_pow (length cs) 1) h c d) (hash_from-pos 0 (c ∷ cs) (lt, a))
    ∙ roll-pos (base_pow (length cs) 1) (plain_from 0 (c ∷ cs)) c d lt lt'
    ∙ ap pos (plain_roll_lem c d cs)
    ∙ sym (hash_from-pos 0 (cs ++ d ∷ []) (AllAscii-append cs a))
  where
    AllAscii-append : (xs : List ℕ) → AllAscii xs → AllAscii (xs ++ d ∷ [])
    AllAscii-append [] a = (lt', tt)
    AllAscii-append (x ∷ xs) (le, a) = (le, AllAscii-append xs a)
