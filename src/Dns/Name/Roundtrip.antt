-- ===== src/Dns/Name/Roundtrip.antt =====
-- dns_parse_name on the wire form of a name.
use linux_command.Base.{
  ℕ, zero, suc, ◌+◌, ◌<◌, ◌≡◌, refl, sym, ◌∙◌, ap, some, List, [], ◌∷◌, ◌++◌, append-nil,
  append_assoc, false, ◌==◌, ◌>>=◌, length, length-append, replicate, replicate-add,
  length-replicate, get_elem?, write_bytes, write_bytes-append, arith,
}
use linux_command.Dns.Name.{dot_after, parse_name}
use linux_command.Dns.Name.Wire.{
  IsLabel, AllLabels, encode, dotted, label_round, end_round, label_at, after_label,
}

zeros : ℕ → List ℕ
zeros n = replicate n 0

-- A write into cleared space.
write_zeros :
    (xs bs : List ℕ) (r : ℕ)
    → write_bytes (xs ++ zeros (length bs + r)) (length xs) bs ≡ some (xs ++ (bs ++ zeros r))
unfolding zeros
write_zeros xs bs r = rw (replicate-add {A = ℕ} (length bs) r 0) (
    write_bytes-append xs bs (replicate (length bs) 0) (replicate r 0) (length xs) refl
      (sym (length-replicate (length bs) 0)))

-- `encode ls` with what follows it.
abbrev encode_with : List (List ℕ) → List ℕ → List ℕ
encode_with [] post = 0 ∷ post
encode_with (l ∷ ls) post = length l ∷ (l ++ encode_with ls post)

encode_with-eq-append :
    (ls : List (List ℕ)) (post : List ℕ) → encode_with ls post ≡ encode ls ++ post
encode_with-eq-append [] post = refl
encode_with-eq-append (l ∷ ls) post =
    ap (λ rest. length l ∷ rest)
      (ap (◌++◌ l) (encode_with-eq-append ls post) ∙ sym (append_assoc l (encode ls) post))

-- The dot behind a label that another follows, in cleared space.
dot_after-more :
    (chunk : List ℕ) (ptr c : ℕ) (xs : List ℕ) (r : ℕ)
    → get_elem? chunk ptr ≡ some c
    → 0 < c
    → dot_after chunk ptr (xs ++ zeros (suc r)) (length xs)
      ≡ some ((xs ++ b'.' ∷ []) ++ zeros r, length xs + 1)
unfolding dot_after zeros
dot_after-more chunk ptr c xs r e pos =
    rw (e, ◌>>=◌)
      (rw not_zero (
        rw (write_bytes-append xs (b'.' ∷ []) (0 ∷ []) (replicate r 0) (length xs) refl refl, ◌>>=◌)
          (rw (append_assoc xs (b'.' ∷ []) (replicate r 0)) refl)))
  where
    not_zero : (c == 0) ≡ false
    not_zero = ground arith

dot_after-end :
    (chunk : List ℕ) (ptr : ℕ) (out : List ℕ) (len : ℕ)
    → get_elem? chunk ptr ≡ some 0
    → dot_after chunk ptr out len ≡ some (out, len)
unfolding dot_after
dot_after-end chunk ptr out len e = rw (e, ◌>>=◌) refl

parse_labels :
    (ls : List (List ℕ)) (l pre post xs : List ℕ) (r fuel : ℕ)
    → IsLabel l
    → AllLabels ls
    → length ls + 1 < fuel
    → parse_name fuel
        (pre ++ encode_with (l ∷ ls) post)
        (length pre)
        (xs ++ zeros (length (dotted l ls) + r))
        (length xs)
      ≡ some (xs ++ (dotted l ls ++ zeros r), length xs + length (dotted l ls))
parse_labels ls l pre post xs r zero il als lt = absurd (omega arith)
parse_labels ls l pre post xs r (suc zero) il als lt = absurd (omega arith)
parse_labels [] l pre post xs r (suc (suc fuel)) il als lt = rw (append-nil l) (
    label_round (suc fuel) _ (length pre) _ (length xs) l (xs ++ (l ++ zeros r))
      (xs ++ (l ++ zeros r)) (length xs + length l) il (label_at pre l (0 ∷ post)).0
      (label_at pre l (0 ∷ post)).1 (write_zeros xs l r)
      (dot_after-end _ _ _ _ (after_label pre l 0 post))
    ∙ end_round fuel _ _ _ _ (after_label pre l 0 post))
parse_labels (m ∷ ms) l pre post xs r (suc (suc fuel)) il (im, ims) lt =
    first ∙ rest (parse_labels ms m pre' post xs' r (suc fuel) im ims (omega arith))
  where
    chunk : List ℕ
    chunk = pre ++ encode_with (l ∷ m ∷ ms) post

    d : ℕ
    d = length (dotted m ms)

    xs' : List ℕ
    xs' = (xs ++ l) ++ b'.' ∷ []

    pre' : List ℕ
    pre' = pre ++ (length l ∷ l)

    cleared : zeros (length (dotted l (m ∷ ms)) + r) ≡ zeros (length l + suc (d + r))
    cleared = ap zeros (omega (arith, length-append l (b'.' ∷ dotted m ms)))

    copied :
        write_bytes (xs ++ zeros (length (dotted l (m ∷ ms)) + r)) (length xs) l
        ≡ some ((xs ++ l) ++ zeros (suc (d + r)))
    copied = rw (cleared, append_assoc xs l (zeros (suc (d + r)))) (write_zeros xs l (suc (d + r)))

    dot :
        dot_after chunk
          (length pre + 1 + length l)
          ((xs ++ l) ++ zeros (suc (d + r)))
          (length xs + length l)
        ≡ some (xs' ++ zeros (d + r), length xs')
    dot =
        ap (dot_after chunk (length pre + 1 + length l) ((xs ++ l) ++ zeros (suc (d + r))))
          (sym (length-append xs l))
        ∙ dot_after-more chunk _ (length m) (xs ++ l) (d + r)
            (after_label pre l (length m) (m ++ encode_with ms post)) im.0
        ∙ ap (λ n. some (xs' ++ zeros (d + r), n)) (sym (length-append (xs ++ l) (b'.' ∷ [])))

    first :
        parse_name
          (suc (suc fuel))
          chunk
          (length pre)
          (xs ++ zeros (length (dotted l (m ∷ ms)) + r))
          (length xs)
        ≡ parse_name
            (suc fuel)
            chunk
            (length pre + 1 + length l)
            (xs' ++ zeros (d + r))
            (length xs')
    first =
        label_round (suc fuel) chunk (length pre) _ (length xs) l _ _ _ il
          (label_at pre l (encode_with (m ∷ ms) post)).0
          (label_at pre l (encode_with (m ∷ ms) post)).1 copied dot

    same_chunk : chunk ≡ pre' ++ encode_with (m ∷ ms) post
    same_chunk = sym (append_assoc pre (length l ∷ l) (encode_with (m ∷ ms) post))

    same_place : length pre + 1 + length l ≡ length pre'
    same_place = omega (arith, length-append pre (length l ∷ l))

    same_out : xs' ++ (dotted m ms ++ zeros r) ≡ xs ++ (dotted l (m ∷ ms) ++ zeros r)
    same_out = simp append_assoc

    same_len : length xs' + d ≡ length xs + length (dotted l (m ∷ ms))
    same_len = omega (
      arith,
      length-append (xs ++ l) (b'.' ∷ []),
      length-append xs l,
      length-append l (b'.' ∷ dotted m ms),
    )

    rest :
        parse_name
            (suc fuel)
            (pre' ++ encode_with (m ∷ ms) post)
            (length pre')
            (xs' ++ zeros (d + r))
            (length xs')
          ≡ some (xs' ++ (dotted m ms ++ zeros r), length xs' + d)
        → parse_name
            (suc fuel)
            chunk
            (length pre + 1 + length l)
            (xs' ++ zeros (d + r))
            (length xs')
          ≡ some (xs ++ (dotted l (m ∷ ms) ++ zeros r), length xs + length (dotted l (m ∷ ms)))
    rest ih = cc (same_chunk, same_place, same_out, same_len, ih)

-- An encoded name of labels of 1 to 191 bytes, wherever it stands in the buffer, is read back as
-- the labels with dots between, from the start of a cleared array that has room for them; the rest
-- of the array stays cleared, and `*len` is the length of the text.
pub parse_name-encode :
    (l : List ℕ) (ls : List (List ℕ)) (pre post : List ℕ) (r fuel : ℕ)
    → IsLabel l
    → AllLabels ls
    → length ls + 1 < fuel
    → parse_name fuel
        (pre ++ (encode (l ∷ ls) ++ post))
        (length pre)
        (replicate (length (dotted l ls) + r) 0)
        0
      ≡ some (dotted l ls ++ replicate r 0, length (dotted l ls))
unfolding zeros
parse_name-encode l ls pre post r fuel il als lt = rw (← encode_with-eq-append (l ∷ ls) post) (
    parse_labels ls l pre post [] r fuel il als lt
    ∙ ap (λ n. some (dotted l ls ++ replicate r 0, n)) same)
  where
    same : 0 + length (dotted l ls) ≡ length (dotted l ls)
    same = omega arith
