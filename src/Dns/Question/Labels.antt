-- ===== src/Dns/Question/Labels.antt =====
-- dns_create_question and the wire form of a host name.
use linux_command.Base.{
  ℕ, ◌+◌, ◌%◌, ◌<◌, ◌≡◌, ◌≢◌, refl, sym, ◌∙◌, ap, some, List, [], ◌∷◌, ◌++◌, append-nil,
  append_assoc, false, ◌==◌, ◌>>=◌, length, length-append, store, store-append, split_at,
  write_bytes, write_bytes-append, arith,
}
use native.Mathlib.Nat.{mod-eq_of_lt}
use linux_command.Dns.Name.Wire.{IsLabel, AllLabels, encode, dotted}
use linux_command.Dns.Question.{htons, flush, tokens_from, write_labels, create_question}

-- No byte of the label is a dot.
abbrev pub NoDots : List ℕ → Type 0
NoDots [] = Unit {0}
NoDots (c ∷ cs) = (c ≢ b'.') × NoDots cs

abbrev pub AllNoDots : List (List ℕ) → Type 0
AllNoDots [] = Unit {0}
AllNoDots (l ∷ ls) = NoDots l × AllNoDots ls

tokens_from-label :
    (cur l rest : List ℕ) → NoDots l → tokens_from cur (l ++ rest) ≡ tokens_from (cur ++ l) rest
unfolding tokens_from
tokens_from-label cur [] rest h = rw (append-nil cur)
tokens_from-label cur (c ∷ cs) rest (ne, h) =
    rw (no_dot, tokens_from)
      (tokens_from-label (cur ++ c ∷ []) cs rest h
        ∙ ap (λ w. tokens_from w rest) (append_assoc cur (c ∷ []) cs))
  where
    no_dot : (c == b'.') ≡ false
    no_dot = ground arith

flush_some : (l : List ℕ) (toks : List (List ℕ)) → 0 < length l → flush l toks ≡ l ∷ toks
unfolding flush
flush_some [] toks h = absurd (omega arith)
flush_some (c ∷ cs) toks h = refl

-- strtok takes a name apart into its labels.
tokens_from-dotted :
    (ls : List (List ℕ)) (l : List ℕ)
    → IsLabel l
    → AllLabels ls
    → NoDots l
    → AllNoDots ls
    → tokens_from [] (dotted l ls) ≡ l ∷ ls
unfolding tokens_from
tokens_from-dotted [] l il als nd nds = tokens_from-label [] l [] nd ∙ flush_some l [] il.0
tokens_from-dotted (m ∷ ms) l il (im, ims) nd (ndm, nds) =
    tokens_from-label [] l (b'.' ∷ dotted m ms) nd
    ∙ flush_some l (tokens_from [] (dotted m ms)) il.0
    ∙ ap (◌∷◌ l) (tokens_from-dotted ms m im ims ndm nds)

-- One round of the loop: the length byte, the label and a NUL.
label_written :
    (xs l old : List ℕ) (o : ℕ) (rest : List ℕ)
    → IsLabel l
    → length old ≡ length l + 1
    → (b : List ℕ) × (store (xs ++ (o ∷ (old ++ rest))) (length xs) (length l % 256) ≡ some b)
      × (write_bytes b (length xs + 1) (l ++ 0 ∷ []) ≡ some ((xs ++ (length l ∷ l)) ++ (0 ∷ rest)))
label_written xs l old o rest il e = (xs ++ (length l ∷ (old ++ rest)), stored, written)
  where
    byte : length l % 256 ≡ length l
    byte = mod-eq_of_lt (omega (arith, il.1))

    stored :
        store (xs ++ (o ∷ (old ++ rest))) (length xs) (length l % 256)
        ≡ some (xs ++ (length l ∷ (old ++ rest)))
    stored = rw byte (store-append xs (old ++ rest) o (length l))

    left : (xs ++ length l ∷ []) ++ (old ++ rest) ≡ xs ++ (length l ∷ (old ++ rest))
    left = append_assoc xs (length l ∷ []) (old ++ rest)

    right : (xs ++ length l ∷ []) ++ ((l ++ 0 ∷ []) ++ rest) ≡ (xs ++ (length l ∷ l)) ++ (0 ∷ rest)
    right = simp append_assoc

    written :
        write_bytes (xs ++ (length l ∷ (old ++ rest))) (length xs + 1) (l ++ 0 ∷ [])
        ≡ some ((xs ++ (length l ∷ l)) ++ (0 ∷ rest))
    written = cc (
      left,
      right,
      write_bytes-append (xs ++ length l ∷ []) (l ++ 0 ∷ []) old rest (length xs + 1)
          (omega (arith, length-append xs (length l ∷ [])))
          (omega (arith, length-append l (0 ∷ []))),
    )

write_labels-encode :
    (ls : List (List ℕ)) (l xs old : List ℕ)
    → IsLabel l
    → AllLabels ls
    → length old ≡ length (encode (l ∷ ls))
    → write_labels (xs ++ old) (length xs) (l ∷ ls) ≡ some (xs ++ encode (l ∷ ls))
unfolding write_labels
write_labels-encode ls l xs [] il als e = absurd (omega arith)
write_labels-encode [] l xs (o ∷ old) il als e =
    let (b, stored, written) =
      label_written xs l old o [] il (omega (arith, length-append l (0 ∷ []))) in
    rw (← append-nil old)
      (rw (stored, ◌>>=◌) (rw (written, ◌>>=◌) (rw (append_assoc xs (length l ∷ l) (0 ∷ [])) refl)))
write_labels-encode (m ∷ ms) l xs (o ∷ old) il (im, ims) e =
    let (first, rest, cut, n, k) =
      split_at (length l + 1) old (omega (arith, length-append l (encode (m ∷ ms)))) in
    let (b, stored, written) = label_written xs l first o rest il n in
    let ih =
      write_labels-encode ms m (xs ++ (length l ∷ l)) (0 ∷ rest) im ims
        (omega (arith, length-append l (encode (m ∷ ms)))) in
    rw cut (
      rw (stored, ◌>>=◌)
        (rw (written, ◌>>=◌)
          (rw (← place xs l) (ih ∙ ap some (append_assoc xs (length l ∷ l) (encode (m ∷ ms)))))))
  where
    place : (xs l : List ℕ) → length (xs ++ (length l ∷ l)) ≡ length xs + 1 + length l
    place xs l = omega (arith, length-append xs (length l ∷ l))

-- For a host name of dot-free labels of 1 to 191 bytes, and a block of strlen + 2 bytes with any
-- contents, dns_create_question writes inside the block, and fills it with the wire form of the name.
pub create_question-dotted :
    (l : List ℕ) (ls : List (List ℕ)) (block : List ℕ)
    → IsLabel l
    → AllLabels ls
    → NoDots l
    → AllNoDots ls
    → length block ≡ length (dotted l ls) + 2
    → create_question block (dotted l ls)
      ≡ some (record {
        len = length (encode (l ∷ ls));
        qtype = htons 1;
        qclass = htons 1;
        qname = encode (l ∷ ls);
      })
unfolding create_question
create_question-dotted l ls block il als nd nds e = rw (tokens_from-dotted ls l il als nd nds) (
    rw (write_labels-encode ls l [] block il als (e ∙ sym (size ls l)), ◌>>=◌)
      (ap
        (λ n. some (record { len = n; qtype = htons 1; qclass = htons 1; qname = encode (l ∷ ls) }))
        (sym (size ls l))))
  where
    size : (ls : List (List ℕ)) (l : List ℕ) → length (encode (l ∷ ls)) ≡ length (dotted l ls) + 2
    size [] l = omega (arith, length-append l (0 ∷ []), ap length (append-nil l))
    size (m ∷ ms) l =
        omega (
          arith,
          length-append l (encode (m ∷ ms)),
          length-append l (b'.' ∷ dotted m ms),
          size ms m,
        )
