-- ===== src/Dns/Client/Request.antt =====
-- The request that a commit sends for a host name.
use linux_command.Base.{
  ℕ, ◌+◌, ◌≤◌, ◌≡◌, refl, ap, some, List, [], ◌∷◌, ◌++◌, ◌>>=◌, length, length-replicate, take,
  replicate, arith,
}
use linux_command.Dns.Name.Wire.{IsLabel, AllLabels, encode, dotted}
use linux_command.Dns.Question.{Question, htons, short_bytes, header_bytes, create_header}
use linux_command.Dns.Question.Labels.{NoDots, AllNoDots, create_question-dotted}
use linux_command.Dns.Question.Layout.{build_request-layout}
use linux_command.Dns.Client.{request_for}

take_front : (xs ys : List ℕ) → take (length xs) (xs ++ ys) ≡ xs
take_front [] ys = refl
take_front (x ∷ xs) ys = ap (◌∷◌ x) (take_front xs ys)

-- For a host name of dot-free labels of 1 to 191 bytes whose wire form leaves room for the header
-- and the question's two numbers in 1024 bytes, the request is the header, the wire form, and the
-- type and the class 1, whatever the block of strlen + 2 bytes held before.
pub request_for-dotted :
    (random : ℕ) (l : List ℕ) (ls : List (List ℕ)) (block : List ℕ)
    → IsLabel l
    → AllLabels ls
    → NoDots l
    → AllNoDots ls
    → length block ≡ length (dotted l ls) + 2
    → length (encode (l ∷ ls)) + 16 ≤ 1024
    → request_for random block (dotted l ls)
      ≡ some (
          ((header_bytes (create_header random) ++ encode (l ∷ ls)) ++ short_bytes (htons 1))
          ++ short_bytes (htons 1))
unfolding request_for
request_for-dotted random l ls block il als nd nds e room =
    let q : Question = record {
      len = length (encode (l ∷ ls));
      qtype = htons 1;
      qclass = htons 1;
      qname = encode (l ∷ ls);
    } in
    let (rest, built) =
      build_request-layout (create_header random) q (replicate 1024 0) refl
        (omega (arith, room, length-replicate {A = ℕ} 1024 0)) in
    rw (create_question-dotted l ls block il als nd nds e, ◌>>=◌)
      (rw (built, ◌>>=◌) (ap some (take_front _ rest)))
