-- ===== src/Dns/Tests.antt =====
-- The theorems on the DNS client at the name "a.bc".
use linux_command.Base.{ℕ, ◌+◌, ◌≡◌, refl, some, List, [], ◌∷◌, ◌++◌, length, replicate, arith}
use linux_command.Dns.Name.{parse_name}
use linux_command.Dns.Name.Wire.{IsLabel, encode, dotted}
use linux_command.Dns.Name.Roundtrip.{parse_name-encode}
use linux_command.Dns.Question.Layout.{build_request-layout}
use linux_command.Dns.Client.Request.{request_for-dotted}
use linux_command.Dns.Question.{
  Question, header_bytes, short_bytes, htons, create_header, build_request, create_question,
}
use linux_command.Dns.Question.Labels.{create_question-dotted}
use linux_command.Dns.Client.{request_for}

abbrev label_a : List ℕ
label_a = b'a' ∷ []

abbrev label_bc : List ℕ
label_bc = b'b' ∷ b'c' ∷ []

label_a-IsLabel : IsLabel label_a
label_a-IsLabel = (omega arith, omega arith)

label_bc-IsLabel : IsLabel label_bc
label_bc-IsLabel = (omega arith, omega arith)

parse_name-encode_example :
    parse_name 9
      ((7 ∷ []) ++ (encode (label_a ∷ label_bc ∷ []) ++ 9 ∷ []))
      1
      (replicate (length (dotted label_a (label_bc ∷ [])) + 3) 0)
      0
    ≡ some
        (dotted label_a (label_bc ∷ []) ++ replicate 3 0, length (dotted label_a (label_bc ∷ [])))
parse_name-encode_example =
    parse_name-encode label_a (label_bc ∷ []) (7 ∷ []) (9 ∷ []) 3 9 label_a-IsLabel
      (label_bc-IsLabel, tt) (omega arith)

create_question-dotted_example :
    create_question (replicate 6 255) (dotted label_a (label_bc ∷ []))
    ≡ some (record {
      len = length (encode (label_a ∷ label_bc ∷ []));
      qtype = htons 1;
      qclass = htons 1;
      qname = encode (label_a ∷ label_bc ∷ []);
    })
create_question-dotted_example =
    create_question-dotted label_a (label_bc ∷ []) (replicate 6 255) label_a-IsLabel
      (label_bc-IsLabel, tt) (omega arith, tt) ((omega arith, (omega arith, tt)), tt) refl

abbrev question_a : Question
question_a = record { len = 3; qtype = 256; qclass = 256; qname = 1 ∷ b'a' ∷ 0 ∷ [] }

build_request-layout_example :
    (rest : List ℕ) × (build_request (create_header 5) question_a (replicate 1024 0)
      ≡ some (
        length (
            ((header_bytes (create_header 5) ++ question_a.qname) ++ short_bytes 256)
            ++ short_bytes 256),
        (((header_bytes (create_header 5) ++ question_a.qname) ++ short_bytes 256)
              ++ short_bytes 256)
            ++ rest,
      ))
build_request-layout_example =
    build_request-layout (create_header 5) question_a (replicate 1024 0) refl (omega arith)

request_for-dotted_example :
    request_for 5 (replicate 6 255) (dotted label_a (label_bc ∷ []))
    ≡ some (
        ((header_bytes (create_header 5) ++ encode (label_a ∷ label_bc ∷ []))
          ++ short_bytes (htons 1))
        ++ short_bytes (htons 1))
request_for-dotted_example =
    request_for-dotted 5 label_a (label_bc ∷ []) (replicate 6 255) label_a-IsLabel
      (label_bc-IsLabel, tt) (omega arith, tt) ((omega arith, (omega arith, tt)), tt) refl
      (omega arith)
