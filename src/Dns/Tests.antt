-- ===== src/Dns/Tests.antt =====
-- The DNS theorems on a query for the name "a.bc", and on a reply to it.
use ferros.Prelude.{◌≡◌, refl, ◌+◌, List, [], ◌∷◌, ◌++◌, none, some, ok, arith}
use ferros.Prelude.{length, drop, replicate, Bytes, All}
use ferros.Dns.{build_query, skip_name, skip_name_loop, parse_answer, ipv4, no_ipv4, ignored}
use ferros.Dns.Query.{wire_query, build_query-wire_query, IsLabel}
use ferros.Dns.Skip.{skip_name-ends, skip_name-wire_labels}
use ferros.Dns.Reply.{ReplyHeader, Succeeds, wire_reply, parse_answer-wire_reply}

-- "a.bc."
abbrev host : Bytes
host = 97 ∷ 46 ∷ 98 ∷ 99 ∷ 46 ∷ []

abbrev labels : List Bytes
labels = (97 ∷ []) ∷ (98 ∷ 99 ∷ []) ∷ []

labels-IsLabel : All IsLabel labels
labels-IsLabel = ((omega arith, omega arith), ((omega arith, omega arith), tt))

abbrev out : Bytes
out = replicate 32 255

build_query-wire_query_example : build_query 258 host out ≡ (
  ok (length (wire_query 258 labels)),
  (
    wire_query 258 labels ++ drop (length (wire_query 258 labels)) out,
    length (wire_query 258 labels),
  ),
)
build_query-wire_query_example =
    build_query-wire_query 258 host out labels-IsLabel (omega arith) (omega arith)

-- A name, and a pointer that is cut off.
abbrev message : Bytes
message = 1 ∷ 97 ∷ 2 ∷ 98 ∷ 99 ∷ 0 ∷ 192 ∷ []

cut_off : skip_name message 6 ≡ none
unfolding skip_name
cut_off = refl

skip_name-ends_example : skip_name_loop 8 message 6 ≡ some (skip_name message 6)
skip_name-ends_example = skip_name-ends message 6

skip_name-wire_labels_example : skip_name message 0 ≡ some (0 + 5 + 1)
skip_name-wire_labels_example =
    skip_name-wire_labels message [] (192 ∷ []) labels refl labels-IsLabel (omega arith)

-- An authoritative reply (0x85) with two answers and one additional record.
abbrev authoritative : ReplyHeader
authoritative = record {
  flags = 133;
  code = 128;
  answers_hi = 0;
  answers_lo = 2;
  authorities_hi = 0;
  authorities_lo = 0;
  additional_hi = 0;
  additional_lo = 1;
}

authoritative-Succeeds : Succeeds authoritative 1
authoritative-Succeeds = record { no_error = refl; answers = refl }

parse_answer-wire_reply_example :
    parse_answer 258 (wire_reply 258 authoritative 12 labels 0 0 1 44 93 184 216 34 [])
    ≡ ipv4 (93 ∷ 184 ∷ 216 ∷ 34 ∷ [])
parse_answer-wire_reply_example =
    parse_answer-wire_reply 258 authoritative 1 12 labels 0 0 1 44 93 184 216 34 [] (omega arith)
      authoritative-Succeeds labels-IsLabel (omega arith)

-- Another number, and a reply with an error.
another_number :
    parse_answer 259 (wire_reply 258 authoritative 12 labels 0 0 1 44 93 184 216 34 []) ≡ ignored
unfolding parse_answer
another_number = refl

server_error : parse_answer 258 (1 ∷ 2 ∷ 129 ∷ 131 ∷ replicate 8 0) ≡ no_ipv4
unfolding parse_answer
server_error = refl
