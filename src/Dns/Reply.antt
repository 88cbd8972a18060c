-- ===== src/Dns/Reply.antt =====
-- `parse_answer` of src/net/dns.rs on the reply of a server.
use ferros.Prelude.{
  ℕ, suc, ◌+◌, ◌*◌, ◌%◌, ◌≤◌, ◌<◌, ◌≡◌, refl, ap, ◌∙◌, true, false, List, [], ◌∷◌, ◌++◌, some,
  arith,
}
use ferros.Prelude.{
  ltb, ◌==◌, ==_refl, length, length-append, get_elem?, get_or, take, drop, All, Bytes, be16,
  to_be16,
}
use ferros.Prelude.{checked_add}
use ferros.Dns.{
  get_be16, skip_name, skip_questions, Fields, fields_at, find_answer, find_a, ipv4, parse_answer,
}
use ferros.Dns.Query.{IsLabel, wire_labels, drop-length_append}
use ferros.Dns.Skip.{skip_name-wire_labels, skip_name-pointer, get_elem?-behind}

abbrev a_record : ℕ → ℕ → Fields
a_record rdata rend = record { rtype = 1; rclass = 1; rdlen = 4; rdata = rdata; rend = rend }

same_fields : {x y x' y' : ℕ} → x ≡ x' → y ≡ y' → some (a_record x y) ≡ some (a_record x' y')
same_fields e f = cc (e, f)

at_least : (n : ℕ) → 12 ≤ n → ltb n 12 ≡ false
at_least n h = ground arith

parse_answer-lem :
    (id : ℕ) (msg : Bytes) (pos more : ℕ) (addr : Bytes)
    → 12 ≤ length msg
    → be16 (get_or msg 0 0) (get_or msg 1 0) ≡ id
    → get_or msg 3 0 % 16 ≡ 0
    → be16 (get_or msg 4 0) (get_or msg 5 0) ≡ 1
    → be16 (get_or msg 6 0) (get_or msg 7 0) ≡ suc more
    → skip_questions 1 msg 12 ≡ some pos
    → find_answer (suc more) msg pos ≡ some addr
    → parse_answer id msg ≡ ipv4 addr
unfolding parse_answer find_a
parse_answer-lem id msg pos more addr long mine no_error one_question one_answer q f =
    let long' : ltb (length msg) 12 ≡ false = at_least (length msg) long in
    let mine' : (be16 (get_or msg 0 0) (get_or msg 1 0) == id) ≡ true =
      ap (λ x. x == id) mine ∙ ==_refl id in
    rw (long', mine', no_error, one_question, one_answer, q, f, parse_answer, find_a) refl

fields_at-lem :
    (msg : Bytes) (pos rtype rclass rdlen : ℕ)
    → get_be16 msg pos ≡ some rtype
    → get_be16 msg (pos + 2) ≡ some rclass
    → get_be16 msg (pos + 8) ≡ some rdlen
    → pos + 10 + rdlen ≤ length msg
    → length msg < 18446744073709551616
    → fields_at msg pos
      ≡ some (record {
        rtype = rtype;
        rclass = rclass;
        rdlen = rdlen;
        rdata = pos + 10;
        rend = pos + 10 + rdlen;
      })
unfolding fields_at
fields_at-lem msg pos rtype rclass rdlen t c l fits small =
    let begins : checked_add pos 10 ≡ some (pos + 10) = ground arith in
    let ends : checked_add (pos + 10) rdlen ≡ some (pos + 10 + rdlen) = ground arith in
    let inside : ltb (length msg) (pos + 10 + rdlen) ≡ false = ground arith in
    rw (t, c, l, begins, ends, inside, fields_at) refl

-- The header behind the number, but for the count of questions: two bytes of flags, and the counts of
-- answers, authorities and additional records, two bytes each.
pub record ReplyHeader : Type 0 where
  pub flags : ℕ
  pub code : ℕ
  pub answers_hi : ℕ
  pub answers_lo : ℕ
  pub authorities_hi : ℕ
  pub authorities_lo : ℕ
  pub additional_hi : ℕ
  pub additional_lo : ℕ

-- No error (RCODE is 0), and at least one answer.
pub record Succeeds (h : ReplyHeader) (more : ℕ) : Type 0 where
  pub no_error : h.code % 16 ≡ 0
  pub answers : h.answers_hi * 256 + h.answers_lo ≡ suc more

module _ (id : ℕ) (h : ReplyHeader) (low : ℕ) (ls : List Bytes) (t0 t1 t2 t3 a b c d : ℕ)
    (rest : Bytes) where
  abbrev header : Bytes
  header =
      to_be16 id
      ++ (h.flags ∷ h.code ∷ 0 ∷ 1 ∷ h.answers_hi ∷ h.answers_lo ∷ h.authorities_hi
          ∷ h.authorities_lo ∷ h.additional_hi ∷ h.additional_lo ∷ [])

  -- Type and class of the question; the answer, its name a pointer.
  abbrev behind_name : Bytes
  behind_name =
      0 ∷ 1 ∷ 0 ∷ 1 ∷ 0xc0 ∷ low ∷ 0 ∷ 1 ∷ 0 ∷ 1 ∷ t0 ∷ t1 ∷ t2 ∷ t3 ∷ 0 ∷ 4 ∷ a ∷ b ∷ c ∷ d ∷ rest

  -- The reply to a query: the header, the question again, and an A record with four bytes.
  abbrev pub wire_reply : Bytes
  wire_reply = header ++ (wire_labels ls ++ (0 ∷ behind_name))

  -- The position of the byte `k` behind the name of the question.
  abbrev place : ℕ → ℕ
  place k = 13 + length (wire_labels ls) + k

  at : (k : ℕ) → get_elem? wire_reply (place k) ≡ get_elem? behind_name k
  at k =
      ap (get_elem? wire_reply) (omega arith)
      ∙ get_elem?-behind header (wire_labels ls ++ (0 ∷ behind_name))
          (length (wire_labels ls) + suc k)
      ∙ get_elem?-behind (wire_labels ls) (0 ∷ behind_name) (suc k)

  at_place : (k p : ℕ) → p ≡ place k → get_elem? wire_reply p ≡ get_elem? behind_name k
  at_place k p e = ap (get_elem? wire_reply) e ∙ at k

  word_at :
      (k p x y : ℕ)
      → p ≡ place k
      → get_elem? behind_name k ≡ some x
      → get_elem? behind_name (k + 1) ≡ some y
      → get_be16 wire_reply p ≡ some (be16 x y)
  word_at k p x y e h h' =
      let first = at_place k p e ∙ h in
      let second = at_place (k + 1) (p + 1) (omega arith) ∙ h' in rw (first, second) refl

  length-wire_reply : length wire_reply ≡ place 20 + length rest
  length-wire_reply = omega (arith, length-append (wire_labels ls) (0 ∷ behind_name))

  module _ (good : All IsLabel ls) (small : length wire_reply < 18446744073709551616) where
    question : skip_questions 1 wire_reply 12 ≡ some (place 4)
    unfolding skip_questions
    question =
        let skipped : skip_name wire_reply 12 ≡ some (place 0) =
          skip_name-wire_labels wire_reply header behind_name ls refl good small
          ∙ ap some (omega arith) in
        let adds : checked_add (place 0) 4 ≡ some (place 4) = ground (arith, length-wire_reply) in
        rw (skipped, adds, skip_questions) refl

    pointer : skip_name wire_reply (place 4) ≡ some (place 6)
    pointer =
        skip_name-pointer wire_reply (place 4) 0xc0 low (at 4) refl
          (at_place 5 (place 4 + 1) (omega arith))
        ∙ ap some (omega arith)

    fields :
        fields_at wire_reply (place 6)
        ≡ some (record { rtype = 1; rclass = 1; rdlen = 4; rdata = place 16; rend = place 20 })
    fields =
        let rtype = word_at 6 (place 6) 0 1 refl refl refl in
        let rclass = word_at 8 (place 6 + 2) 0 1 (omega arith) refl refl in
        let rdlen = word_at 14 (place 6 + 8) 0 4 (omega arith) refl refl in
        fields_at-lem wire_reply (place 6) 1 1 4 rtype rclass rdlen
          (omega (arith, length-wire_reply)) small
        ∙ same_fields (omega arith) (omega arith)

    answer : (more : ℕ) → find_answer (suc more) wire_reply (place 4) ≡ some (a ∷ b ∷ c ∷ d ∷ [])
    unfolding find_answer
    answer more =
        let rdata : take 4 (drop (place 16) wire_reply) ≡ a ∷ b ∷ c ∷ d ∷ [] = ap (take 4) (
          ap (λ n. drop n wire_reply) (omega arith)
          ∙ drop-length_append header (wire_labels ls ++ (0 ∷ behind_name))
              (length (wire_labels ls) + 17)
          ∙ drop-length_append (wire_labels ls) (0 ∷ behind_name) 17) in
        rw (pointer, fields, find_answer) (ap some rdata)

-- The reply to a query with this number gives the address in it: a reply with no error code, whatever
-- its other flags, that repeats the one question (labels that DNS allows), counts at least one answer,
-- any authorities and any additional records, and has an A record of four bytes next, named by a
-- pointer, whatever its time to live and whatever follows.
pub parse_answer-wire_reply :
    (id : ℕ) (h : ReplyHeader) (more low : ℕ) (ls : List Bytes) (t0 t1 t2 t3 a b c d : ℕ)
    (rest : Bytes)
    → id < 65536
    → Succeeds h more
    → All IsLabel ls
    → length (wire_reply id h low ls t0 t1 t2 t3 a b c d rest) < 18446744073709551616
    → parse_answer id (wire_reply id h low ls t0 t1 t2 t3 a b c d rest) ≡ ipv4 (a ∷ b ∷ c ∷ d ∷ [])
parse_answer-wire_reply id h more low ls t0 t1 t2 t3 a b c d rest word wins good small =
    parse_answer-lem id (wire_reply id h low ls t0 t1 t2 t3 a b c d rest) _ more
      (a ∷ b ∷ c ∷ d ∷ []) (omega (arith, length-wire_reply id h low ls t0 t1 t2 t3 a b c d rest))
      (omega arith) wins.no_error refl (omega (arith, wins.answers))
      (question id h low ls t0 t1 t2 t3 a b c d rest good small)
      (answer id h low ls t0 t1 t2 t3 a b c d rest good small more)
