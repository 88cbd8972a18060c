-- ===== src/Dns.antt =====
-- src/net/dns.rs: the query for an A record, and the search of an answer for an IPv4 address. Text
-- and messages are bytes; `usize` has 64 bits.
pub mod Query
pub mod Skip
pub mod Reply
mod Tests
use ferros.Prelude.{checked_add}
use ferros.Prelude.{
  ℕ, zero, suc, ◌+◌, ◌-◌, ◌/◌, ◌%◌, ◌^◌, Bool, ◌&&◌, ◌||◌, not, Option, none, some, List, [], ◌∷◌,
  ◌++◌,
}
use ferros.Prelude.{
  if◌then◌else◌, ltb, ◌==◌, length, get_elem?, get_or, take, drop, Bytes, be16, to_be16, split,
}
use ferros.Prelude.{Result, ok, err, M, pure, throw, ◌>>=◌, ◌>>◌}

abbrev pub qtype_a : ℕ
qtype_a = 1

abbrev pub qclass_in : ℕ
qclass_in = 1

-- The variables `out` and `pos`.
abbrev pub Buffer : Type 0
Buffer = Bytes × ℕ

-- `None` is the error; it keeps what was written before.
unfoldable pub write : Bytes → M Buffer (Unit {0}) (Unit {0})
write bytes (out, pos) = elim (checked_add pos (length bytes)) [
  | none ↦ (err tt, (out, pos))
  | some end ↦
      if ltb (length out) end
      then (err tt, (out, pos))
      else (ok tt, (take pos out ++ (bytes ++ drop end out), end))
]

-- `strip_suffix('.').unwrap_or(hostname)`
abbrev pub strip_dot : Bytes → Bytes
strip_dot [] = []
strip_dot (x ∷ []) = if x == 46 then [] else x ∷ []
strip_dot (x ∷ y ∷ r) = x ∷ strip_dot (y ∷ r)

unfoldable pub write_labels : List Bytes → M Buffer (Unit {0}) (Unit {0})
unfolding write
write_labels [] = pure tt
write_labels (label ∷ labels) =
    if (length label == 0) || ltb 63 (length label)
    then throw tt
    else write (length label ∷ []) >> (write label >> write_labels labels)

-- The position where `pos` ends is the result.
abbrev pub position : M Buffer (Unit {0}) ℕ
position (out, pos) = (ok pos, (out, pos))

unfoldable pub build_query : ℕ → Bytes → Bytes → Result (Unit {0}) ℕ × Buffer
unfolding write write_labels
build_query id hostname out =
    (write (to_be16 id)
        >> (write (0x01 ∷ 0x00 ∷ [])
            >> (write (0x00 ∷ 0x01 ∷ [])
                >> (write (0x00 ∷ 0x00 ∷ 0x00 ∷ 0x00 ∷ 0x00 ∷ 0x00 ∷ [])
                    >> (write_labels (split 46 (strip_dot hostname))
                        >> (write (0x00 ∷ [])
                            >> (write (to_be16 qtype_a)
                                >> (write (to_be16 qclass_in) >> position))))))))
      (out, 0)

-- The loop of `skip_name`; the outer `none` says that the fuel ran out.
unfoldable pub skip_name_loop : ℕ → Bytes → ℕ → Option (Option ℕ)
skip_name_loop zero msg pos = none
skip_name_loop (suc fuel) msg pos = elim (get_elem? msg pos) [
  | none ↦ some none
  | some len ↦
      if len / 64 % 4 == 3
      then elim (get_elem? msg (pos + 1)) [ none ↦ some none | some low ↦ some (some (pos + 2)) ]
      else if len == 0
      then some (some (pos + 1))
      else elim (checked_add pos (1 + len)) [
        | none ↦ some none
        | some next ↦ skip_name_loop fuel msg next
      ]
]

abbrev pub joined : Option (Option ℕ) → Option ℕ
joined none = none
joined (some r) = r

-- A round for each byte of the message is enough.
unfoldable pub skip_name : Bytes → ℕ → Option ℕ
unfolding skip_name_loop
skip_name msg pos = joined (skip_name_loop (suc (length msg)) msg pos)

pub data Answer : Type 0 where
  ipv4 : Bytes → Answer
  no_ipv4 ignored : Answer

-- `?` on an option.
abbrev pub and_then {ℓ κ} : {A : Type ℓ} {B : Type κ} → Option A → (A → Option B) → Option B
and_then none f = none
and_then (some a) f = f a

-- `u16::from_be_bytes([*msg.get(pos)?, *msg.get(pos + 1)?])`
abbrev pub get_be16 : Bytes → ℕ → Option ℕ
get_be16 msg pos =
    and_then (get_elem? msg pos) (λ a. and_then (get_elem? msg (pos + 1)) (λ b. some (be16 a b)))

unfoldable pub skip_questions : ℕ → Bytes → ℕ → Option ℕ
unfolding skip_name
skip_questions zero msg pos = some pos
skip_questions (suc n) msg pos =
    and_then (skip_name msg pos)
      (λ after_name. and_then (checked_add after_name 4) (λ next. skip_questions n msg next))

-- One record behind its name: its type, class, length of data, and where the data begin and end.
pub record Fields : Type 0 where
  pub rtype : ℕ
  pub rclass : ℕ
  pub rdlen : ℕ
  pub rdata : ℕ
  pub rend : ℕ

unfoldable pub fields_at : Bytes → ℕ → Option Fields
fields_at msg pos = and_then (get_be16 msg pos) (λ rtype.
    and_then (get_be16 msg (pos + 2)) (λ rclass. and_then (get_be16 msg (pos + 8)) (λ rdlen.
      and_then (checked_add pos 10) (λ rdata. and_then (checked_add rdata rdlen) (λ rend.
        if ltb (length msg) rend
        then none
        else some (record {
          rtype = rtype;
          rclass = rclass;
          rdlen = rdlen;
          rdata = rdata;
          rend = rend;
        }))))))

unfoldable pub find_answer : ℕ → Bytes → ℕ → Option Bytes
unfolding skip_name fields_at
find_answer zero msg pos = none
find_answer (suc n) msg pos = and_then (skip_name msg pos) (λ after_name.
    and_then (fields_at msg after_name) (λ f.
      let rest = find_answer n msg f.rend in
      if (f.rtype == qtype_a) && ((f.rclass == qclass_in) && (f.rdlen == 4))
      then some (take 4 (drop f.rdata msg))
      else rest))

-- The caller has at least 12 bytes.
unfoldable pub find_a : Bytes → Option Bytes
unfolding skip_questions find_answer
find_a msg =
    if not (get_or msg 3 0 % 16 == 0)
    then none
    else and_then (skip_questions (be16 (get_or msg 4 0) (get_or msg 5 0)) msg 12)
        (λ pos. find_answer (be16 (get_or msg 6 0) (get_or msg 7 0)) msg pos)

abbrev pub answered : Option Bytes → Answer
answered none = no_ipv4
answered (some addr) = ipv4 addr

unfoldable pub parse_answer : ℕ → Bytes → Answer
unfolding find_a
parse_answer id msg =
    if ltb (length msg) 12 || not (be16 (get_or msg 0 0) (get_or msg 1 0) == id)
    then ignored
    else answered (find_a msg)
