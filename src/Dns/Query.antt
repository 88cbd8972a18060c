-- ===== src/Dns/Query.antt =====
-- The bytes that `build_query` of src/net/dns.rs writes.
use ferros.Prelude.{
  ℕ, zero, suc, ◌+◌, ◌-◌, ◌≤◌, ◌<◌, ◌≡◌, refl, sym, ap, ◌∙◌, false, List, [], ◌∷◌, ◌++◌,
  append_assoc, arith,
}
use ferros.Prelude.{
  length, take, drop, length-append, length-drop, All, Bytes, to_be16, split, ltb, ◌==◌, some, ◌||◌,
  append-nil, ok, M, ◌>>◌,
}
use ferros.Prelude.{checked_add}
use ferros.Dns.{Buffer, write, write_labels, strip_dot, build_query}

-- A label and its length in front, one after the other.
abbrev pub wire_labels : List Bytes → Bytes
wire_labels [] = []
wire_labels (l ∷ ls) = (length l ∷ l) ++ wire_labels ls

-- The whole message: header, name, type A, class IN.
abbrev pub wire_query : ℕ → List Bytes → Bytes
wire_query id ls =
    to_be16 id
    ++ ((0x01 ∷ 0x00 ∷ 0x00 ∷ 0x01 ∷ 0x00 ∷ 0x00 ∷ 0x00 ∷ 0x00 ∷ 0x00 ∷ 0x00 ∷ [])
        ++ (wire_labels ls ++ (0x00 ∷ 0x00 ∷ 0x01 ∷ 0x00 ∷ 0x01 ∷ [])))

-- A label that DNS allows.
abbrev pub IsLabel : Bytes → Type 0
IsLabel l = (1 ≤ length l) × (length l ≤ 63)

-- The buffer with `p` written at its beginning, and the rest as it was.
abbrev written : Bytes → Bytes → Buffer
written out p = (p ++ drop (length p) out, length p)

pub take-length_append : (p q : Bytes) → take (length p) (p ++ q) ≡ p
take-length_append [] q = refl
take-length_append (x ∷ p) q = ap (λ t. x ∷ t) (take-length_append p q)

pub drop-length_append : (p q : Bytes) (k : ℕ) → drop (length p + k) (p ++ q) ≡ drop k q
drop-length_append [] q k = ap (λ n. drop n q) (omega arith)
drop-length_append (x ∷ p) q k =
    let e : length (x ∷ p) + k ≡ suc (length p + k) = omega arith in
    ap (λ n. drop n (x ∷ p ++ q)) e ∙ drop-length_append p q k

drop-drop : (out : Bytes) (n k : ℕ) → drop k (drop n out) ≡ drop (n + k) out
drop-drop out zero k = ap (λ n. drop n out) (omega arith)
drop-drop [] (suc n) k =
    let e : suc n + k ≡ suc (n + k) = omega arith in
    drop-nil k ∙ sym (ap (λ j. drop {A = ℕ} j []) e)
  where
    drop-nil : (k : ℕ) → drop {A = ℕ} k [] ≡ []
    drop-nil zero = refl
    drop-nil (suc k) = refl
drop-drop (x ∷ xs) (suc n) k =
    let e : suc n + k ≡ suc (n + k) = omega arith in
    drop-drop xs n k ∙ sym (ap (λ j. drop j (x ∷ xs)) e)

write-written :
    (out p bytes : Bytes)
    → length (p ++ bytes) ≤ length out
    → length out < 18446744073709551616
    → write bytes (written out p) ≡ (ok tt, written out (p ++ bytes))
unfolding write
write-written out p bytes room small =
    let size = length-append p bytes in
    let whole = length-append p (drop (length p) out) in
    let kept : length (drop (length p) out) ≡ length out - length p = length-drop (length p) out in
    let front = take-length_append p (drop (length p) out) in
    let back : drop (length p + length bytes) (p ++ drop (length p) out)
        ≡ drop (length (p ++ bytes)) out =
      drop-length_append p (drop (length p) out) (length bytes)
      ∙ drop-drop out (length p) (length bytes)
      ∙ ap (λ n. drop n out) (sym size) in
    let assoc = append_assoc p bytes (drop (length (p ++ bytes)) out) in
    let checks : checked_add (length p) (length bytes) ≡ some (length p + length bytes) =
      ground arith in
    let fits : ltb (length (p ++ drop (length p) out)) (length p + length bytes) ≡ false =
      ground arith in
    rw (checks, fits, front, back, write) (ground (arith, assoc, size))

-- One call after another that succeeds.
>>-ok :
    {S B : Type 0} (m : M S (Unit {0}) (Unit {0})) (k : M S (Unit {0}) B) (s t : S)
    → m s ≡ (ok tt, t)
    → (m >> k) s ≡ k t
>>-ok m k s t e = rw e refl

write_labels-written :
    (out : Bytes) (ls : List Bytes) (p : Bytes)
    → All IsLabel ls
    → length (p ++ wire_labels ls) ≤ length out
    → length out < 18446744073709551616
    → write_labels ls (written out p) ≡ (ok tt, written out (p ++ wire_labels ls))
unfolding write_labels
write_labels-written out [] p good room small =
    ap (λ q. (ok tt, written out q)) (sym (append-nil p))
write_labels-written out (l ∷ ls) p good room small =
    let allowed : ((length l == 0) || ltb 63 (length l)) ≡ false = ground arith in
    let q = p ++ (length l ∷ []) in
    let joined =
      append_assoc q l (wire_labels ls) ∙ append_assoc p (length l ∷ []) (l ++ wire_labels ls) in
    let size = ap length joined in
    let size_ql = length-append (q ++ l) (wire_labels ls) in
    let size_q = length-append q l in
    rw allowed (
      >>-ok (write (length l ∷ [])) _ (written out p) (written out q)
        (write-written out p (length l ∷ []) (omega (arith, size, size_ql, size_q)) small)
      ∙ >>-ok (write l) _ (written out q) (written out (q ++ l))
          (write-written out q l (omega (arith, size, size_ql)) small)
      ∙ write_labels-written out ls (q ++ l) good.1 (omega (arith, size)) small
      ∙ ap (λ r. (ok tt, written out r)) joined)

write->> :
    {B : Type 0} (out p bytes : Bytes) (k : M Buffer (Unit {0}) B)
    → length (p ++ bytes) ≤ length out
    → length out < 18446744073709551616
    → (write bytes >> k) (written out p) ≡ k (written out (p ++ bytes))
write->> out p bytes k room small =
    >>-ok (write bytes) k (written out p) (written out (p ++ bytes))
      (write-written out p bytes room small)

-- Labels that DNS allows, and room for the message: then the query is written, with the length of
-- the message as the result, and the bytes behind it are as they were.
pub build_query-wire_query :
    (id : ℕ) (hostname out : Bytes)
    → let ls = split 46 (strip_dot hostname) in
      All IsLabel ls
      → length (wire_query id ls) ≤ length out
      → length out < 18446744073709551616
      → build_query id hostname out ≡ (
        ok (length (wire_query id ls)),
        (wire_query id ls ++ drop (length (wire_query id ls)) out, length (wire_query id ls)),
      )
unfolding build_query
build_query-wire_query id hostname out good room small =
    let ls = split 46 (strip_dot hostname) in
    let w = wire_labels ls in
    let size = length-append w (0x00 ∷ 0x00 ∷ 0x01 ∷ 0x00 ∷ 0x01 ∷ []) in
    let i = to_be16 id in
    let f = i ++ (0x01 ∷ 0x00 ∷ []) in
    let q = f ++ (0x00 ∷ 0x01 ∷ []) in
    let h = q ++ (0x00 ∷ 0x00 ∷ 0x00 ∷ 0x00 ∷ 0x00 ∷ 0x00 ∷ []) in
    let size_w = length-append w (0x00 ∷ []) in
    let size_a = length-append (w ++ (0x00 ∷ [])) (0x00 ∷ 0x01 ∷ []) in
    let size_c = length-append (w ++ (0x00 ∷ []) ++ (0x00 ∷ 0x01 ∷ [])) (0x00 ∷ 0x01 ∷ []) in
    let whole : h ++ w ++ (0x00 ∷ []) ++ (0x00 ∷ 0x01 ∷ []) ++ (0x00 ∷ 0x01 ∷ [])
        ≡ wire_query id ls =
      ap (λ r. h ++ r)
        (append_assoc (w ++ (0x00 ∷ [])) (0x00 ∷ 0x01 ∷ []) (0x00 ∷ 0x01 ∷ [])
          ∙ append_assoc w (0x00 ∷ []) (0x00 ∷ 0x01 ∷ 0x00 ∷ 0x01 ∷ [])) in
    write->> out [] i _ (omega (arith, size)) small
    ∙ write->> out i (0x01 ∷ 0x00 ∷ []) _ (omega (arith, size)) small
    ∙ write->> out f (0x00 ∷ 0x01 ∷ []) _ (omega (arith, size)) small
    ∙ write->> out q (0x00 ∷ 0x00 ∷ 0x00 ∷ 0x00 ∷ 0x00 ∷ 0x00 ∷ []) _ (omega (arith, size)) small
    ∙ >>-ok (write_labels ls) _ (written out h) (written out (h ++ w))
        (write_labels-written out ls h good (omega (arith, size)) small)
    ∙ write->> out (h ++ w) (0x00 ∷ []) _ (omega (arith, size, size_w)) small
    ∙ write->> out (h ++ w ++ (0x00 ∷ [])) (0x00 ∷ 0x01 ∷ []) _
        (omega (arith, size, size_w, size_a)) small
    ∙ write->> out (h ++ w ++ (0x00 ∷ []) ++ (0x00 ∷ 0x01 ∷ [])) (0x00 ∷ 0x01 ∷ []) _
        (omega (arith, size, size_w, size_a, size_c)) small
    ∙ ap (λ r. (ok (length r), (r ++ drop (length r) out, length r))) whole
