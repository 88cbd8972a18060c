-- ===== src/Console/Typed.antt =====
-- What the person at the keyboard of src/drivers/console.rs has typed, described without the console.
use ferros.Prelude.{
  ℕ, zero, suc, ◌+◌, ◌≡◌, refl, ap, ◌∙◌, inl, inr, Bool, true, false, ◌&&◌, ◌||◌, List, [], ◌∷◌,
  ◌++◌, map, append_assoc, append-nil, arith,
}
use ferros.Prelude.{if◌then◌else◌, leb, ◌==◌, Bool-cases, Bytes}

-- Lines that are complete, and the one being typed.
pub record Typed : Type 0 where
  pub complete : List Bytes
  pub current : Bytes

-- Line feed and carriage return; backspace and delete; space to tilde.
abbrev pub ends_line : ℕ → Bool
ends_line key = (key == 10) || (key == 13)

abbrev pub rubs_out : ℕ → Bool
rubs_out key = (key == 8) || (key == 127)

abbrev pub shows : ℕ → Bool
shows key = leb 32 key && leb key 126

-- The keys of each line that was ended, and those behind the last end.
abbrev with_first : ℕ → List Bytes × Bytes → List Bytes × Bytes
with_first key ([], rest) = ([], key ∷ rest)
with_first key (line ∷ more, rest) = ((key ∷ line) ∷ more, rest)

abbrev pub split : List ℕ → List Bytes × Bytes
split [] = ([], [])
split (key ∷ keys) =
    let (lines, rest) = split keys in
    if ends_line key then ([] ∷ lines, rest) else with_first key (lines, rest)

-- A character in front of what survives: a key that still rubs out takes it.
abbrev stand : ℕ → ℕ × Bytes → ℕ × Bytes
stand key (zero, kept) = (0, key ∷ kept)
stand key (suc n, kept) = (n, kept)

-- Of the keys of one line, the characters that no later key rubs out, and how many keys rub out
-- what stands before the line.
abbrev pub survivors : Bytes → ℕ × Bytes
survivors [] = (0, [])
survivors (key ∷ keys) =
    let (n, kept) = survivors keys in
    if rubs_out key then (n + 1, kept) else if shows key then stand key (n, kept) else (n, kept)

abbrev pub text : Bytes → Bytes
text keys = (survivors keys).1

abbrev pub typed : List ℕ → Typed
typed keys = record { complete = map text (split keys).0; current = text (split keys).1 }

-- The same, one key after the other.
abbrev pub without_last : Bytes → Bytes
without_last [] = []
without_last (b ∷ []) = []
without_last (b ∷ c ∷ bs) = b ∷ without_last (c ∷ bs)

abbrev pub type_key : ℕ → Typed → Typed
type_key key t =
    if ends_line key
    then record { complete = t.complete ++ (t.current ∷ []); current = [] }
    else if rubs_out key
    then record t { current = without_last t.current }
    else if shows key
    then record t { current = t.current ++ (key ∷ []) }
    else t

abbrev pub type_all : List ℕ → Typed → Typed
type_all [] t = t
type_all (key ∷ keys) t = type_all keys (type_key key t)

abbrev drop_last : ℕ → Bytes → Bytes
drop_last zero bs = bs
drop_last (suc n) bs = drop_last n (without_last bs)

-- What becomes of a line by more keys of the same line.
abbrev edited : Bytes → Bytes → Bytes
edited line keys = drop_last (survivors keys).0 line ++ (survivors keys).1

drop_last-nil : (n : ℕ) → drop_last n [] ≡ []
drop_last-nil zero = refl
drop_last-nil (suc n) = drop_last-nil n

edited-nil : (keys : Bytes) → edited [] keys ≡ text keys
edited-nil keys = ap (λ bs. bs ++ text keys) (drop_last-nil (survivors keys).0)

without_last-append : (bs : Bytes) (b : ℕ) → without_last (bs ++ (b ∷ [])) ≡ bs
without_last-append [] b = refl
without_last-append (x ∷ []) b = refl
without_last-append (x ∷ y ∷ bs) b = ap (λ r. x ∷ r) (without_last-append (y ∷ bs) b)

edited-cons :
    (key : ℕ) (t : Typed) (keys : Bytes)
    → ends_line key ≡ false
    → edited (type_key key t).current keys ≡ edited t.current (key ∷ keys)
edited-cons key t keys other = elim (Bool-cases (rubs_out key)) [
  | inl erase ↦
      let e : (survivors keys).0 + 1 ≡ suc (survivors keys).0 = omega arith in
      rw (other, erase, e) refl
  | inr kept ↦ elim (Bool-cases (shows key)) [
    | inr hidden ↦ rw (other, kept, hidden) refl
    | inl shown ↦ rw (other, kept, shown) (behind (survivors keys).0 (survivors keys).1)
  ]
]
  where
    behind :
        (n : ℕ) (rest : Bytes)
        → drop_last n (t.current ++ (key ∷ [])) ++ rest
          ≡ drop_last (stand key (n, rest)).0 t.current ++ (stand key (n, rest)).1
    behind zero rest = append_assoc t.current (key ∷ []) rest
    behind (suc n) rest = ap (λ bs. drop_last n bs ++ rest) (without_last-append t.current key)

-- Keys typed behind what is there.
abbrev joined : Typed → List Bytes × Bytes → Typed
joined t ([], rest) = record t { current = edited t.current rest }
joined t (line ∷ more, rest) = record {
  complete = t.complete ++ (edited t.current line ∷ map text more);
  current = text rest;
}

joined-key :
    (key : ℕ) (t : Typed) (lines : List Bytes) (rest : Bytes)
    → ends_line key ≡ false
    → joined (type_key key t) (lines, rest) ≡ joined t (with_first key (lines, rest))
joined-key key t [] rest other =
    ap (λ (c : List Bytes). record { complete = c; current = edited (type_key key t).current rest })
      (same_lines key t other)
    ∙ ap (λ (b : Bytes). record t { current = b }) (edited-cons key t rest other)
  where
    same_lines :
        (key : ℕ) (t : Typed) → ends_line key ≡ false → (type_key key t).complete ≡ t.complete
    same_lines key t other = ground arith
joined-key key t (line ∷ more) rest other =
    cc (same_lines key t other, edited-cons key t line other)
  where
    same_lines :
        (key : ℕ) (t : Typed) → ends_line key ≡ false → (type_key key t).complete ≡ t.complete
    same_lines key t other = ground arith

joined-end :
    (key : ℕ) (t : Typed) (lines : List Bytes) (rest : Bytes)
    → ends_line key ≡ true
    → joined (type_key key t) (lines, rest) ≡ joined t ([] ∷ lines, rest)
joined-end key t [] rest e = rw (e, edited-nil rest, append-nil t.current) refl
joined-end key t (line ∷ more) rest e =
    rw (e, edited-nil line, append-nil t.current)
      (ap (λ (c : List Bytes). record { complete = c; current = text rest })
        (append_assoc t.complete (t.current ∷ []) (text line ∷ map text more)))

type_all-joined : (keys : List ℕ) (t : Typed) → type_all keys t ≡ joined t (split keys)
type_all-joined [] t = rw (append-nil t.current) refl
type_all-joined (key ∷ keys) t = elim (Bool-cases (ends_line key)) [
  | inl e ↦
      type_all-joined keys (type_key key t)
      ∙ joined-end key t (split keys).0 (split keys).1 e
      ∙ rw e refl
  | inr other ↦
      type_all-joined keys (type_key key t)
      ∙ joined-key key t (split keys).0 (split keys).1 other
      ∙ rw other refl
]

abbrev pub start : Typed
start = record { complete = []; current = [] }

-- Key after key comes to the same.
pub type_all-typed : (keys : List ℕ) → type_all keys start ≡ typed keys
type_all-typed keys = type_all-joined keys start ∙ whole (split keys).0 (split keys).1
  where
    whole :
        (lines : List Bytes) (rest : Bytes)
        → joined start (lines, rest) ≡ record { complete = map text lines; current = text rest }
    whole [] rest = rw (edited-nil rest) refl
    whole (line ∷ more) rest = rw (edited-nil line) refl
