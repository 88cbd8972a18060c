-- ===== src/Console/Lines.antt =====
-- The line discipline of src/drivers/console.rs, as a queue of whole lines.
use ferros.Prelude.{
  ℕ, zero, suc, ◌+◌, ◌<◌, ◌≡◌, refl, sym, ap, subst, ◌∙◌, inl, inr, false, List, [], ◌∷◌, ◌++◌,
  append_assoc, arith, min,
}
use ferros.Prelude.{◌==◌, Bool-cases, length, take, drop, take-append-drop, Bytes, within, pop}
use ferros.Console.Typed.{Typed, start, type_key, type_all, typed, type_all-typed, without_last}
use ferros.Console.{Console, init, edit, is_enter, is_erase, line_len, take_ready, unread}

-- Lines as bytes, each closed by a newline.
abbrev pub unlines : List Bytes → Bytes
unlines [] = []
unlines (l ∷ ls) = l ++ (10 ∷ unlines ls)

abbrev pub HasNoNewline : Bytes → Type 0
HasNoNewline [] = Unit {0}
HasNoNewline (b ∷ bs) = ((b == 10) ≡ false) × HasNoNewline bs

abbrev pub AllLines : List Bytes → Type 0
AllLines [] = Unit {0}
AllLines (l ∷ ls) = HasNoNewline l × AllLines ls

-- The console holds what is typed.
pub record Holds (con : Console) (t : Typed) : Type 0 where
  pub ready : con.ready ≡ unlines t.complete
  pub line : con.line ≡ t.current
  pub lines : AllLines t.complete
  pub current : HasNoNewline t.current

unlines-append :
    (ls : List Bytes) (l : Bytes) → unlines (ls ++ (l ∷ [])) ≡ unlines ls ++ (l ++ (10 ∷ []))
unlines-append [] l = refl
unlines-append (k ∷ ls) l =
    ap (λ r. k ++ (10 ∷ r)) (unlines-append ls l)
    ∙ sym (append_assoc k (10 ∷ unlines ls) (l ++ (10 ∷ [])))

AllLines-append :
    (ls : List Bytes) (l : Bytes) → AllLines ls → HasNoNewline l → AllLines (ls ++ (l ∷ []))
AllLines-append [] l h k = (k, tt)
AllLines-append (x ∷ ls) l h k = (h.0, AllLines-append ls l h.1 k)

HasNoNewline-pop : (bs : Bytes) → HasNoNewline bs → HasNoNewline (pop bs)
HasNoNewline-pop [] h = tt
HasNoNewline-pop (b ∷ []) h = tt
HasNoNewline-pop (b ∷ c ∷ bs) h = (h.0, HasNoNewline-pop (c ∷ bs) h.1)

HasNoNewline-append :
    (bs : Bytes) (b : ℕ) → HasNoNewline bs → (b == 10) ≡ false → HasNoNewline (bs ++ (b ∷ []))
HasNoNewline-append [] b h k = (k, tt)
HasNoNewline-append (c ∷ bs) b h k = (h.0, HasNoNewline-append bs b h.1 k)

pop-without_last : (bs : Bytes) → pop bs ≡ without_last bs
pop-without_last [] = refl
pop-without_last (b ∷ []) = refl
pop-without_last (b ∷ c ∷ bs) = ap (λ r. b ∷ r) (pop-without_last (c ∷ bs))

-- One key.
edit-Holds :
    (byte : ℕ) (con : Console) (t : Typed) → Holds con t → Holds (edit byte con).1 (type_key byte t)
unfolding edit
edit-Holds byte con t h = elim (Bool-cases (is_enter byte)) [
  | inl enter ↦ rw enter (record {
    ready = rw (h.ready, h.line) (sym (unlines-append t.complete t.current));
    line = refl;
    lines = AllLines-append t.complete t.current h.lines h.current;
    current = tt;
  })
  | inr other ↦ elim (Bool-cases (is_erase byte)) [
    | inl erase ↦
        rw (other, erase)
          (record {
            ready = h.ready;
            line = ap pop h.line ∙ pop-without_last t.current;
            lines = h.lines;
            current =
                subst HasNoNewline (pop-without_last t.current)
                  (HasNoNewline-pop t.current h.current);
          })
    | inr kept ↦ elim (Bool-cases (within 0x20 0x7e byte)) [
      | inr control ↦ rw (other, kept, control) h
      | inl printed ↦
          rw (other, kept, printed)
            (record {
              ready = h.ready;
              line = ap (λ l. l ++ (byte ∷ [])) h.line;
              lines = h.lines;
              current = HasNoNewline-append t.current byte h.current (ground arith);
            })
    ]
  ]
]

-- All keys, one after the other.
abbrev pub edit_all : List ℕ → Console → Console
edit_all [] con = con
edit_all (k ∷ ks) con = edit_all ks (edit k con).1

edit_all-Holds :
    (keys : List ℕ) (con : Console) (t : Typed)
    → Holds con t
    → Holds (edit_all keys con) (type_all keys t)
edit_all-Holds [] con t h = h
edit_all-Holds (k ∷ ks) con t h =
    edit_all-Holds ks (edit k con).1 (type_key k t) (edit-Holds k con t h)

-- After any keys the console that was empty holds what was typed. The keys are cut at each line feed
-- and carriage return. A line is the characters from space to tilde among its keys, less those that a
-- later backspace or delete of the same line rubs out: each of these takes the last character that
-- stands, if there is one. The queue is the ended lines, each closed by a newline and with no other
-- newline in it, and the edited line is the one behind the last end.
pub edit_all-Holds-init : (keys : List ℕ) → Holds (edit_all keys init) (typed keys)
unfolding init
edit_all-Holds-init keys = subst (Holds (edit_all keys init)) (type_all-typed keys) (
    edit_all-Holds keys init start (record { ready = refl; line = refl; lines = tt; current = tt }))

line_len-append : (l rest : Bytes) → HasNoNewline l → line_len (l ++ (10 ∷ rest)) ≡ length l + 1
line_len-append [] rest h = refl
line_len-append (b ∷ l) rest h = rw h.0 (omega (arith, line_len-append l rest h.1))

take-length :
    (l rest : Bytes) (n : ℕ) → n ≡ length l + 1 → take n (l ++ (10 ∷ rest)) ≡ l ++ (10 ∷ [])
take-length [] rest n e = rw e refl
take-length (b ∷ l) rest zero e = absurd (omega arith)
take-length (b ∷ l) rest (suc n) e = ap (λ r. b ∷ r) (take-length l rest n (omega arith))

drop-length : (l rest : Bytes) (n : ℕ) → n ≡ length l + 1 → drop n (l ++ (10 ∷ rest)) ≡ rest
drop-length [] rest n e = rw e refl
drop-length (b ∷ l) rest zero e = absurd (omega arith)
drop-length (b ∷ l) rest (suc n) e = drop-length l rest n (omega arith)

-- A read with room for the first complete line returns that line with its newline, and the console
-- holds the other lines.
pub take_ready-Holds :
    (most : ℕ) (con : Console) (l : Bytes) (ls : List Bytes) (current : Bytes)
    → Holds con (record { complete = l ∷ ls; current = current })
    → length l < most
    → ((take_ready most con).0 ≡ l ++ (10 ∷ []))
      × Holds (take_ready most con).1 (record { complete = ls; current = current })
unfolding take_ready
take_ready-Holds most con l ls current h room =
    let len : line_len con.ready ≡ length l + 1 =
      rw h.ready (line_len-append l (unlines ls) h.lines.0) in
    let n : min most (line_len con.ready) ≡ length l + 1 = omega (arith, len) in
    (
      ap (λ r. take (min most (line_len con.ready)) r) h.ready
          ∙ take-length l (unlines ls) (min most (line_len con.ready)) n,
      record {
        ready =
            ap (λ r. drop (min most (line_len con.ready)) r) h.ready
            ∙ drop-length l (unlines ls) (min most (line_len con.ready)) n;
        line = h.line;
        lines = h.lines.1;
        current = h.current;
      },
    )

-- A line that was taken and could not be given to the reader is put back: the console is as before.
pub unread-take_ready :
    (most : ℕ) (con : Console) → unread (take_ready most con).0 (take_ready most con).1 ≡ con
unfolding unread take_ready
unread-take_ready most con =
    ap (λ r. record con { ready = r }) (take-append-drop (min most (line_len con.ready)) con.ready)
