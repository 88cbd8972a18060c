-- ===== src/Prelude/Outcome.antt =====
-- `Result`, and state passing with failure.
use mathlib.Core.Path.{◌≡◌, refl}
use native.Mathlib.Omega.{arith}
use mathlib.Core.Logic.{◌⊎◌, inl, inr}
use mathlib.Core.Option.{Option, none, some}

pub data Result {ℓ κ} (E : Type ℓ) (A : Type κ) : Type (ℓ ⊔ κ) where
  ok : A → Result E A
  err : E → Result E A

-- Code that reads and writes a state `S` and may fail: the state survives the failure.
abbrev pub M : Type 0 → Type 0 → Type 0 → Type 0
M S E A = S → Result E A × S

abbrev pub pure : {S E A : Type 0} → A → M S E A
pure a s = (ok a, s)

abbrev pub throw : {S E A : Type 0} → E → M S E A
throw e s = (err e, s)

abbrev pub after : {S E A B : Type 0} → Result E A → S → (A → M S E B) → Result E B × S
after (ok a) s f = f a s
after (err e) s f = (err e, s)

infixl 5 ◌>>=◌ ◌>>◌
abbrev pub ◌>>=◌ : {S E A B : Type 0} → M S E A → (A → M S E B) → M S E B
◌>>=◌ m f s = let (r, s') = m s in after r s' f

abbrev pub ◌>>◌ : {S E B : Type 0} → M S E (Unit {0}) → M S E B → M S E B
m >> k = m >>= λ _. k

-- `ok_or`
abbrev pub ok_or : {S E A : Type 0} → Option A → E → M S E A
ok_or none e s = (err e, s)
ok_or (some a) e s = (ok a, s)

-- A chain that succeeds has a first part that succeeds.
pub >>=-ok :
    {S E A B : Type 0} (m : M S E A) (f : A → M S E B) (s : S) {b : B} {s' : S}
    → (m >>= f) s ≡ (ok b, s')
    → (a : A) × (t : S) × (m s ≡ (ok a, t)) × (f a t ≡ (ok b, s'))
>>=-ok {S} {E} {A} {B} m f s {b} {s'} h = go (m s).0 (m s).1 refl h
  where
    go :
        (r : Result E A) (t : S)
        → m s ≡ (r, t)
        → after r t f ≡ (ok b, s')
        → (a : A) × (u : S) × (m s ≡ (ok a, u)) × (f a u ≡ (ok b, s'))
    go (ok a) t e k = (a, t, e, k)
    go (err x) t e k = absurd (ground arith)

pub Result-cases :
    {E A : Type 0} (r : Result E A) → ((a : A) × (r ≡ ok a)) ⊎ ((e : E) × (r ≡ err e))
Result-cases (ok a) = inl (a, refl)
Result-cases (err e) = inr (e, refl)
