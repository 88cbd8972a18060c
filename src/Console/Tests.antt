-- ===== src/Console/Tests.antt =====
-- Runs of the line discipline, and the theorems on them.
use ferros.Prelude.{ℕ, ◌≡◌, refl, List, [], ◌∷◌, arith}
use ferros.Console.{init, edit, take_ready}
use ferros.Console.Typed.{typed}
use ferros.Console.Lines.{Holds, edit_all, edit_all-Holds-init, take_ready-Holds}

-- "lx", backspace, "s", Enter, "p".
abbrev keys : List ℕ
keys = 108 ∷ 120 ∷ 8 ∷ 115 ∷ 13 ∷ 112 ∷ []

typed_ls : edit_all keys init ≡ record { line = 112 ∷ []; ready = 108 ∷ 115 ∷ 10 ∷ [] }
unfolding edit init
typed_ls = refl

edit_all-Holds-init_example : Holds (edit_all keys init) (typed keys)
edit_all-Holds-init_example = edit_all-Holds-init keys

take_ready-Holds_example :
    ((take_ready 80 (edit_all keys init)).0 ≡ 108 ∷ 115 ∷ 10 ∷ [])
    × Holds (take_ready 80 (edit_all keys init)).1 (record { complete = []; current = 112 ∷ [] })
take_ready-Holds_example =
    take_ready-Holds 80 (edit_all keys init) (108 ∷ 115 ∷ []) [] (112 ∷ [])
      (edit_all-Holds-init keys) (omega arith)
