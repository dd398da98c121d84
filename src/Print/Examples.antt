-- ===== src/Print/Examples.antt =====
-- The numbers 407 and -407.
use neu_os.Prelude.{ℕ, ◌-◌, ◌^◌, ◌≡◌, true, some, List, ◌∷◌, arith}
use neu_os.Print.{sprintnum}
use neu_os.Print.Number.{parse, sprintnum-parse}

sprintnum-parse_example :
    (text : List ℕ) × (sprintnum 10 407 10 true ≡ some text)
    × (sprintnum 10 (2 ^ 32 - 407) 10 true ≡ some (45 ∷ text))
    × (parse 10 0 text ≡ 407)
sprintnum-parse_example = sprintnum-parse 9 407 (omega arith) (omega arith) (omega arith)
