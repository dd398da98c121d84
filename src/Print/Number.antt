-- ===== src/Print/Number.antt =====
-- _sprintnum of kernel/vsprintf.c prints a number that its digits give back.
use native.Mathlib.Nat.{pow-suc}
use neu_os.Prelude.{
  ℕ, zero, suc, ◌+◌, ◌-◌, ◌*◌, ◌/◌, ◌%◌, ◌^◌, ◌<◌, ◌≡◌, refl, ◌≢◌, ◌∙◌, ap, true, some, List, [],
  ◌∷◌, arith, ne→==_false, ltb, if◌then◌else◌,
}
use neu_os.Prelude.Words.{sub32, slt}
use neu_os.Print.{digit, digit_loop, reversed, sprintnum}

-- What a digit stands for, and the number that digits stand for, highest first, after `n`.
abbrev pub digit_value : ℕ → ℕ
digit_value c = if ltb c 58 then c - 48 else c - 55

abbrev pub parse : ℕ → ℕ → List ℕ → ℕ
parse base n [] = n
parse base n (c ∷ cs) = parse base (n * base + digit_value c) cs

-- The number that digits stand for, lowest first.
abbrev pub low_first : ℕ → List ℕ → ℕ
low_first base [] = 0
low_first base (c ∷ cs) = digit_value c + base * low_first base cs

digit_loop-ten :
    (r num : ℕ)
    → num < 2 ^ 31
    → num < 2 ^ r
    → (ds : List ℕ) × (digit_loop (suc r) 10 num ≡ some ds) × (low_first 10 ds ≡ num)
unfolding digit_loop
digit_loop-ten r zero small h = ([], refl, refl)
digit_loop-ten zero (suc n) small h = absurd (omega arith)
digit_loop-ten (suc r) (suc n) small h =
    let (ds, run, value) =
      digit_loop-ten r (suc n / 10) (omega arith) (omega (arith, pow-suc 2 r)) in
    (digit (suc n % 10) ∷ ds, ground (arith, run), ground (arith, value))

pub parse-reversed :
    (ds out : List ℕ) → parse 10 0 (reversed ds out) ≡ parse 10 (low_first 10 ds) out
unfolding reversed
parse-reversed [] out = refl
parse-reversed (d ∷ ds) out = parse-reversed ds (d ∷ out) ∙ ap (λ n. parse 10 n out) (omega arith)

magnitude-text :
    (r num : ℕ)
    → num < 2 ^ 31
    → num < 2 ^ r
    → num ≢ 0
    → (ds : List ℕ) × (digit_loop (suc r) 10 num ≡ some ds) × (parse 10 0 (reversed ds []) ≡ num)
magnitude-text r num small h nz =
    let (ds, run, value) = digit_loop-ten r num small h in (ds, run, parse-reversed ds [] ∙ value)

-- `%d` prints a positive number below 2 ^ r, within r + 1 rounds, as digits that denote it, and a
-- negative one as `-` and the digits of its magnitude. The magnitude is below 2 ^ 31.
pub sprintnum-parse :
    (r num : ℕ)
    → num ≢ 0
    → num < 2 ^ 31
    → num < 2 ^ r
    → (text : List ℕ) × (sprintnum (suc r) num 10 true ≡ some text)
      × (sprintnum (suc r) (2 ^ 32 - num) 10 true ≡ some (45 ∷ text))
      × (parse 10 0 text ≡ num)
unfolding sprintnum
sprintnum-parse r num nz small h =
    let (ds, run, value) = magnitude-text r num small h nz in
    let back : sub32 0 (2 ^ 32 - num) ≡ num = omega arith in
    let below : slt (2 ^ 32 - num) 0 ≡ true = ground arith in
    (
      reversed ds [],
      ground (arith, run),
      rw (below, back, ne→==_false num 0 nz, run) (rw below refl),
      value,
    )
