-- ===== src/Print/Hex.antt =====
-- `%x` of kernel/vsprintf.c: _sprintnum in base 16.
use native.Mathlib.Nat.{pow-suc}
use neu_os.Prelude.{
  ℕ, zero, suc, ◌+◌, ◌/◌, ◌%◌, ◌^◌, ◌≤◌, ◌<◌, ◌≡◌, refl, ◌∙◌, ap, false, some, List, [], ◌∷◌, arith,
  ne→==_false, ℕ-cases, inl, inr, length,
}
use neu_os.Print.{digit, digit_loop, reversed, sprintnum}
use neu_os.Print.Number.{parse, low_first}

digit_loop-sixteen :
    (r num : ℕ)
    → num < 2 ^ 31
    → num < 2 ^ r
    → (ds : List ℕ) × (digit_loop (suc r) 16 num ≡ some ds)
      × (low_first 16 ds ≡ num)
      × (length ds ≤ r)
unfolding digit_loop
digit_loop-sixteen r zero small h = ([], refl, refl, omega arith)
digit_loop-sixteen zero (suc n) small h = absurd (omega arith)
digit_loop-sixteen (suc r) (suc n) small h =
    let (ds, run, value, size) =
      digit_loop-sixteen r (suc n / 16) (omega arith) (omega (arith, pow-suc 2 r)) in
    (digit (suc n % 16) ∷ ds, ground (arith, run), ground (arith, value), omega (arith, size))

parse-reversed : (ds out : List ℕ) → parse 16 0 (reversed ds out) ≡ parse 16 (low_first 16 ds) out
unfolding reversed
parse-reversed [] out = refl
parse-reversed (d ∷ ds) out = parse-reversed ds (d ∷ out) ∙ ap (λ n. parse 16 n out) (omega arith)

length-reversed : (ds out : List ℕ) → length (reversed ds out) ≡ length ds + length out
unfolding reversed
length-reversed [] out = omega arith
length-reversed (d ∷ ds) out = omega (arith, length-reversed ds (d ∷ out))

-- `%x` prints a number below 2 ^ r and 2 ^ 31, within r + 1 rounds, as at most r + 1 hexadecimal digits that
-- denote it.
pub sprintnum-parse_hex :
    (r num : ℕ)
    → num < 2 ^ 31
    → num < 2 ^ r
    → (text : List ℕ) × (sprintnum (suc r) num 16 false ≡ some text)
      × (parse 16 0 text ≡ num)
      × (length text ≤ suc r)
unfolding sprintnum
sprintnum-parse_hex r num small h = elim (ℕ-cases num 0) [
  | inl e ↦ (48 ∷ [], rw e refl, rw e refl, omega arith)
  | inr nz ↦
      let (ds, run, value, size) = digit_loop-sixteen r num small h in
      (
        reversed ds [],
        rw (ne→==_false num 0 nz, run) refl,
        parse-reversed ds [] ∙ value,
        omega (arith, length-reversed ds [], size),
      )
]
