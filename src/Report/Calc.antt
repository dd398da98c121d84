-- ===== src/Report/Calc.antt =====
-- calc_mem (mm/memory.c) always gets its whole report out.
use neu_os.Prelude.{
  ℕ, Bool, sym, ap, ap₂, ◌∙◌, ◌==◌, if◌then◌else◌, zero, suc, ◌+◌, ◌*◌, ◌/◌, ◌%◌, ◌^◌, ◌≤◌, ◌<◌,
  ◌≡◌, refl, true, false, some, List, [], ◌∷◌, ◌++◌, arith, length, length-append, inl, inr,
  Bool-cases, ℕ-cases, ne→==_false,
}
use native.Mathlib.Nat.{pow-suc}
use neu_os.Prelude.Words.{slt}
use neu_os.Mm.State.{Mm, paging_pages, frame, present}
use neu_os.Mm.Page.{count_free}
use neu_os.Print.{int, vsprintf, convert, sprintnum, digit, digit_loop, reversed}
use neu_os.Print.Number.{parse, low_first, parse-reversed}
use neu_os.Tty.Queue.Contents.{IsValid, contents}
use neu_os.Tty.Line.{Terminal}
use neu_os.Tty.Text.Lines.{codes, Texts, all_text, Shown, print_lines-Shown}
use neu_os.Report.{count_present, dir_lines, calc_lines, calc_mem}

count_present-le : (n a : ℕ) (phys : ℕ → ℕ) → count_present n a phys ≤ n
unfolding count_present
count_present-le zero a phys = omega arith
count_present-le (suc n) a phys = ground (arith, count_present-le n (a + 4) phys)

count_free-le : (n : ℕ) (map : ℕ → ℕ) → count_free n map ≤ n
unfolding count_free
count_free-le zero map = omega arith
count_free-le (suc n) map = ground (arith, count_free-le n map)

-- A number below 2 ^ 13 has at most 13 decimal digits.
digits_small :
    (r num : ℕ)
    → num < 2 ^ 13
    → num < 2 ^ r
    → (ds : List ℕ) × (digit_loop (suc r) 10 num ≡ some ds)
      × (low_first 10 ds ≡ num)
      × (length ds ≤ r)
unfolding digit_loop
digits_small r zero small h = ([], refl, refl, omega arith)
digits_small zero (suc n) small h = absurd (omega arith)
digits_small (suc r) (suc n) small h =
    let (ds, run, value, size) =
      digits_small r (suc n / 10) (omega arith) (omega (arith, pow-suc 2 r)) in
    (digit (suc n % 10) ∷ ds, ground (arith, run), ground (arith, value), omega (arith, size))

length-reversed : (ds out : List ℕ) → length (reversed ds out) ≡ length ds + length out
unfolding reversed
length-reversed [] out = omega arith
length-reversed (d ∷ ds) out = omega (arith, length-reversed ds (d ∷ out))

-- The decimal digits of a number: they denote it.
abbrev pub Decimal : ℕ → List ℕ → Type 0
Decimal n x = parse 10 0 x ≡ n

-- What `%d` prints for it, at most 14 of them.
abbrev Digits : ℕ → List ℕ → Type 0
Digits n x = (sprintnum 14 n 10 true ≡ some x) × (length x ≤ 14) × Decimal n x

decimal : (n : ℕ) → n < 2 ^ 13 → (x : List ℕ) × Digits n x
unfolding sprintnum
decimal n small = elim (ℕ-cases n 0) [
  | inl e ↦ (48 ∷ [], (rw e refl, omega arith, sym e))
  | inr nz ↦
      let (ds, run, value, size) = digits_small 13 n small small in
      let plus : slt n 0 ≡ false = ground arith in
      (
        reversed ds [],
        (
          rw (plus, ne→==_false n 0 nz, run) (rw plus refl),
          omega (arith, length-reversed ds [], size),
          parse-reversed ds [] ∙ value,
        ),
      )
]

-- The lines of the report, from their numbers' digits.
abbrev pub free_line : List ℕ → List ℕ → List ℕ
free_line x y = x ++ (codes " pages free (of " ++ (y ++ codes " in total)\n"))

abbrev pub dir_line : List ℕ → List ℕ → List ℕ
dir_line x y = codes "PageDir[" ++ (x ++ (codes "] uses " ++ (y ++ codes " pages\n")))

-- A format with two numbers has this text, which fits into the buffer of printk.
abbrev Fits : List ℕ → ℕ → ℕ → List ℕ → Type 0
Fits fmt a b x = (vsprintf 14 fmt (int a ∷ int b ∷ []) ≡ some x) × (length x < 1024)

dir_text :
    (a b : ℕ) {x y : List ℕ}
    → Digits a x
    → Digits b y
    → Fits (codes "PageDir[%d] uses %d pages\n") a b (dir_line x y)
unfolding vsprintf convert
dir_text a b {x} {y} p q =
    let tail : List ℕ = codes "] uses " ++ (y ++ codes " pages\n") in
    (
      rw (p.0, q.0) refl,
      omega (arith, length-append x tail, length-append y (codes " pages\n"), p.1, q.1),
    )

free_text :
    (a b : ℕ) {x y : List ℕ}
    → Digits a x
    → Digits b y
    → Fits (codes "%d pages free (of %d in total)\n") a b (free_line x y)
unfolding vsprintf convert
free_text a b {x} {y} p q =
    let tail : List ℕ = codes " pages free (of " ++ (y ++ codes " in total)\n") in
    (
      rw (p.0, q.0) refl,
      omega (arith, length-append x tail, length-append y (codes " in total)\n"), p.1, q.1),
    )

-- How many of the numbers below `n` pass the test.
abbrev pub tally : (ℕ → Bool) → ℕ → ℕ
tally p zero = 0
tally p (suc n) = (if p n then 1 else 0) + tally p n

tally_first :
    (p : ℕ → Bool) (n : ℕ) → tally p (suc n) ≡ (if p 0 then 1 else 0) + tally (λ k. p (suc k)) n
tally_first p zero = refl
tally_first p (suc n) = omega (arith, tally_first p n)

tally_same : (p q : ℕ → Bool) (n : ℕ) → ((k : ℕ) → p k ≡ q k) → tally p n ≡ tally q n
tally_same p q zero same = refl
tally_same p q (suc n) same =
    ap₂ (λ (b : Bool) s. (if b then 1 else 0) + s) (same n) (tally_same p q n same)

-- The number of free pages, and the number of present entries of the table that a directory entry names.
abbrev pub free_pages : Mm → ℕ
free_pages m = tally (λ i. m.mem_map i == 0) paging_pages

abbrev pub present_entries : (ℕ → ℕ) → ℕ → ℕ
present_entries phys pde = tally (λ k. present (phys (frame pde + 4 * k))) 1024

count_free-tally : (n : ℕ) (map : ℕ → ℕ) → count_free n map ≡ tally (λ i. map i == 0) n
unfolding count_free
count_free-tally zero map = refl
count_free-tally (suc n) map = ap (λ s. (if map n == 0 then 1 else 0) + s) (count_free-tally n map)

count_present-tally :
    (n a : ℕ) (phys : ℕ → ℕ) → count_present n a phys ≡ tally (λ k. present (phys (a + 4 * k))) n
unfolding count_present
count_present-tally zero a phys = refl
count_present-tally (suc n) a phys =
    ap₂ (λ (x s : ℕ). (if present (phys x) then 1 else 0) + s) {x = a} {y = a + 4 * 0} (omega arith)
      (count_present-tally n (a + 4) phys
        ∙ tally_same (λ k. present (phys (a + 4 + 4 * k))) (λ k. present (phys (a + 4 * suc k))) n
            (λ k. ap (λ x. present (phys x)) (omega arith)))
    ∙ sym (tally_first (λ k. present (phys (a + 4 * k))) n)

-- The lines on `n` entries of the page directory from the `i`-th on: one for each that is present, with its number
-- and the number of present entries of its table.
pub data DirReport (phys : ℕ → ℕ) : ℕ → ℕ → List (List ℕ) → Type 0 where
  finished : {i : ℕ} → DirReport phys 0 i []
  skipped :
      {n i : ℕ} {xs : List (List ℕ)}
      → present (phys (4 * i)) ≡ false
      → DirReport phys n (i + 1) xs
      → DirReport phys (suc n) i xs
  listed :
      {n i : ℕ} {xs : List (List ℕ)} (x y : List ℕ)
      → present (phys (4 * i)) ≡ true
      → Decimal i x
      → Decimal (present_entries phys (phys (4 * i))) y
      → DirReport phys n (i + 1) xs
      → DirReport phys (suc n) i (dir_line x y ∷ xs)

below : (a r : ℕ) → a < 1024 → 1024 ≤ r → a < r
below a r p q = omega arith

small : (a : ℕ) → a ≤ 1024 → a < 2 ^ 13
small a le = omega arith

below_sum : (i n : ℕ) → i + suc n ≤ 1024 → i ≤ 1024
below_sum i n le = omega arith

dir_lines-DirReport :
    (rounds n i : ℕ) (phys : ℕ → ℕ)
    → i + n ≤ 1024
    → 1024 ≤ rounds
    → (xs : List (List ℕ)) × Texts rounds 14 (dir_lines n i phys) xs × DirReport phys n i xs
unfolding dir_lines
dir_lines-DirReport rounds zero i phys le enough = ([], tt, finished)
dir_lines-DirReport rounds (suc n) i phys le enough =
    let (xs, rest, report) = dir_lines-DirReport rounds n (i + 1) phys (omega arith) enough in
    let used : ℕ = count_present 1024 (frame (phys (4 * i))) phys in
    let few : used ≤ 1024 = count_present-le 1024 (frame (phys (4 * i))) phys in
    let (x, x_ok) = decimal i (small i (below_sum i n le)) in
    let (y, y_ok) = decimal used (small used few) in
    let text = dir_text i used x_ok y_ok in
    elim (Bool-cases (present (phys (4 * i)))) [
      | inl e ↦ (
        dir_line x y ∷ xs,
        rw e (text.0, text.1, below (length (dir_line x y)) rounds text.1 enough, rest),
        listed x y e x_ok.2 (y_ok.2 ∙ count_present-tally 1024 (frame (phys (4 * i))) phys) report,
      )
      | inr e ↦ (xs, rw e rest, skipped e report)
    ]

-- calc_mem gets its whole report out, whatever the memory holds: if the write queue of the terminal is empty, a line
-- with the number of pages that have no user, of 3840, and one for each present entry of the page directory from
-- number 2 on, in order, with its number and the number of present entries of its table, come to the screen,
-- each up to its first 0. The numbers are in base 10.
pub calc_mem-Shown :
    (rounds : ℕ) (m : Mm) (t : Terminal)
    → 1024 ≤ rounds
    → IsValid t.write_q
    → contents t.write_q ≡ []
    → (x : List ℕ) × (y : List ℕ) × (xs : List (List ℕ)) × (t' : Terminal) × Decimal
        (free_pages m)
        x
      × Decimal 3840 y
      × DirReport m.phys 1022 2 xs
      × (calc_mem rounds 14 m t ≡ some t')
      × Shown (all_text (free_line x y ∷ xs)) t t'
unfolding calc_mem calc_lines
calc_mem-Shown rounds m t enough valid empty =
    let free : ℕ = count_free paging_pages m.mem_map in
    let few : free ≤ 3840 = count_free-le paging_pages m.mem_map in
    let (x, x_ok) = decimal free (omega arith) in
    let (y, y_ok) = decimal paging_pages (omega arith) in
    let text = free_text free paging_pages x_ok y_ok in
    let (xs, rest, report) = dir_lines-DirReport rounds 1022 2 m.phys (omega arith) enough in
    let texts : Texts rounds 14 (calc_lines m) (free_line x y ∷ xs) =
      (text.0, text.1, below (length (free_line x y)) rounds text.1 enough, rest) in
    let (t', run, shown) =
      print_lines-Shown rounds 14 (calc_lines m) (free_line x y ∷ xs) t texts valid empty in
    (x, y, xs, t', x_ok.2 ∙ count_free-tally paging_pages m.mem_map, y_ok.2, report, run, shown)
