-- ===== src/Print.antt =====
-- Formatted printing, kernel/vsprintf.c. The characters written are the result; the arguments that the
-- caller passes are a list, and none stands for an argument that is missing or of another kind, or for a
-- digit read outside of `digits`.
pub mod Number
pub mod Hex
pub mod Serial
mod Examples
use neu_os.Prelude.{
  ℕ, zero, suc, ◌+◌, ◌-◌, ◌/◌, ◌%◌, Bool, true, false, ◌&&◌, Option, none, some, List, [], ◌∷◌,
  ◌++◌, ltb, ◌==◌, if◌then◌else◌,
}
use neu_os.Prelude.Words.{sub32, slt}

-- `digits[d]`
abbrev pub digit : ℕ → ℕ
digit d = if ltb d 10 then 48 + d else 55 + d

-- `while(num)` of _sprintnum: the digits in `buf`, lowest first. A negative `num` has a remainder that
-- is not positive. None when the rounds run out, and for a digit read before `digits`.
unfoldable pub digit_loop : ℕ → ℕ → ℕ → Option (List ℕ)
digit_loop zero base num = none
digit_loop (suc rounds) base num =
    let size = if slt num 0 then sub32 0 num else num in
    let next = if slt num 0 then sub32 0 (size / base) else num / base in
    let rest = digit_loop rounds base next in
    if num == 0
    then some []
    else if slt num 0 && ltb 0 (size % base)
    then none
    else elim rest [ none ↦ none | some ds ↦ some (digit (size % base) ∷ ds) ]

-- The second loop, from the last digit down.
unfoldable pub reversed : List ℕ → List ℕ → List ℕ
reversed [] out = out
reversed (d ∷ ds) out = reversed ds (d ∷ out)

unfoldable pub sprintnum : ℕ → ℕ → ℕ → Bool → Option (List ℕ)
sprintnum rounds num base sign =
    let negative = sign && slt num 0 in
    let num' = if negative then sub32 0 num else num in
    let head = if negative then 45 ∷ [] else [] in
    if num' == 0 then some (head ++ 48 ∷ []) else elim (digit_loop rounds base num') [
      | none ↦ none
      | some ds ↦ some (head ++ reversed ds [])
    ]

pub data Arg : Type 0 where
  int char : ℕ → Arg
  string : List ℕ → Arg

abbrev pub with_text : Option (List ℕ) → Option (List ℕ) → Option (List ℕ)
with_text (some s) (some rest) = some (s ++ rest)
with_text _ _ = none

-- The text of one conversion, and the arguments left.
unfoldable pub convert : ℕ → ℕ → List Arg → Option (List ℕ) × List Arg
convert rounds c (int n ∷ args) =
    if c == 100
    then (sprintnum rounds n 10 true, args)
    else if c == 117
    then (sprintnum rounds n 10 false, args)
    else if c == 120
    then (sprintnum rounds n 16 false, args)
    else if (c == 115)
    then (none, args)
    else if c == 99
    then (none, args)
    else if c == 37
    then (some (37 ∷ []), int n ∷ args)
    else (some [], int n ∷ args)
convert rounds c (string s ∷ args) =
    if c == 115
    then (some s, args)
    else if (c == 100)
    then (none, args)
    else if c == 117
    then (none, args)
    else if c == 120
    then (none, args)
    else if c == 99
    then (none, args)
    else if c == 37
    then (some (37 ∷ []), string s ∷ args)
    else (some [], string s ∷ args)
convert rounds c (char ch ∷ args) =
    if c == 99
    then (some (ch ∷ []), args)
    else if c == 100
    then (none, args)
    else if c == 117
    then (none, args)
    else if c == 120
    then (none, args)
    else if c == 115
    then (none, args)
    else if c == 37
    then (some (37 ∷ []), char ch ∷ args)
    else (some [], char ch ∷ args)
convert rounds c [] =
    if c == 37
    then (some (37 ∷ []), [])
    else if (c == 100)
    then (none, [])
    else if c == 117
    then (none, [])
    else if c == 120
    then (none, [])
    else if c == 115
    then (none, [])
    else if c == 99
    then (none, [])
    else (some [], [])

-- vsprintf on a format and its arguments; the 0 that ends the format is the end of the list.
unfoldable pub vsprintf : ℕ → List ℕ → List Arg → Option (List ℕ)
vsprintf rounds [] args = some []
vsprintf rounds (c ∷ []) args = if c == 37 then some [] else some (c ∷ [])
vsprintf rounds (c ∷ d ∷ fmt) args =
    let (text, left) = convert rounds d args in
    let plain = vsprintf rounds (d ∷ fmt) args in
    let after = vsprintf rounds fmt left in
    if c == 37 then with_text text after else with_text (some (c ∷ [])) plain
