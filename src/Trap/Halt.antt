-- ===== src/Trap/Halt.antt =====
-- A fatal exception (die, kernel/traps.c) prints what it has to say and stops the kernel.
use neu_os.Prelude.{ℕ, ◌+◌, ◌%◌, ◌^◌, ◌≤◌, ◌<◌, ◌≡◌, false, some, List, [], ◌∷◌, ◌++◌, length}
use neu_os.Print.{Arg, vsprintf, sprintnum}
use neu_os.Print.Number.{parse}
use neu_os.Tty.Text.Lines.{codes}
use neu_os.Trap.{Machine, word}

-- A text from its parts, and its length.
abbrev joined : List (List ℕ) → List ℕ
joined [] = []
joined (x ∷ xs) = x ++ joined xs

abbrev total : List (List ℕ) → ℕ
total [] = 0
total (x ∷ xs) = length x + total xs

-- The hexadecimal digits of a number: they denote it.
abbrev pub Hex : ℕ → List ℕ → Type 0
Hex n x = parse 16 0 x ≡ n

-- What `%x` prints for it, at most 32 of them.
abbrev Digits : ℕ → List ℕ → Type 0
Digits n x = (sprintnum 32 n 16 false ≡ some x) × (length x ≤ 32) × Hex n x

-- The words that die prints are not negative.
pub record Printable (esp : ℕ) (m : Machine) : Type 0 where
  pub words : (i : ℕ) → i < 5 → word m.phys esp i < 2 ^ 31
  pub base : m.code_base < 2 ^ 31
  pub limit : m.limit < 2 ^ 31

-- A text that printk has room for.
abbrev Fits : List ℕ → List Arg → List ℕ → Type 0
Fits fmt args x = (vsprintf 32 fmt args ≡ some x) × (length x < 1024)

-- The digits that the lines of die have.
pub record Parts : Type 0 where
  pub number : List ℕ
  pub cs : List ℕ
  pub eip : List ℕ
  pub eflags : List ℕ
  pub ss : List ℕ
  pub sp : List ℕ
  pub base : List ℕ
  pub limit : List ℕ

-- The four lines.
abbrev pub die_texts : List ℕ → Parts → List (List ℕ)
die_texts str p =
    joined (str ∷ codes ": " ∷ p.number ∷ codes "\n" ∷ [])
    ∷ joined (
        codes "EIP: 0x"
        ∷ p.cs
        ∷ codes ":0x"
        ∷ p.eip
        ∷ codes "\n EFLAGS: 0x"
        ∷ p.eflags
        ∷ codes "\n ESP 0x"
        ∷ p.ss
        ∷ codes ":0x"
        ∷ p.sp
        ∷ codes "\n"
        ∷ [])
    ∷ joined (codes "base 0x" ∷ p.base ∷ codes ", limit 0x" ∷ p.limit ∷ codes "\n" ∷ [])
    ∷ codes "No Process now, System HALT!   :(\n"
    ∷ []

-- They denote the low half of the error number, the five words that the processor has pushed, from `esp` up eip, cs,
-- eflags, esp and ss, and the base and the limit of the code segment.
pub record Denotes (m : Machine) (esp nr : ℕ) (p : Parts) : Type 0 where
  pub number : Hex (nr % 2 ^ 16) p.number
  pub eip : Hex (m.phys esp) p.eip
  pub cs : Hex (m.phys (esp + 4)) p.cs
  pub eflags : Hex (m.phys (esp + 8)) p.eflags
  pub sp : Hex (m.phys (esp + 12)) p.sp
  pub ss : Hex (m.phys (esp + 16)) p.ss
  pub base : Hex m.code_base p.base
  pub limit : Hex m.limit p.limit
