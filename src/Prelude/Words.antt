-- ===== src/Prelude/Words.antt =====
-- Machine words. A `long`, `int` or `unsigned long` of the 32-bit target is its bit pattern, a
-- number below 2 ^ 32; a signed value is read from the pattern by two's complement.
use neu_os.Prelude.{ℕ, ◌+◌, ◌-◌, ◌/◌, ◌%◌, ◌^◌, Bool, ltb, if◌then◌else◌}

abbrev pub word_mod : ℕ
word_mod = 2 ^ 32

abbrev pub add32 : ℕ → ℕ → ℕ
add32 a b = (a + b) % word_mod

abbrev pub sub32 : ℕ → ℕ → ℕ
sub32 a b = (a + word_mod - b) % word_mod

-- Adding 2 ^ 31 maps the signed order of patterns to the unsigned one.
abbrev pub rank : ℕ → ℕ
rank a = (a + 2 ^ 31) % word_mod

-- Signed `<`.
abbrev pub slt : ℕ → ℕ → Bool
slt a b = ltb (rank a) (rank b)

-- `-1`
abbrev pub minus_one : ℕ
minus_one = 0xffff_ffff

-- Signed `a >> 1`, which keeps the sign bit.
abbrev pub sar1 : ℕ → ℕ
sar1 a = if ltb a (2 ^ 31) then a / 2 else a / 2 + 2 ^ 31
