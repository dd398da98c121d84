-- ===== src/Prelude/Bits.antt =====
-- Single bits of the native `bit_and`, `bit_or` and `bit_xor`, at every place.
use Prim.Native.Nat.{
  digits, bitwise, differ, bit_and, bit_or, bit_xor, bit_and-bitwise, bit_or-bitwise,
  bit_xor-bitwise,
}
use native.Mathlib.Nat.{pow-suc}
use neu_os.Prelude.{
  ℕ, zero, suc, ◌+◌, ◌-◌, ◌*◌, ◌/◌, ◌%◌, ◌^◌, ◌≤◌, ◌≡◌, refl, ◌≢◌, sym, ap, ◌∙◌, min, max, arith,
}

-- Bit `k` of `x`, lowest first: 0 or 1.
abbrev pub bit : ℕ → ℕ → ℕ
bit zero x = x % 2
bit (suc k) x = bit k (x / 2)

pub bit-zero : (k : ℕ) → bit k 0 ≡ 0
bit-zero zero = refl
bit-zero (suc k) = bit-zero k

pub bit-le_one : (k x : ℕ) → bit k x ≤ 1
bit-le_one zero x = omega arith
bit-le_one (suc k) x = bit-le_one k (x / 2)

-- A number with a bit set is not 0.
pub ne_zero_of_bit : (k x : ℕ) → bit k x ≡ 1 → x ≢ 0
ne_zero_of_bit k x h e = omega (arith, bit-zero k, ap (bit k) e)

module _ (z : ℕ → ℕ) (f : ℕ → ℕ → ℕ) where
  digits_done : (n b : ℕ) → digits z f n 0 b ≡ z b
  digits_done zero b = refl
  digits_done (suc n) b = refl

  -- More digits to go than the first number has make no difference.
  digits_enough : (n m a b : ℕ) → a ≤ n → a ≤ m → digits z f n a b ≡ digits z f m a b
  digits_enough n m zero b p q = digits_done n b ∙ sym (digits_done m b)
  digits_enough zero m (suc a) b p q = absurd (omega arith)
  digits_enough (suc n) zero (suc a) b p q = absurd (omega arith)
  digits_enough (suc n) (suc m) (suc a) b p q =
      ap (λ t. t * 2 + f (suc a % 2) (b % 2))
        (digits_enough n m (suc a / 2) (b / 2) (omega arith) (omega arith))

  lowest :
      ((b : ℕ) → z b ≡ z (b / 2) * 2 + f 0 (b % 2))
      → (a b : ℕ) → bitwise z f a b ≡ bitwise z f (a / 2) (b / 2) * 2 + f (a % 2) (b % 2)
  lowest law zero b = law b
  lowest law (suc a) b =
      ap (λ t. t * 2 + f (suc a % 2) (b % 2))
        (digits_enough a (suc a / 2) (suc a / 2) (b / 2) (omega arith) (omega arith))

and_lowest : (a b : ℕ) → bit_and a b ≡ bit_and (a / 2) (b / 2) * 2 + min (a % 2) (b % 2)
and_lowest a b = simp bit_and-bitwise (lowest (λ y. 0) min (λ y. omega arith) a b)

or_lowest : (a b : ℕ) → bit_or a b ≡ bit_or (a / 2) (b / 2) * 2 + max (a % 2) (b % 2)
or_lowest a b = simp bit_or-bitwise (lowest (λ y. y) max (λ y. omega arith) a b)

differ-zero : (x : ℕ) → differ x 0 ≡ x
differ-zero zero = refl
differ-zero (suc x) = refl

xor_lowest : (a b : ℕ) → bit_xor a b ≡ bit_xor (a / 2) (b / 2) * 2 + differ (a % 2) (b % 2)
xor_lowest a b = simp bit_xor-bitwise (lowest (λ y. y) differ (λ y. omega arith) a b)

pub bit-bit_and : (k a b : ℕ) → bit k (bit_and a b) ≡ min (bit k a) (bit k b)
bit-bit_and zero a b = omega (arith, and_lowest a b)
bit-bit_and (suc k) a b = ap (bit k) (omega (arith, and_lowest a b)) ∙ bit-bit_and k (a / 2) (b / 2)

pub bit-bit_or : (k a b : ℕ) → bit k (bit_or a b) ≡ max (bit k a) (bit k b)
bit-bit_or zero a b = omega (arith, or_lowest a b)
bit-bit_or (suc k) a b = ap (bit k) (omega (arith, or_lowest a b)) ∙ bit-bit_or k (a / 2) (b / 2)

differ-le_one : (x y : ℕ) → x ≤ 1 → y ≤ 1 → (differ x y ≡ max x y - min x y) × (differ x y ≤ 1)
differ-le_one zero y p q = omega arith
differ-le_one (suc zero) zero p q = omega arith
differ-le_one (suc zero) (suc zero) p q = omega arith
differ-le_one (suc zero) (suc (suc y)) p q = absurd (omega arith)
differ-le_one (suc (suc x)) y p q = absurd (omega arith)

pub bit-bit_xor :
    (k a b : ℕ) → bit k (bit_xor a b) ≡ max (bit k a) (bit k b) - min (bit k a) (bit k b)
bit-bit_xor zero a b =
    omega (arith, xor_lowest a b, differ-le_one (a % 2) (b % 2) (omega arith) (omega arith))
bit-bit_xor (suc k) a b =
    ap (bit k)
      (omega (arith, xor_lowest a b, differ-le_one (a % 2) (b % 2) (omega arith) (omega arith)))
    ∙ bit-bit_xor k (a / 2) (b / 2)

zero_of_bits_below : (n x : ℕ) → x ≤ n → ((k : ℕ) → bit k x ≡ 0) → x ≡ 0
zero_of_bits_below n zero le h = refl
zero_of_bits_below zero (suc x) le h = absurd (omega arith)
zero_of_bits_below (suc n) (suc x) le h =
    omega (arith, h 0, zero_of_bits_below n (suc x / 2) (omega arith) (λ k. h (suc k)))

-- A number with no bit set is 0.
pub zero_of_bits : (x : ℕ) → ((k : ℕ) → bit k x ≡ 0) → x ≡ 0
zero_of_bits x h = zero_of_bits_below x x (omega arith) h

pub bit-pow_self : (k : ℕ) → bit k (2 ^ k) ≡ 1
bit-pow_self zero = refl
bit-pow_self (suc k) = ap (bit k) (omega (arith, pow-suc 2 k)) ∙ bit-pow_self k

pub bit-pow_ne : (j k : ℕ) → j ≢ k → bit j (2 ^ k) ≡ 0
bit-pow_ne zero zero ne = absurd (ne refl)
bit-pow_ne zero (suc k) ne = omega (arith, pow-suc 2 k)
bit-pow_ne (suc j) zero ne = bit-zero j
bit-pow_ne (suc j) (suc k) ne =
    ap (bit j) (omega (arith, pow-suc 2 k)) ∙ bit-pow_ne j k (λ e. ne (ap suc e))
