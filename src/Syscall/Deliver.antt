-- ===== src/Syscall/Deliver.antt =====
-- Which signal ret_from_syscall (kernel/system_call.s) delivers.
use Prim.Native.Nat.{bit_and, bit_xor}
use native.Mathlib.Nat.{pow-suc}
use neu_os.Prelude.{
  ℕ, zero, suc, ◌+◌, ◌-◌, ◌/◌, ◌%◌, ◌^◌, ◌<◌, ◌≡◌, refl, ◌≢◌, ◌∙◌, ap, true, Option, some, none, [],
  arith, ◌==◌, ◌||◌, not, inl, inr, Bool-cases, min, ne→==_false,
}
use neu_os.Prelude.Words.{minus_one}
use neu_os.Prelude.Bits.{bit, bit-le_one, bit-bit_and, bit-bit_xor, bit-pow_self, bit-pow_ne}
use neu_os.Task.{Task}
use neu_os.Mm.State.{Cmd, pure}
use neu_os.Signal.{Delivered, do_signal}
use neu_os.Fork.Copy.{Frame}
use neu_os.Syscall.Return.{regs_of, pending, bsf, take_signal, from_user, ret_from_syscall}

-- What bsf finds.
pub data Found (n i x : ℕ) : Option ℕ → Type 0 where
  nothing : ((j : ℕ) → j < n → bit j x ≡ 0) → Found n i x none
  lowest :
      {r : ℕ} (k : ℕ)
      → r ≡ i + k
      → k < n
      → bit k x ≡ 1
      → ((j : ℕ) → j < k → bit j x ≡ 0)
      → Found n i x (some r)

all_zero :
    (x k : ℕ)
    → x % 2 ≡ 0
    → ((j : ℕ) → j < k → bit j (x / 2) ≡ 0)
    → (j : ℕ) → j < suc k
    → bit j x ≡ 0
all_zero x k e z zero lt = e
all_zero x k e z (suc j) lt = z j (omega arith)

above : (n i x : ℕ) {o : Option ℕ} → x % 2 ≡ 0 → Found n (i + 1) (x / 2) o → Found (suc n) i x o
above n i x e (nothing z) = nothing (all_zero x n e z)
above n i x e (lowest k at lt one low) =
    lowest (suc k) (omega arith) (omega arith) one (all_zero x k e low)

bsf-Found : (n i x : ℕ) → Found n i x (bsf n i x)
unfolding bsf
bsf-Found zero i x = nothing (λ j lt. absurd (omega arith))
bsf-Found (suc n) i x = elim (Bool-cases (x % 2 == 1)) [
  | inl e ↦
      rw (bsf, e)
        (lowest 0 (omega arith) (omega arith) (ground arith) (λ j lt. absurd (omega arith)))
  | inr e ↦ rw (bsf, e) (above n i x (ground arith) (bsf-Found n (i + 1) (x / 2)))
]

pow_pos : (n : ℕ) → 0 < 2 ^ n
pow_pos zero = omega arith
pow_pos (suc n) = omega (arith, pow-suc 2 n, pow_pos n)

bit-ones : (j n : ℕ) → j < n → bit j (2 ^ n - 1) ≡ 1
bit-ones j zero lt = absurd (omega arith)
bit-ones zero (suc n) lt = omega (arith, pow-suc 2 n, pow_pos n)
bit-ones (suc j) (suc n) lt =
    ap (bit j) (omega (arith, pow-suc 2 n, pow_pos n)) ∙ bit-ones j n (omega arith)

bit-minus_one : (j : ℕ) → j < 32 → bit j minus_one ≡ 1
bit-minus_one j lt = bit-ones j 32 lt

-- `a & ~b`, on the bits of a word.
bit-clear :
    (j a b : ℕ) → j < 32 → bit j (bit_and a (bit_xor b minus_one)) ≡ min (bit j a) (1 - bit j b)
bit-clear j a b lt = omega (
  arith,
  bit-bit_and j a (bit_xor b minus_one),
  bit-bit_xor j b minus_one,
  bit-minus_one j lt,
  bit-le_one j b,
)

bit-pending :
    (j : ℕ) (t : Task) → j < 32 → bit j (pending t) ≡ min (bit j t.signal) (1 - bit j t.blocked)
bit-pending j t lt = bit-clear j t.signal t.blocked lt

-- Signal `j + 1` waits and is not blocked.
abbrev pub Ready : ℕ → Task → Type 0
Ready j t = (bit j t.signal ≡ 1) × (bit j t.blocked ≡ 0)

-- The task `t'` is `t`, but that signal `k + 1` no longer waits.
pub record Taken (k : ℕ) (t t' : Task) : Type 0 where
  pub gone : bit k t'.signal ≡ 0
  pub others : (j : ℕ) → j < 32 → j ≢ k → bit j t'.signal ≡ bit j t.signal
  pub same : t' ≡ record t { signal = t'.signal }

take_signal-Taken : (k : ℕ) (t : Task) → k < 32 → Taken k t (take_signal k t)
unfolding take_signal
take_signal-Taken k t lt = record {
  gone = omega (arith, bit-clear k t.signal (2 ^ k) lt, bit-pow_self k);
  others = λ j small ne.
      omega (arith, bit-clear j t.signal (2 ^ k) small, bit-pow_ne j k ne, bit-le_one j t.signal);
  same = refl;
}

-- How ret_from_syscall leaves the current task `t` for user mode.
pub data Returned (eax : ℕ) (f : Frame) (t : Task) (d : Cmd Delivered) : Type 0 where
  quiet :
      ((j : ℕ) → j < 32 → ¬ Ready j t)
      → d ≡ pure (record { task = t; regs = regs_of eax f; stack = [] })
      → Returned eax f t d
  signalled :
      {t' : Task} (k : ℕ)
      → k < 32
      → Ready k t
      → ((j : ℕ) → j < k → ¬ Ready j t)
      → Taken k t t'
      → d ≡ do_signal (k + 1) t' (regs_of eax f)
      → Returned eax f t d

not_ready : (j : ℕ) (t : Task) → j < 32 → bit j (pending t) ≡ 0 → ¬ Ready j t
not_ready j t lt off r = omega (arith, bit-pending j t lt, r.0, r.1)

ready : (j : ℕ) (t : Task) → j < 32 → bit j (pending t) ≡ 1 → Ready j t
ready j t lt on =
    let here = bit-pending j t lt in
    (omega (arith, here, bit-le_one j t.signal), omega (arith, here))

-- The dispatch on the result of bsf.
module _ (eax : ℕ) (f : Frame) (t : Task) where
  after_bsf :
      {o : Option ℕ}
      → Found 32 0 (pending t) o
      → Returned eax f t (elim o [
        | none ↦ pure (record { task = t; regs = regs_of eax f; stack = [] })
        | some i ↦ do_signal (i + 1) (take_signal i t) (regs_of eax f)
      ])
  after_bsf (nothing off) = quiet (λ j lt. not_ready j t lt (off j lt)) refl
  after_bsf (lowest {r} k at lt on low) =
      signalled k lt (ready k t lt on) (λ j less. not_ready j t (omega arith) (low j less))
        (take_signal-Taken k t lt)
        (ap (λ i. do_signal (i + 1) (take_signal i t) (regs_of eax f)) (omega arith))

-- On the way back to the user mode of a process other than task 0, ret_from_syscall delivers the lowest of the
-- signals 1 to 32 that wait and are not blocked, after it has ceased to wait, the others waiting as before; if
-- there is none, the process goes on with its registers as they were saved.
pub ret_from_syscall-Returned :
    (me eax : ℕ) (f : Frame) (t : Task)
    → me ≢ 0
    → from_user f ≡ true
    → Returned eax f t (ret_from_syscall me eax f t)
unfolding ret_from_syscall
ret_from_syscall-Returned me eax f t other user =
    rw (ret_from_syscall, ne→==_false me 0 other, user)
      (after_bsf eax f t (bsf-Found 32 0 (pending t)))

-- Task 0 and an interrupted kernel get no signal.
pub ret_from_syscall-passed :
    (me eax : ℕ) (f : Frame) (t : Task)
    → (me == 0) || not (from_user f) ≡ true
    → ret_from_syscall me eax f t ≡ pure (record { task = t; regs = regs_of eax f; stack = [] })
unfolding ret_from_syscall
ret_from_syscall-passed me eax f t e = rw (ret_from_syscall, e) refl
