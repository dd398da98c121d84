-- ===== src/Syscall/Return.antt =====
-- ret_from_syscall of kernel/system_call.s: the signal that a process gets on its way back to user mode.
use Prim.Native.Nat.{bit_and, bit_xor}
use neu_os.Prelude.{
  ℕ, zero, suc, ◌+◌, ◌/◌, ◌%◌, ◌^◌, Bool, ◌&&◌, Option, some, none, [], ◌==◌, ◌||◌, not,
  if◌then◌else◌,
}
use neu_os.Prelude.Words.{minus_one}
use neu_os.Task.{Task}
use neu_os.Mm.State.{Cmd, pure}
use neu_os.Signal.{Regs, Delivered, do_signal}
use neu_os.Fork.Copy.{Frame}

-- What system_call and timer_interrupt have saved, with the result `eax`.
abbrev pub regs_of : ℕ → Frame → Regs
regs_of eax f = record {
  eax = eax;
  ecx = f.ecx;
  edx = f.edx;
  eip = f.eip;
  eflags = f.eflags;
  esp = f.esp;
}

-- `signal & ~blocked`
abbrev pub pending : Task → ℕ
pending t = bit_and t.signal (bit_xor t.blocked minus_one)

-- `bsfl`: the lowest of the `n` bits from bit `i` on that is set in `x`, which starts with bit `i`.
unfoldable pub bsf : ℕ → ℕ → ℕ → Option ℕ
bsf zero i x = none
bsf (suc n) i x = let rest = bsf n (i + 1) (x / 2) in if x % 2 == 1 then some i else rest

-- `btrl`, stored to the task.
unfoldable pub take_signal : ℕ → Task → Task
take_signal i t = record t { signal = bit_and t.signal (bit_xor (2 ^ i) minus_one) }

-- The system call or the interrupt has come from the user mode of a process.
abbrev pub from_user : Frame → Bool
from_user f = (f.cs % 2 ^ 16 == 0x0f) && (f.ss % 2 ^ 16 == 0x17)

-- `me` is the number of the current task, 0 for `task`.
unfoldable pub ret_from_syscall : ℕ → ℕ → Frame → Task → Cmd Delivered
unfolding bsf take_signal
ret_from_syscall me eax f t =
    if me == 0 || not (from_user f)
    then pure (record { task = t; regs = regs_of eax f; stack = [] })
    else elim (bsf 32 0 (pending t)) [
      | none ↦ pure (record { task = t; regs = regs_of eax f; stack = [] })
      | some i ↦ do_signal (i + 1) (take_signal i t) (regs_of eax f)
    ]
