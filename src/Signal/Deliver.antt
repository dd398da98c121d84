-- ===== src/Signal/Deliver.antt =====
-- do_signal of kernel/signal.c builds the frame that the restorer of kernel/libc_restore.s undoes.
use Prim.Native.Nat.{bit_and, bit_or}
use neu_os.Prelude.{
  ℕ, zero, suc, ◌+◌, ◌-◌, ◌*◌, ◌≡◌, ◌≢◌, Bool, true, false, Option, some, none, List, [], ◌∷◌, ◌==◌,
  map,
}
use neu_os.Task.{Task, Sigaction}
use neu_os.Signal.{Regs, Delivered, longs, sa_nomask}

-- What the restorer pops when the handler has returned to it: `addl $4, %esp` passes a word by; then
-- eax, ecx, edx, eflags and the return address.
abbrev pub pop_regs : List ℕ → Option (List ℕ)
pop_regs (eax ∷ ecx ∷ edx ∷ eflags ∷ eip ∷ rest) = some (eax ∷ ecx ∷ edx ∷ eflags ∷ eip ∷ [])
pop_regs other = none

-- __masksig_restore passes by the signal number and the mask, __sig_restore the signal number.
abbrev pub restore : Bool → List ℕ → Option (List ℕ)
restore true (restorer ∷ signr ∷ mask ∷ rest) = pop_regs rest
restore false (restorer ∷ signr ∷ rest) = pop_regs rest
restore _ _ = none

-- The addresses of `n` words from `p` up.
abbrev pub addresses : ℕ → ℕ → List ℕ
addresses p zero = []
addresses p (suc n) = p ∷ addresses (p + 4) n

abbrev pub HasHandler : Sigaction → Type 0
HasHandler sa = (sa.sa_handler ≢ 0) × (sa.sa_handler ≢ 1)

-- The signal is not masked in its handler.
abbrev pub masks : Sigaction → Bool
masks sa = bit_and sa.sa_flags sa_nomask == 0

-- The frame that do_signal builds, and what it leaves in the task.
pub record Framed (sa : Sigaction) (t : Task) (r : Regs) (out : Delivered) : Type 0 where
  pub signals : out.task.signal ≡ t.signal
  pub blocked : out.task.blocked ≡ bit_or t.blocked sa.sa_mask
  pub entry : out.regs.eip ≡ sa.sa_handler
  pub top : out.regs.esp ≡ r.esp - 4 * longs sa
  pub places : map (λ c. c.0) out.stack ≡ addresses out.regs.esp (longs sa)
  pub back :
      restore (masks sa) (map (λ c. c.1) out.stack)
      ≡ some (r.eax ∷ r.ecx ∷ r.edx ∷ r.eflags ∷ r.eip ∷ [])
