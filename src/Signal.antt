-- ===== src/Signal.antt =====
-- Signals: kernel/signal.c, and send_sig and sys_kill of kernel/exit.c.
-- An operation on `current` takes and returns that task. What the code copies from and to user space
-- (get_new, save_old, put_fs_long) is an argument or part of the result.
pub mod Deliver
pub mod Kill
pub mod Mask
mod Examples
use Prim.Native.Nat.{bit_and, bit_or, bit_xor}
use mathlib.Core.Option
use neu_os.Prelude.{
  ℕ, zero, suc, ◌+◌, ◌-◌, ◌*◌, ◌/◌, ◌%◌, ◌^◌, Bool, true, false, ◌||◌, not, Option, none, some,
  List, [], ◌∷◌, ◌++◌, ltb, ◌==◌, if◌then◌else◌, update,
}
use neu_os.Prelude.Words.{sub32, slt, minus_one, word_mod}
use neu_os.Mm.State.{Cmd, pure, ◌>>◌}
use neu_os.Mm.Space.{verify_area}
use neu_os.Kernel.Segment.{get_base}
use neu_os.Task.{Task, Table, Sigaction, nr_tasks}

abbrev pub sigkill : ℕ
sigkill = 9

-- `-EPERM` and `-EINVAL`
abbrev pub eperm : ℕ
eperm = word_mod - 1

abbrev pub einval : ℕ
einval = word_mod - 22

abbrev pub sa_nomask : ℕ
sa_nomask = 0x4000_0000

abbrev pub sa_oneshot : ℕ
sa_oneshot = 0x8000_0000

-- `sig < 1 || sig > 32` on signed words.
abbrev pub bad_signal : ℕ → Bool
bad_signal sig = slt sig 1 || slt 32 sig

-- `p->signal |= (1<<(sig - 1))`
unfoldable pub raise : ℕ → Task → Task
raise sig t = record t { signal = bit_or t.signal (2 ^ (sig - 1)) }

-- send_sig: `euid` is the caller's, `p` the task that the pointer denotes, none for NULL. The result
-- is the error and the task.
unfoldable pub send_sig : ℕ → ℕ → Option Task → Bool → ℕ × Option Task
send_sig euid sig none priv = (einval, none)
send_sig euid sig (some p) priv =
    if bad_signal sig
    then (einval, some p)
    else if priv || euid == p.euid
    then (0, some (raise sig p))
    else (eperm, some p)

-- The loop of sys_kill over task[n], ..., task[1]. `retval` is the last error.
unfoldable pub kill_one : ℕ → ℕ → ℕ → Option Task → ℕ × Option Task
kill_one euid pid sig none = (0, none)
kill_one euid pid sig (some t) =
    if t.pid == pid then send_sig euid sig (some t) true else (0, some t)

unfoldable pub kill_loop : ℕ → ℕ → ℕ → ℕ → ℕ → Table → ℕ × Table
kill_loop euid pid sig zero retval ts = (retval, ts)
kill_loop euid pid sig (suc i) retval ts =
    let (err, p) = kill_one euid pid sig (ts (suc i)) in
    kill_loop euid pid sig i (if err == 0 then retval else err) (update ts (suc i) p)

unfoldable pub sys_kill : ℕ → ℕ → ℕ → Table → ℕ × Table
sys_kill euid pid sig ts = if slt 0 pid then kill_loop euid pid sig (nr_tasks - 1) 0 ts else (0, ts)

unfoldable pub sys_sgetmask : Task → ℕ
sys_sgetmask t = t.blocked

unfoldable pub sys_ssetmask : ℕ → Task → ℕ × Task
sys_ssetmask newmask t =
    (t.blocked, record t { blocked = bit_and newmask (bit_xor (2 ^ (sigkill - 1)) minus_one) })

abbrev pub bad_action : ℕ → Bool
bad_action signum = slt signum 1 || slt 32 signum || signum == sigkill

unfoldable pub set_action : ℕ → Sigaction → Task → Task
set_action signum sa t = record t { sigaction = update t.sigaction (signum - 1) sa }

unfoldable pub sys_signal : ℕ → ℕ → ℕ → Task → ℕ × Task
unfolding set_action
sys_signal signum handler restorer t = if bad_action signum then (minus_one, t) else (
  (t.sigaction (signum - 1)).sa_handler,
  set_action signum
      (record {
        sa_handler = handler;
        sa_mask = 0;
        sa_flags = bit_or sa_oneshot sa_nomask;
        sa_restorer = restorer;
      })
      t,
)

-- The mask that sys_sigaction gives the action it has read.
unfoldable pub fix_mask : ℕ → Sigaction → Sigaction
fix_mask signum sa =
    if bit_and sa.sa_flags sa_nomask == 0
    then record sa { sa_mask = bit_or sa.sa_mask (2 ^ (signum - 1)) }
    else record sa { sa_mask = 0 }

-- The verify_area of save_old, if the caller gave it a place. A sigaction has 16 bytes.
unfoldable pub check_old : Option ℕ → Task → Cmd (Unit {0})
check_old none t = pure tt
check_old (some old_action) t = verify_area (get_base (t.ldt 2)) old_action 16

-- `action` is what get_new reads; the last part of the result is what save_old writes, and where.
unfoldable pub sys_sigaction :
    ℕ → Sigaction → Option ℕ → Task → Cmd (ℕ × Task × Option (ℕ × Sigaction))
unfolding set_action fix_mask check_old
sys_sigaction signum action old_action t =
    if bad_action signum
    then pure (minus_one, t, none)
    else check_old old_action t
      >> pure (
        0,
        set_action signum (fix_mask signum action) t,
        Option.map (λ to. (to, t.sigaction (signum - 1))) old_action,
      )

-- The saved registers of the interrupted user code that do_signal reads.
pub record Regs : Type 0 where
  pub eax : ℕ
  pub ecx : ℕ
  pub edx : ℕ
  pub eip : ℕ
  pub eflags : ℕ
  pub esp : ℕ

-- put_fs_long(v, p++) for each word: the addresses and the values.
unfoldable pub stores : ℕ → List ℕ → List (ℕ × ℕ)
stores p [] = []
stores p (v ∷ vs) = (p, v) ∷ stores (p + 4) vs

-- The words that do_signal puts on the user's stack, from the new top up.
unfoldable pub frame_words : ℕ → Sigaction → Task → Regs → List ℕ
frame_words signr sa t r =
    sa.sa_restorer
    ∷ signr
    ∷ ((if bit_and sa.sa_flags sa_nomask == 0 then t.blocked ∷ [] else [])
        ++ (r.eax ∷ r.ecx ∷ r.edx ∷ r.eflags ∷ r.eip ∷ []))

pub record Delivered : Type 0 where
  pub task : Task
  pub regs : Regs
  pub stack : List (ℕ × ℕ)

abbrev pub longs : Sigaction → ℕ
longs sa = if bit_and sa.sa_flags sa_nomask == 0 then 8 else 7

-- The action as do_signal leaves it in the task.
unfoldable pub spend : ℕ → Sigaction → Task → Task
unfolding set_action
spend signr sa t =
    if bit_and sa.sa_flags sa_oneshot == 0
    then t
    else set_action signr (record sa { sa_handler = 0 }) t

-- `verify_area((void *)esp, longs * 4)`
unfoldable pub check_stack : Sigaction → Task → Regs → Cmd (Unit {0})
check_stack sa t r = verify_area (get_base (t.ldt 2)) (sub32 r.esp (4 * longs sa)) (4 * longs sa)

-- The task, the registers and the words on the stack with which the handler is entered.
unfoldable pub deliver : ℕ → Task → Regs → Delivered
unfolding stores frame_words spend
deliver signr t r =
    let sa = t.sigaction (signr - 1) in
    let esp = sub32 r.esp (4 * longs sa) in
    record {
      task = record (spend signr sa t) { blocked = bit_or t.blocked sa.sa_mask };
      regs = record r { eip = sa.sa_handler; esp = esp };
      stack = stores esp (frame_words signr sa t r);
    }

unfoldable pub do_signal : ℕ → Task → Regs → Cmd Delivered
unfolding check_stack deliver
do_signal signr t r =
    let sa = t.sigaction (signr - 1) in
    if sa.sa_handler == 1 || sa.sa_handler == 0
    then pure (record { task = t; regs = r; stack = [] })
    else check_stack sa t r >> pure (deliver signr t r)
