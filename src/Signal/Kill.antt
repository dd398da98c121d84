-- ===== src/Signal/Kill.antt =====
-- sys_kill of kernel/exit.c: who gets the signal, and what is returned.
use mathlib.Core.Path.{subst}
use neu_os.Prelude.{
  ℕ, ◌^◌, ◌≢◌, ne→==_false, zero, suc, ◌-◌, ◌≤◌, ◌<◌, ◌≡◌, refl, ◌⊎◌, inl, inr, ◌∙◌, sym, ap, true,
  false, Option, some, none, arith, ◌==◌, if◌then◌else◌, update_self, update_ne, ℕ-cases,
}
use neu_os.Prelude.Words.{slt}
use neu_os.Prelude.Bits.{bit, bit-le_one, bit-bit_or, bit-pow_self, bit-pow_ne}
use neu_os.Task.{Task, Table, nr_tasks}
use neu_os.Signal.{bad_signal, raise, send_sig, kill_one, kill_loop, sys_kill}

-- An entry of the table after the signal: a task with the pid has it pending.
abbrev pub signalled : ℕ → ℕ → Option Task → Option Task
signalled pid sig none = none
signalled pid sig (some t) = some (if t.pid == pid then raise sig t else t)

kill_one-good :
    (euid pid sig : ℕ) (p : Option Task)
    → bad_signal sig ≡ false
    → kill_one euid pid sig p ≡ (0, signalled pid sig p)
unfolding kill_one send_sig
kill_one-good euid pid sig none good = refl
kill_one-good euid pid sig (some t) good = ground arith

kill_loop-ret :
    (euid pid sig n retval : ℕ) (ts : Table)
    → bad_signal sig ≡ false
    → (kill_loop euid pid sig n retval ts).0 ≡ retval
unfolding kill_loop
kill_loop-ret euid pid sig zero retval ts good = refl
kill_loop-ret euid pid sig (suc n) retval ts good =
    kill_loop-ret euid pid sig n _ _ good
    ∙ ap (λ r. if r.0 == 0 then retval else r.0) (kill_one-good euid pid sig (ts (suc n)) good)

kill_loop-out :
    (euid pid sig n retval : ℕ) (ts : Table) (i : ℕ)
    → (i ≡ 0) ⊎ (n < i)
    → (kill_loop euid pid sig n retval ts).1 i ≡ ts i
unfolding kill_loop
kill_loop-out euid pid sig zero retval ts i out = refl
kill_loop-out euid pid sig (suc n) retval ts i out =
    kill_loop-out euid pid sig n _ _ i (omega arith) ∙ update_ne ts (suc n) i _ (omega arith)

kill_loop-in :
    (euid pid sig n retval : ℕ) (ts : Table) (i : ℕ)
    → bad_signal sig ≡ false
    → 0 < i
    → i ≤ n
    → (kill_loop euid pid sig n retval ts).1 i ≡ signalled pid sig (ts i)
unfolding kill_loop
kill_loop-in euid pid sig zero retval ts i good pos le = absurd (omega arith)
kill_loop-in euid pid sig (suc n) retval ts i good pos le = elim (ℕ-cases i (suc n)) [
  | inl e ↦
      subst (λ k. (kill_loop euid pid sig (suc n) retval ts).1 k ≡ signalled pid sig (ts k)) (sym e)
        (kill_loop-out euid pid sig n _ _ (suc n) (omega arith)
          ∙ update_self ts (suc n) _
          ∙ ap (λ r. r.1) (kill_one-good euid pid sig (ts (suc n)) good))
  | inr ne ↦
      kill_loop-in euid pid sig n _ _ i good pos (omega arith)
      ∙ ap (signalled pid sig) (update_ne ts (suc n) i _ ne)
]

-- What sys_kill does to each entry, by the function that raises a signal.
pub sys_kill-signalled :
    (euid pid sig : ℕ) (ts : Table)
    → slt 0 pid ≡ true
    → bad_signal sig ≡ false
    → ((sys_kill euid pid sig ts).0 ≡ 0)
      × ((i : ℕ) → 0 < i → i < nr_tasks → (sys_kill euid pid sig ts).1 i ≡ signalled pid sig (ts i))
      × ((sys_kill euid pid sig ts).1 0 ≡ ts 0)
unfolding sys_kill
sys_kill-signalled euid pid sig ts pos good = rw pos (
  kill_loop-ret euid pid sig (nr_tasks - 1) 0 ts good,
  λ i lo hi. kill_loop-in euid pid sig (nr_tasks - 1) 0 ts i good lo (omega arith),
  kill_loop-out euid pid sig (nr_tasks - 1) 0 ts 0 (inl refl),
)

-- Signal `sig` is pending in `t'`, which is `t` in all else.
pub record Raised (sig : ℕ) (t t' : Task) : Type 0 where
  pub pending : bit (sig - 1) t'.signal ≡ 1
  pub others : (j : ℕ) → j ≢ sig - 1 → bit j t'.signal ≡ bit j t.signal
  pub same : t' ≡ record t { signal = t'.signal }

raise-Raised : (sig : ℕ) (t : Task) → Raised sig t (raise sig t)
unfolding raise
raise-Raised sig t = record {
  pending = omega (
    arith,
    bit-bit_or (sig - 1) t.signal (2 ^ (sig - 1)),
    bit-pow_self (sig - 1),
    bit-le_one (sig - 1) t.signal,
  );
  others = λ j ne. omega (
    arith,
    bit-bit_or j t.signal (2 ^ (sig - 1)),
    bit-pow_ne j (sig - 1) ne,
    bit-le_one j t.signal,
  );
  same = refl;
}

-- An entry of the table before and after the signal.
pub data Hit (pid sig : ℕ) : Option Task → Option Task → Type 0 where
  empty : Hit pid sig none none
  hit : {t t' : Task} → t.pid ≡ pid → Raised sig t t' → Hit pid sig (some t) (some t')
  missed : {t : Task} → t.pid ≢ pid → Hit pid sig (some t) (some t)

signalled-Hit : (pid sig : ℕ) (p : Option Task) → Hit pid sig p (signalled pid sig p)
signalled-Hit pid sig none = empty
signalled-Hit pid sig (some t) = elim (ℕ-cases t.pid pid) [
  | inl e ↦
      let mine : (t.pid == pid) ≡ true = ground (arith, e) in rw mine (hit e (raise-Raised sig t))
  | inr ne ↦ rw (ne→==_false t.pid pid ne) (missed ne)
]

-- For a positive pid and a signal from 1 to 32 sys_kill returns 0, makes the signal, bit `sig - 1`, pending in
-- exactly the tasks 1 to 63 that have the pid, changes nothing else in these, and no other task.
pub sys_kill-Hit :
    (euid pid sig : ℕ) (ts : Table)
    → slt 0 pid ≡ true
    → bad_signal sig ≡ false
    → ((sys_kill euid pid sig ts).0 ≡ 0)
      × ((i : ℕ) → 0 < i → i < nr_tasks → Hit pid sig (ts i) ((sys_kill euid pid sig ts).1 i))
      × ((sys_kill euid pid sig ts).1 0 ≡ ts 0)
sys_kill-Hit euid pid sig ts pos good =
    let (res, all, idle) = sys_kill-signalled euid pid sig ts pos good in
    (
      res,
      λ i lo hi. subst (Hit pid sig (ts i)) (sym (all i lo hi)) (signalled-Hit pid sig (ts i)),
      idle,
    )

-- A pid that is not positive is accepted and does nothing.
pub sys_kill_nothing :
    (euid pid sig : ℕ) (ts : Table) → slt 0 pid ≡ false → sys_kill euid pid sig ts ≡ (0, ts)
unfolding sys_kill
sys_kill_nothing euid pid sig ts e = rw e
