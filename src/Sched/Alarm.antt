-- ===== src/Sched/Alarm.antt =====
-- The signal loop of schedule (kernel/sched.c): expired alarms, and which signals wake a sleeper.
use mathlib.Core.Option
use Prim.Native.Nat.{bit_and, bit_or, bit_xor}
use neu_os.Prelude.{
  ℕ, ◌-◌, ◌<◌, ◌≡◌, refl, ◌≢◌, ◌⊎◌, inl, inr, ◌∙◌, ap, true, false, some, arith, ne→==_false,
}
use neu_os.Prelude.Words.{slt, minus_one}
use neu_os.Prelude.Bits.{
  bit, bit-le_one, ne_zero_of_bit, bit-bit_and, bit-bit_or, bit-bit_xor, zero_of_bits,
}
use neu_os.Task.{Task, Table, nr_tasks, task_running, task_interruptible}
use neu_os.Sched.{sigalrm_bit, blockable, deliverable, raise_alarm, rouse, signal_pass}
use neu_os.Sched.Switch.{each_task_in}

pub signal_pass_in :
    (jiffies : ℕ) (ts : Table) (i : ℕ) {t : Task}
    → 0 < i
    → i < nr_tasks
    → ts i ≡ some t
    → signal_pass jiffies ts i ≡ some (rouse (raise_alarm jiffies t))
unfolding signal_pass
signal_pass_in jiffies ts i pos lt there =
    each_task_in (λ t. rouse (raise_alarm jiffies t)) (nr_tasks - 1) ts i pos (omega arith)
    ∙ ap (Option.map (λ t. rouse (raise_alarm jiffies t))) there

-- A pending signal that is neither blocked nor SIGKILL nor SIGSTOP counts.
deliverable-bit :
    (k : ℕ) (t : Task)
    → bit k t.signal ≡ 1
    → bit k blockable ≡ 1
    → bit k minus_one ≡ 1
    → bit k t.blocked ≡ 0
    → deliverable t ≢ 0
deliverable-bit k t pending may all open_ = ne_zero_of_bit k (deliverable t) (
    omega (
      arith,
      bit-bit_and k t.signal (bit_and blockable (bit_xor t.blocked minus_one)),
      bit-bit_and k blockable (bit_xor t.blocked minus_one),
      bit-bit_xor k t.blocked minus_one,
    ))

rouse-wakes :
    (t : Task)
    → deliverable t ≢ 0
    → t.state ≡ task_interruptible
    → rouse t ≡ record t { state = task_running }
unfolding rouse
rouse-wakes t some_ sleeping = rw (ne→==_false _ 0 some_, sleeping)

raise-expired :
    (jiffies : ℕ) (t : Task)
    → t.alarm ≢ 0
    → slt t.alarm jiffies ≡ true
    → raise_alarm jiffies t ≡ record t { signal = bit_or t.signal sigalrm_bit; alarm = 0 }
unfolding raise_alarm
raise-expired jiffies t set over = rw (ne→==_false _ 0 set, over)

-- A task that sleeps interruptibly and whose alarm time is over leaves the signal loop runnable,
-- with SIGALRM pending and the alarm off, unless it blocks SIGALRM.
pub alarm_wakes :
    (jiffies : ℕ) (ts : Table) (i : ℕ) {t : Task}
    → 0 < i
    → i < nr_tasks
    → ts i ≡ some t
    → t.state ≡ task_interruptible
    → t.alarm ≢ 0
    → slt t.alarm jiffies ≡ true
    → bit 13 t.blocked ≡ 0
    → (t' : Task) × (signal_pass jiffies ts i ≡ some t')
      × (t'.state ≡ task_running)
      × (t'.alarm ≡ 0)
      × (bit 13 t'.signal ≡ 1)
alarm_wakes jiffies ts i {t} pos lt there sleeping set over open_ =
    let raised : Task = record t { signal = bit_or t.signal sigalrm_bit; alarm = 0 } in
    let pending : bit 13 raised.signal ≡ 1 =
      omega (arith, bit-bit_or 13 t.signal sigalrm_bit, bit-le_one 13 t.signal) in
    (
      record raised { state = task_running },
      signal_pass_in jiffies ts i pos lt there
          ∙ ap some (
              ap rouse (raise-expired jiffies t set over)
              ∙ rouse-wakes raised (deliverable-bit 13 raised pending refl refl open_) sleeping),
      refl,
      refl,
      pending,
    )

-- SIGKILL is signal 9 and SIGSTOP is signal 19.
abbrev pub OnlyKillStop : Task → Type 0
OnlyKillStop t = (k : ℕ) → (k ≡ 8) ⊎ (k ≡ 18) ⊎ (bit k t.signal ≡ 0)

kill_stop-deliverable : (t : Task) → OnlyKillStop t → deliverable t ≡ 0
kill_stop-deliverable t only = zero_of_bits (deliverable t) λ k.
    let mask : ℕ = bit_xor t.blocked minus_one in
    let outer = bit-bit_and k t.signal (bit_and blockable mask) in
    let inner = bit-bit_and k blockable mask in
    elim (only k) [
      | inl e ↦ omega (arith, outer, inner, ap (λ j. bit j blockable) e)
      | inr (inl e) ↦ omega (arith, outer, inner, ap (λ j. bit j blockable) e)
      | inr (inr off) ↦ omega (arith, outer, off)
    ]

raise-unexpired :
    (jiffies : ℕ) (t : Task)
    → (t.alarm ≡ 0) ⊎ (slt t.alarm jiffies ≡ false)
    → raise_alarm jiffies t ≡ t
unfolding raise_alarm
raise-unexpired jiffies t (inl off) = ground arith
raise-unexpired jiffies t (inr later) = ground arith

rouse-passes : (t : Task) → OnlyKillStop t → rouse t ≡ t
unfolding rouse
rouse-passes t only = rw (kill_stop-deliverable t only)

-- The signal loop of schedule leaves a task from 1 to 63 as it is, asleep if it sleeps, when SIGKILL and SIGSTOP are
-- the only signals that it has pending and it has no alarm whose time is over, whatever it blocks.
pub kill_never_wakes :
    (jiffies : ℕ) (ts : Table) (i : ℕ) {t : Task}
    → 0 < i
    → i < nr_tasks
    → ts i ≡ some t
    → OnlyKillStop t
    → (t.alarm ≡ 0) ⊎ (slt t.alarm jiffies ≡ false)
    → signal_pass jiffies ts i ≡ some t
kill_never_wakes jiffies ts i {t} pos lt there only quiet =
    signal_pass_in jiffies ts i pos lt there
    ∙ ap some (ap rouse (raise-unexpired jiffies t quiet) ∙ rouse-passes t only)
