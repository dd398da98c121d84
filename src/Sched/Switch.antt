-- ===== src/Sched/Switch.antt =====
-- schedule (kernel/sched.c) as a whole: its `while (1)` ends, and which task it switches to.
use mathlib.Core.Option
use mathlib.Core.Path.{subst}
use neu_os.Prelude.{
  ℕ, zero, suc, ◌-◌, ◌^◌, ◌≤◌, ◌<◌, ◌≡◌, refl, ◌≢◌, ◌⊎◌, inl, inr, ◌∙◌, sym, ap, true, false, none,
  some, arith, Bool-cases, Option-cases, eq_of_some, ℕ-cases, eq_of_==, ne→==_false, update,
  update_self, update_ne, ◌==◌,
}
use neu_os.Prelude.Words.{rank, minus_one}
use neu_os.Task.{Task, Table, Sched, task_running, nr_tasks}
use neu_os.Sched.{select, each_task, recharge, choose, signal_pass, schedule, rouse, raise_alarm}
use neu_os.Sched.Select.{Runs, Bounded, Best, select-Best}

-- A loop over the table changes exactly the entries 1 to `n`.
pub each_task_out :
    (f : Task → Task) (n : ℕ) (ts : Table) (i : ℕ) → (i ≡ 0) ⊎ (n < i) → each_task f n ts i ≡ ts i
unfolding each_task
each_task_out f zero ts i out = refl
each_task_out f (suc n) ts i out =
    each_task_out f n (update ts (suc n) (Option.map f (ts (suc n)))) i (omega arith)
    ∙ update_ne ts (suc n) i (Option.map f (ts (suc n))) (omega arith)

pub each_task_in :
    (f : Task → Task) (n : ℕ) (ts : Table) (i : ℕ)
    → 0 < i
    → i ≤ n
    → each_task f n ts i ≡ Option.map f (ts i)
unfolding each_task
each_task_in f zero ts i pos le = absurd (omega arith)
each_task_in f (suc n) ts i pos le = elim (ℕ-cases i (suc n)) [
  | inl e ↦ rw e (
      each_task_out f n (update ts (suc n) (Option.map f (ts (suc n)))) (suc n) (omega arith)
      ∙ update_self ts (suc n) (Option.map f (ts (suc n))))
  | inr ne ↦
      each_task_in f n (update ts (suc n) (Option.map f (ts (suc n)))) i pos (omega arith)
      ∙ ap (Option.map f) (update_ne ts (suc n) i (Option.map f (ts (suc n))) ne)
]

-- Every runnable task has a positive priority.
abbrev RunnablePriority : Table → Type 0
RunnablePriority ts =
    (i : ℕ) (t : Task)
    → 0 < i
    → i < nr_tasks
    → ts i ≡ some t
    → t.state ≡ task_running
    → (0 < t.priority) × (t.priority < 2 ^ 31)

-- Every task but task 0 has a positive priority.
abbrev pub HasPriority : Table → Type 0
HasPriority ts =
    (i : ℕ) (t : Task)
    → 0 < i
    → i < nr_tasks
    → ts i ≡ some t
    → (0 < t.priority) × (t.priority < 2 ^ 31)

signals-priority : (jiffies : ℕ) (t : Task) → (rouse (raise_alarm jiffies t)).priority ≡ t.priority
unfolding rouse raise_alarm
signals-priority jiffies t = ground arith

signal_pass-HasPriority :
    (jiffies : ℕ) (ts : Table) → HasPriority ts → RunnablePriority (signal_pass jiffies ts)
unfolding signal_pass
signal_pass-HasPriority jiffies ts prio i t pos lt there run =
    let after =
      each_task_in (λ u. rouse (raise_alarm jiffies u)) (nr_tasks - 1) ts i pos (omega arith) in
    elim (Option-cases (ts i)) [
      | inl empty ↦
          cc (sym after ∙ there, ap (Option.map (λ u. rouse (raise_alarm jiffies u))) empty)
      | inr (t₀, was) ↦
          let now : rouse (raise_alarm jiffies t₀) ≡ t =
            eq_of_some
              (sym (after ∙ ap (Option.map (λ u. rouse (raise_alarm jiffies u))) was) ∙ there) in
          subst (λ p. (0 < p) × (p < 2 ^ 31))
            (sym (signals-priority jiffies t₀) ∙ ap (λ u. u.priority) now) (prio i t₀ pos lt was)
    ]

-- What schedule promises of its choice: the idle task, when no runnable task has a counter that is
-- not negative, or a runnable task with counter left, none of which has more.
pub data Choice (ts : Table) : ℕ → Type 0 where
  idle : Bounded ts (nr_tasks - 1) minus_one → Choice ts 0
  task :
      {c next : ℕ}
      → Runs ts c next
      → next < nr_tasks
      → c ≢ 0
      → Bounded ts (nr_tasks - 1) c
      → Choice ts next

Best-Choice :
    (ts : Table) (r : ℕ × ℕ)
    → Best ts (nr_tasks - 1) minus_one 0 r
    → (r.0 == 0) ≡ false
    → Choice ts r.1
Best-Choice ts r b nonzero = elim b.found [
  | inl same ↦
      subst (λ (p : ℕ × ℕ). Bounded ts (nr_tasks - 1) p.0 → Choice ts p.1) (sym same) idle b.bounded
  | inr (runs, le) ↦ task runs (omega arith) (ground arith) b.bounded
]

recharged-rank :
    (t : Task)
    → t.counter ≡ 0
    → 0 < t.priority
    → t.priority < 2 ^ 31
    → (rank 0 < rank (recharge t).counter) × ((recharge t).state ≡ t.state)
unfolding recharge
recharged-rank t e lo hi = ground arith

-- A round that finds the largest counter to be 0 gives every runnable task its priority again, and
-- the next round does not find 0.
recharged-nonzero :
    (ts : Table) (r : ℕ × ℕ)
    → RunnablePriority ts
    → Best ts (nr_tasks - 1) minus_one 0 r
    → r.0 ≡ 0
    → ((select (each_task recharge (nr_tasks - 1) ts) (nr_tasks - 1) minus_one 0).0 == 0) ≡ false
recharged-nonzero ts r prio b zeroed = elim b.found [
  | inl same ↦ absurd (omega (arith, ap (λ (p : ℕ × ℕ). p.0) same))
  | inr (runs, le) ↦
      let p = prio r.1 runs.who runs.pos (omega arith) runs.there runs.running in
      let up = recharged-rank runs.who (runs.counter ∙ zeroed) p.0 p.1 in
      let there =
        each_task_in recharge (nr_tasks - 1) ts r.1 runs.pos le
        ∙ ap (Option.map recharge) runs.there in
      let best = select-Best (each_task recharge (nr_tasks - 1) ts) (nr_tasks - 1) minus_one 0 in
      let high = best.bounded r.1 (recharge runs.who) runs.pos le there (up.1 ∙ runs.running) in
      ne→==_false _ 0 (λ e. absurd (omega (arith, ap rank e, high, up.0)))
]

pub choose-stop :
    (rounds : ℕ) (ts : Table)
    → ((select ts (nr_tasks - 1) minus_one 0).0 == 0) ≡ false
    → choose (suc rounds) ts ≡ some ((select ts (nr_tasks - 1) minus_one 0).1, ts)
unfolding choose
choose-stop rounds ts e = rw e

choose-again :
    (rounds : ℕ) (ts : Table)
    → ((select ts (nr_tasks - 1) minus_one 0).0 == 0) ≡ true
    → choose (suc rounds) ts ≡ choose rounds (each_task recharge (nr_tasks - 1) ts)
unfolding choose
choose-again rounds ts e = rw e

choose_ends :
    (rounds : ℕ) (ts : Table)
    → RunnablePriority ts
    → (r : ℕ × Table) × (choose (suc (suc rounds)) ts ≡ some r)
choose_ends rounds ts prio = elim (Bool-cases ((select ts (nr_tasks - 1) minus_one 0).0 == 0)) [
  | inl zeroed ↦ (
    _,
    choose-again (suc rounds) ts zeroed
        ∙ choose-stop rounds (each_task recharge (nr_tasks - 1) ts) (
            recharged-nonzero ts _ prio (select-Best ts (nr_tasks - 1) minus_one 0)
              (eq_of_== _ 0 zeroed)),
  )
  | inr left ↦ (_, choose-stop (suc rounds) ts left)
]

choose-zero : (ts : Table) {r : ℕ × Table} → choose zero ts ≢ some r
unfolding choose
choose-zero ts e = cc

choose-Choice :
    (rounds : ℕ) (ts : Table) {r : ℕ × Table} → choose rounds ts ≡ some r → Choice r.1 r.0
choose-Choice zero ts e = absurd (choose-zero ts e)
choose-Choice (suc rounds) ts e =
    elim (Bool-cases ((select ts (nr_tasks - 1) minus_one 0).0 == 0)) [
      | inl zeroed ↦
          choose-Choice rounds (each_task recharge (nr_tasks - 1) ts)
            (sym (choose-again rounds ts zeroed) ∙ e)
      | inr left ↦
          subst (λ (p : ℕ × Table). Choice p.1 p.0)
            (eq_of_some (sym (choose-stop rounds ts left) ∙ e))
            (Best-Choice ts _ (select-Best ts (nr_tasks - 1) minus_one 0) left)
    ]

pub schedule-some :
    (rounds : ℕ) (s : Sched) {r : ℕ × Table}
    → choose rounds (signal_pass s.jiffies s.task) ≡ some r
    → schedule rounds s ≡ some (record s { task = r.1; current = r.0 })
unfolding schedule
schedule-some rounds s e = rw (e, schedule)

schedule-none :
    (rounds : ℕ) (s : Sched)
    → choose rounds (signal_pass s.jiffies s.task) ≡ none
    → schedule rounds s ≡ none
unfolding schedule
schedule-none rounds s e = rw (e, schedule)

-- schedule's loop ends within two rounds, if every task but the idle one has a positive priority.
pub schedule_ends :
    (rounds : ℕ) (s : Sched)
    → HasPriority s.task
    → 2 ≤ rounds
    → (s' : Sched) × (schedule rounds s ≡ some s')
schedule_ends zero s prio h = absurd (omega arith)
schedule_ends (suc zero) s prio h = absurd (omega arith)
schedule_ends (suc (suc rounds)) s prio h =
    let (r, e) =
      choose_ends rounds (signal_pass s.jiffies s.task)
        (signal_pass-HasPriority s.jiffies s.task prio) in
    (_, schedule-some (suc (suc rounds)) s e)

-- The task that schedule switches to is in the state that it leaves either the idle task 0, and then
-- no runnable task has a counter of 0 or more, or a runnable task whose counter is not 0 and that no
-- runnable task exceeds.
pub schedule-Choice :
    (rounds : ℕ) (s : Sched) {s' : Sched} → schedule rounds s ≡ some s' → Choice s'.task s'.current
schedule-Choice rounds s {s'} e =
    elim (Option-cases (choose rounds (signal_pass s.jiffies s.task))) [
      | inl never ↦ cc (sym (schedule-none rounds s never) ∙ e)
      | inr (r, e') ↦
          subst (λ (t : Sched). Choice t.task t.current)
            (eq_of_some (sym (schedule-some rounds s e') ∙ e)) (choose-Choice rounds _ e')
    ]
