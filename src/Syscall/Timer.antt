-- ===== src/Syscall/Timer.antt =====
-- timer_interrupt of kernel/system_call.s: it takes the processor from a process, and never from the kernel.

use neu_os.Prelude.{
  ℕ, suc, ◌-◌, ◌%◌, ◌^◌, ◌≤◌, ◌<◌, ◌≡◌, refl, ◌≢◌, ◌∙◌, ap, sym, true, false, some, [], arith, inl,
  inr, ℕ-cases, ◌==◌, ◌||◌, not, update, update_self, update_ne, ne→==_false, eq_of_some,
}
use neu_os.Prelude.Words.{add32, minus_one, rank}
use neu_os.Task.{Task, Table, Sched, nr_tasks, task_running}
use neu_os.Kernel.{Kernel, ok, memory, ◌>>=◌}
use neu_os.Sched.{do_timer, rouse, raise_alarm, signal_pass, schedule, select}
use neu_os.Sched.Alarm.{signal_pass_in}
use neu_os.Sched.Select.{Runs, select-Best}
use neu_os.Sched.Switch.{each_task_out, choose-stop, schedule-some}
use neu_os.Fork.Copy.{Frame}
use neu_os.Syscall.Return.{regs_of, from_user}
use neu_os.Syscall.Deliver.{ret_from_syscall-passed}
use neu_os.Syscall.Call.{
  with_current-some, go_to_user, returned, left, at_return, timer_interrupt, tick, return,
  return_signalled, reschedule, behind,
}

-- The kernel with the tick counted and the task `t` for the current one.
abbrev pub ticked : Kernel → Task → Kernel
ticked k t = record k {
  sched = record (k.sched) {
    task = update k.sched.task k.sched.current (some t);
    jiffies = add32 k.sched.jiffies 1;
  };
}

module _ (rounds eax : ℕ) (f : Frame) (k : Kernel) {t : Task}
    (there : k.sched.task k.sched.current ≡ some t) where
  abbrev counted : Kernel
  counted = record k { sched = record (k.sched) { jiffies = add32 k.sched.jiffies 1 } }

  to_tick : timer_interrupt rounds eax f k ≡ tick rounds eax f t counted
  unfolding timer_interrupt
  to_tick = with_current-some (tick rounds eax f) counted there

  tick-return :
      (do_timer (f.cs % 4) t).1 ≡ false
      → tick rounds eax f t counted ≡ return eax f (ticked k (do_timer (f.cs % 4) t).0)
  unfolding tick
  tick-return e = rw (tick, e) refl

  tick-reschedule :
      (do_timer (f.cs % 4) t).1 ≡ true
      → tick rounds eax f t counted ≡ reschedule rounds eax f (ticked k (do_timer (f.cs % 4) t).0)
  unfolding tick
  tick-reschedule e = rw (tick, e) refl

kernel_mode : (me : ℕ) (f : Frame) → f.cs % 4 ≡ 0 → ((me == 0) || not (from_user f)) ≡ true
kernel_mode me f e = ground arith

-- The same task is current, is now `t'`, and no other task has changed; the tick is counted.
pub record Stays (k k' : Kernel) (t' : Task) : Type 0 where
  pub current : k'.sched.current ≡ k.sched.current
  pub charged : k'.sched.task k.sched.current ≡ some t'
  pub others : (i : ℕ) → i ≢ k.sched.current → k'.sched.task i ≡ k.sched.task i
  pub jiffies : k'.sched.jiffies ≡ add32 k.sched.jiffies 1

twice-Stays :
    (k : Kernel) (t₁ t₂ : Task)
    → Stays k
        (record (ticked k t₁) {
          sched = record ((ticked k t₁).sched) {
            task = update (ticked k t₁).sched.task k.sched.current (some t₂);
          };
        })
        t₂
twice-Stays k t₁ t₂ = record {
  current = refl;
  charged = update_self (ticked k t₁).sched.task k.sched.current (some t₂);
  others = λ i ne.
      update_ne (ticked k t₁).sched.task k.sched.current i (some t₂) ne
      ∙ update_ne k.sched.task k.sched.current i (some t₁) ne;
  jiffies = refl;
}

do_timer_kernel :
    (cs : ℕ) (t : Task)
    → cs % 4 ≡ 0
    → ((do_timer (cs % 4) t).1 ≡ false) × ((do_timer (cs % 4) t).0.stime ≡ add32 t.stime 1)
unfolding do_timer
do_timer_kernel cs t e = ground arith

return-passed :
    (eax : ℕ) (f : Frame) (k : Kernel) (t : Task)
    → f.cs % 4 ≡ 0
    → k.sched.task k.sched.current ≡ some t
    → return eax f k
      ≡ ok (returned (regs_of eax f) []) (record k {
        sched = record (k.sched) { task = update k.sched.task k.sched.current (some t) };
      })
unfolding return return_signalled
return-passed eax f k t e there =
    with_current-some (return_signalled eax f) k there
    ∙ ap (λ c. (memory c >>= go_to_user) k)
        (ret_from_syscall-passed k.sched.current eax f t (kernel_mode k.sched.current f e))

-- A tick that interrupts the kernel counts the tick and charges the current task with kernel time; it returns to the interrupted
-- place with the registers as they were and no signal delivered, and changes no other task: it never switches
-- to another one.
pub timer_interrupt-Stays :
    (rounds eax : ℕ) (f : Frame) (k : Kernel) (t : Task)
    → k.sched.task k.sched.current ≡ some t
    → f.cs % 4 ≡ 0
    → (k' : Kernel) × (t' : Task) × (timer_interrupt rounds eax f k
        ≡ ok (returned (regs_of eax f) []) k')
      × Stays k k' t'
      × (t'.stime ≡ add32 t.stime 1)
timer_interrupt-Stays rounds eax f k t there e =
    let t' : Task = (do_timer (f.cs % 4) t).0 in
    let (quiet, charged) = do_timer_kernel f.cs t e in
    (
      _,
      t',
      to_tick rounds eax f k there
          ∙ tick-return rounds eax f k there quiet
          ∙ return-passed eax f (ticked k t') t' e
              (update_self k.sched.task k.sched.current (some t')),
      twice-Stays k t' t',
      charged,
    )

do_timer_over :
    (cs : ℕ) (t : Task)
    → cs % 4 ≢ 0
    → t.counter ≤ 1
    → ((do_timer (cs % 4) t).1 ≡ true) × ((do_timer (cs % 4) t).0.counter ≡ 0)
unfolding do_timer
do_timer_over cs t user spent = ground arith

rouse-keeps :
    (jiffies : ℕ) (t : Task)
    → ((rouse (raise_alarm jiffies t)).counter ≡ t.counter)
      × (t.state ≡ task_running → (rouse (raise_alarm jiffies t)).state ≡ task_running)
unfolding rouse raise_alarm
rouse-keeps jiffies t = ground arith

-- The signal loop keeps the counter of each task.
passed :
    (jiffies : ℕ) (ts : Table) (i : ℕ) {t : Task}
    → i < nr_tasks
    → ts i ≡ some t
    → (u : Task) × (signal_pass jiffies ts i ≡ some u) × (u.counter ≡ t.counter)
unfolding signal_pass
passed jiffies ts i {t} lt there = elim (ℕ-cases i 0) [
  | inl e ↦ (
    t,
    each_task_out (λ u. rouse (raise_alarm jiffies u)) (nr_tasks - 1) ts i (inl e) ∙ there,
    refl,
  )
  | inr ne ↦ (
    rouse (raise_alarm jiffies t),
    signal_pass_in jiffies ts i (omega arith) lt there,
    (rouse-keeps jiffies t).0,
  )
]

-- A round of schedule in which a task has time left chooses a task with time left.
first_round :
    (rounds : ℕ) (s : Sched) {c j : ℕ}
    → Runs s.task c j
    → j < nr_tasks
    → 0 < c
    → c < 2 ^ 31
    → (s' : Sched) × (c' : ℕ) × (schedule (suc rounds) s ≡ some s')
      × (s'.task ≡ signal_pass s.jiffies s.task)
      × Runs s'.task c' s'.current
      × (s'.current < nr_tasks)
      × (c' ≢ 0)
first_round rounds s {c} {j} runs lt lo hi =
    let ts : Table = signal_pass s.jiffies s.task in
    let best = select-Best ts (nr_tasks - 1) minus_one 0 in
    let (same, run) = rouse-keeps s.jiffies runs.who in
    let high =
      best.bounded j (rouse (raise_alarm s.jiffies runs.who)) runs.pos (omega arith)
        (signal_pass_in s.jiffies s.task j runs.pos lt runs.there) (run runs.running) in
    let above : rank c ≤ rank (select ts (nr_tasks - 1) minus_one 0).0 =
      omega (arith, high, ap rank (same ∙ runs.counter)) in
    let some_left : (select ts (nr_tasks - 1) minus_one 0).0 ≢ 0 =
      λ e. absurd (omega (arith, above, ap rank e)) in
    elim best.found [
      | inl none_ ↦ absurd (omega (arith, above, ap (λ (p : ℕ × ℕ). rank p.0) none_))
      | inr (chosen, le) ↦ (
        _,
        _,
        schedule-some (suc rounds) s (choose-stop rounds ts (ne→==_false _ 0 some_left)),
        refl,
        chosen,
        omega arith,
        some_left,
      )
    ]

-- A task without time left has none after the signal loop.
spent-Runs :
    (s : Sched) (i : ℕ) {c : ℕ} {t : Task} {ts : Table}
    → Runs ts c i
    → ts ≡ signal_pass s.jiffies s.task
    → i < nr_tasks
    → s.task i ≡ some t
    → t.counter ≡ 0
    → c ≡ 0
spent-Runs s i {c} {t} {ts} runs table lt there zeroed =
    let who : runs.who ≡ rouse (raise_alarm s.jiffies t) = eq_of_some (
      sym runs.there
      ∙ ap (λ (p : Table). p i) table
      ∙ signal_pass_in s.jiffies s.task i runs.pos lt there) in
    sym runs.counter ∙ ap (λ u. u.counter) who ∙ (rouse-keeps s.jiffies t).0 ∙ zeroed

reschedule-left :
    (rounds eax : ℕ) (f : Frame) (k : Kernel) {s : Sched}
    → schedule rounds k.sched ≡ some s
    → s.current ≢ k.sched.current
    → reschedule rounds eax f k ≡ ok (left (at_return eax)) (record k { sched = s })
unfolding reschedule behind
reschedule-left rounds eax f k {s} e ne =
    rw (reschedule, e) (rw (behind, ne→==_false s.current k.sched.current ne) refl)

-- A tick that interrupts a process at the end of its time, while another task from 1 to 63 is runnable and has time left, takes the processor from it: the first round of
-- schedule chooses a runnable task with time left, which is another one; the interrupted process waits at
-- ret_from_syscall with its eax, and its counter is 0.
pub timer_interrupt-Preempts :
    (rounds eax : ℕ) (f : Frame) (k : Kernel) {t : Task} {c j : ℕ}
    → k.sched.task k.sched.current ≡ some t
    → k.sched.current < nr_tasks
    → f.cs % 4 ≢ 0
    → t.counter ≤ 1
    → Runs k.sched.task c j
    → j < nr_tasks
    → j ≢ k.sched.current
    → (0 < c) × (c < 2 ^ 31)
    → (k' : Kernel) × (c' : ℕ) × (timer_interrupt (suc rounds) eax f k
        ≡ ok (left (at_return eax)) k')
      × Runs k'.sched.task c' k'.sched.current
      × (c' ≢ 0)
      × (k'.sched.current ≢ k.sched.current)
      × ((u : Task) × (k'.sched.task k.sched.current ≡ some u) × (u.counter ≡ 0))
timer_interrupt-Preempts rounds eax f k {t} {c} {j} there inside user spent runs lt ne room =
    let t' : Task = (do_timer (f.cs % 4) t).0 in
    let (over, zeroed) = do_timer_over f.cs t user spent in
    let now : Kernel = ticked k t' in
    let runs' : Runs now.sched.task c j = record {
      who = runs.who;
      there = update_ne k.sched.task k.sched.current j (some t') ne ∙ runs.there;
      running = runs.running;
      counter = runs.counter;
      pos = runs.pos;
    } in
    let (s', c', run, table, chosen, below, some_left) =
      first_round rounds now.sched runs' lt room.0 room.1 in
    let other : s'.current ≢ k.sched.current = λ e. some_left (
      spent-Runs now.sched s'.current chosen table below
        (ap now.sched.task e ∙ update_self k.sched.task k.sched.current (some t')) zeroed) in
    (
      record now { sched = s' },
      c',
      to_tick (suc rounds) eax f k there
          ∙ tick-reschedule (suc rounds) eax f k there over
          ∙ reschedule-left (suc rounds) eax f now run other,
      chosen,
      some_left,
      other,
      let (u, at, kept) =
            passed now.sched.jiffies now.sched.task k.sched.current inside
              (update_self k.sched.task k.sched.current (some t')) in
          (u, ap (λ (ts : Table). ts k.sched.current) table ∙ at, kept ∙ zeroed),
    )
