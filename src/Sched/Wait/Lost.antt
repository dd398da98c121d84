-- ===== src/Sched/Wait/Lost.antt =====
-- A sleeper of sleep_on (kernel/sched.c) that no wake_up can reach any more.
use mathlib.Core.Path.{subst}
use mathlib.Core.Option
use neu_os.Prelude.{
  ℕ, ◌≡◌, refl, ◌≢◌, ◌∙◌, sym, ap, Option, none, some, arith, ◌==◌, update, update_self, update_ne,
  ne→==_false, ℕ-cases, inl, inr, eq_of_some, Option-cases, Bool-cases,
}
use neu_os.Task.{Task, Table, task_running, task_uninterruptible}
use neu_os.Sched.{modify, set_state, wake_up}
use neu_os.Sched.Wait.{
  Waiting, rouse_task, enter, sleep_on, leave, wake, state_of, enters, leaves, wakes, Reach, here,
  next,
}

-- Task `c` sleeps, and neither the pointer nor any sleeper's `tmp` leads to it.
pub record IsLost (c : ℕ) (w : Waiting) : Type 0 where
  pub asleep : state_of w.task c ≡ some task_uninterruptible
  pub not_head : w.head ≢ some c
  pub not_saved : (i : ℕ) → w.saved i ≢ some (some c)

pub modify-else :
    (i j : ℕ) (f : Task → Task) (ts : Table) → j ≢ i → state_of (modify i f ts) j ≡ state_of ts j
unfolding modify
modify-else i j f ts ne =
    ap (λ o. elim o [ none ↦ none | some t ↦ some t.state ]) (update_ne ts i j _ ne)

rouse_task-else :
    (tmp : Option ℕ) (c : ℕ) (ts : Table)
    → tmp ≢ some c
    → state_of (rouse_task tmp ts) c ≡ state_of ts c
unfolding rouse_task
rouse_task-else none c ts ne = refl
rouse_task-else (some i) c ts ne =
    modify-else i c (set_state task_running) ts (λ e. ne (ap some (sym e)))

running-ne :
    (ts : Table) {me c : ℕ}
    → state_of ts me ≡ some task_running
    → state_of ts c ≡ some task_uninterruptible
    → c ≢ me
running-ne ts run asleep e =
    absurd (omega (arith, eq_of_some (sym run ∙ ap (state_of ts) (sym e) ∙ asleep)))

sleep_on-enter :
    (me : ℕ) (w : Waiting) {w' : Waiting}
    → sleep_on me w ≡ some w'
    → enter task_uninterruptible me w ≡ w'
unfolding sleep_on
sleep_on-enter me w {w'} e = elim (Bool-cases (me == 0)) [
  | inl zero ↦ cc (rw zero at e)
  | inr some_ ↦ eq_of_some (rw some_ at e)
]

enter-IsLost :
    (me : ℕ) {c : ℕ} {w : Waiting}
    → c ≢ me
    → IsLost c w
    → IsLost c (enter task_uninterruptible me w)
unfolding enter
enter-IsLost me {c} {w} ne l = record {
  asleep = modify-else me c (set_state task_uninterruptible) w.task ne ∙ l.asleep;
  not_head = λ e. ne (sym (eq_of_some e));
  not_saved = λ i. elim (ℕ-cases i me) [
    | inl same ↦ λ e. l.not_head (
        eq_of_some (
          sym (ap (update w.saved me (some w.head)) same ∙ update_self w.saved me (some w.head))
          ∙ e))
    | inr other ↦ λ e. l.not_saved i (sym (update_ne w.saved me i (some w.head) other) ∙ e)
  ];
}

leave-IsLost :
    (me : ℕ) {c : ℕ} {tmp : Option ℕ} {w : Waiting}
    → w.saved me ≡ some tmp
    → IsLost c w
    → IsLost c (leave me tmp w)
unfolding leave
leave-IsLost me {c} {tmp} {w} inside l =
    let away : tmp ≢ some c = λ e. l.not_saved me (inside ∙ ap some e) in
    record {
      asleep = rouse_task-else tmp c w.task away ∙ l.asleep;
      not_head = away;
      not_saved = λ i. elim (ℕ-cases i me) [
        | inl same ↦
            λ e. cc (sym (ap (update w.saved me none) same ∙ update_self w.saved me none) ∙ e)
        | inr other ↦ λ e. l.not_saved i (sym (update_ne w.saved me i none other) ∙ e)
      ];
    }

wake_up-else :
    (h : Option ℕ) (c : ℕ) (ts : Table)
    → h ≢ some c
    → ((wake_up h ts).0 ≡ none) × (state_of (wake_up h ts).1 c ≡ state_of ts c)
unfolding wake_up
wake_up-else none c ts away = (refl, refl)
wake_up-else (some i) c ts away =
    (refl, modify-else i c (set_state task_running) ts (λ e. away (ap some (sym e))))

wake-IsLost : {c : ℕ} (w : Waiting) → IsLost c w → IsLost c (wake w)
unfolding wake
wake-IsLost {c} w l =
    let (gone, same) = wake_up-else w.head c w.task l.not_head in
    record { asleep = same ∙ l.asleep; not_head = λ e. cc (sym gone ∙ e); not_saved = l.not_saved }

-- A lost sleeper stays asleep, whatever the others do: go to sleep there, go on, or call wake_up.
pub IsLost-Reach : {c : ℕ} {w w' : Waiting} → IsLost c w → Reach w w' → IsLost c w'
IsLost-Reach l here = l
IsLost-Reach l (next {u} r (enters me out run e)) =
    let l' = IsLost-Reach l r in
    subst (IsLost _) (sleep_on-enter me u e) (enter-IsLost me (running-ne u.task run l'.asleep) l')
IsLost-Reach l (next r (leaves me inside run)) = leave-IsLost me inside (IsLost-Reach l r)
IsLost-Reach l (next {u} r wakes) = wake-IsLost u (IsLost-Reach l r)

pub state_of-set :
    (i v : ℕ) (ts : Table) {x : ℕ}
    → state_of ts i ≡ some x
    → state_of (modify i (set_state v) ts) i ≡ some v
unfolding modify set_state
state_of-set i v ts {x} there = elim (Option-cases (ts i)) [
  | inl empty ↦ cc (sym there ∙ ap (Option.map (λ t. t.state)) empty)
  | inr (t, e) ↦
      ap (Option.map (λ t. t.state))
        (update_self ts i (Option.map (set_state v) (ts i)) ∙ ap (Option.map (set_state v)) e)
]

-- Task `a` is the only one that sleeps on the pointer, and task `c` is about to sleep on it.
pub record OneSleeper (a c : ℕ) (w : Waiting) : Type 0 where
  pub head : w.head ≡ some a
  pub inside : w.saved a ≡ some none
  pub others : (i : ℕ) → i ≢ a → w.saved i ≡ none
  pub asleep : state_of w.task a ≡ some task_uninterruptible
  pub running : state_of w.task c ≡ some task_running
  pub not_idle : c ≢ 0

pub wake-head :
    {a : ℕ} (w : Waiting)
    → w.head ≡ some a
    → wake w ≡ record w { head = none; task = modify a (set_state task_running) w.task }
unfolding wake wake_up
wake-head w e = rw e refl

sleep_on-some :
    (me : ℕ) (w : Waiting) → me ≢ 0 → sleep_on me w ≡ some (enter task_uninterruptible me w)
unfolding sleep_on
sleep_on-some me w ne = rw (ne→==_false me 0 ne) refl

module _ {a c : ℕ} {w : Waiting} (o : OneSleeper a c w) where
  abbrev woken : Waiting
  woken = record w { head = none; task = modify a (set_state task_running) w.task }

  abbrev asleep_too : Waiting
  asleep_too = enter task_uninterruptible c woken

  apart : a ≢ c
  apart = running-ne w.task o.running o.asleep

  a-inside : asleep_too.saved a ≡ some none
  unfolding enter
  a-inside = update_ne w.saved c a (some none) apart ∙ o.inside

  a-runs : state_of asleep_too.task a ≡ some task_running
  unfolding enter
  a-runs =
      modify-else c a (set_state task_uninterruptible) woken.task apart
      ∙ state_of-set a task_running w.task o.asleep

  c-sleeps : IsLost c (leave a none asleep_too)
  unfolding leave rouse_task enter
  c-sleeps = record {
    asleep =
        state_of-set c task_uninterruptible woken.task
          (modify-else a c (set_state task_running) w.task (λ e. apart (sym e)) ∙ o.running);
    not_head = λ e. cc e;
    not_saved = λ i e. ground (arith, o.others i);
  }

  -- wake_up empties the pointer, and a sleeper that goes on overwrites it with its own `tmp`: if another
  -- task goes to sleep between the two, it is lost.
  pub sleep_on-IsLost : (w' : Waiting) × Reach w w' × IsLost c w'
  sleep_on-IsLost = (
    leave a none asleep_too,
    next
        (next (subst (Reach w) (wake-head w o.head) (next here wakes)) (
          enters c (o.others c (λ e. apart (sym e)))
            (modify-else a c (set_state task_running) w.task (λ e. apart (sym e)) ∙ o.running)
            (sleep_on-some c woken o.not_idle)))
        (leaves a a-inside a-runs),
    c-sleeps,
  )
