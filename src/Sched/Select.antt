-- ===== src/Sched/Select.antt =====
-- The `while (--i)` loop of schedule (kernel/sched.c) finds a runnable task with the largest counter.
use mathlib.Core.Path.{subst}
use neu_os.Prelude.{
  ℕ, zero, suc, ◌≤◌, ◌<◌, ◌≡◌, refl, ◌⊎◌, inl, inr, ◌∙◌, sym, ap, true, false, some, arith,
  Bool-cases, Option-cases, eq_of_some, ℕ-cases,
}
use neu_os.Prelude.Words.{rank}
use neu_os.Task.{Task, Table, task_running}
use neu_os.Sched.{better, select}

-- Task `i` stands in the table, runs, and has the counter `c`.
pub record Runs (ts : Table) (c i : ℕ) : Type 0 where
  pub who : Task
  pub there : ts i ≡ some who
  pub running : who.state ≡ task_running
  pub counter : who.counter ≡ c
  pub pos : 0 < i

-- No runnable task among 1 to `n` has a counter above `c`.
abbrev pub Bounded : Table → ℕ → ℕ → Type 0
Bounded ts n c =
    (i : ℕ) (t : Task)
    → 0 < i
    → i ≤ n
    → ts i ≡ some t
    → t.state ≡ task_running
    → rank t.counter ≤ rank c

pub record Best (ts : Table) (n c next : ℕ) (r : ℕ × ℕ) : Type 0 where
  pub grows : rank c ≤ rank r.0
  pub bounded : Bounded ts n r.0
  pub found : (r ≡ (c, next)) ⊎ (Runs ts r.0 r.1 × (r.1 ≤ n))

extend :
    (ts : Table) (n c : ℕ)
    → Bounded ts n c
    → ((t : Task) → ts (suc n) ≡ some t → t.state ≡ task_running → rank t.counter ≤ rank c)
    → Bounded ts (suc n) c
extend ts n c below top i t pos le there run = elim (ℕ-cases i (suc n)) [
  | inl e ↦ top t (ap ts (sym e) ∙ there) run
  | inr ne ↦ below i t pos (omega arith) there run
]

better-rank : (t : Task) (c : ℕ) → better t c ≡ true → rank c < rank t.counter
unfolding better
better-rank t c h = ground arith

better-running : (t : Task) (c : ℕ) → better t c ≡ true → t.state ≡ task_running
unfolding better
better-running t c h = ground arith

not_better-rank :
    (t : Task) (c : ℕ) → better t c ≡ false → t.state ≡ task_running → rank t.counter ≤ rank c
unfolding better
not_better-rank t c h run = ground arith

-- The step past a task that is not chosen, and past one that is.
keep :
    (ts : Table) (n c next : ℕ) {r : ℕ × ℕ}
    → ((t : Task) → ts (suc n) ≡ some t → t.state ≡ task_running → rank t.counter ≤ rank c)
    → Best ts n c next r
    → Best ts (suc n) c next r
keep ts n c next top b = record {
  grows = b.grows;
  bounded = extend ts n _ b.bounded (λ t there run. omega (arith, top t there run, b.grows));
  found = elim b.found [ inl same ↦ inl same | inr (runs, le) ↦ inr (runs, omega arith) ];
}

take :
    (ts : Table) (n c next : ℕ) {t : Task} {r : ℕ × ℕ}
    → ts (suc n) ≡ some t
    → better t c ≡ true
    → Best ts n t.counter (suc n) r
    → Best ts (suc n) c next r
take ts n c next {t} {r} there up b =
    let gain = better-rank t c up in
    record {
      grows = omega (arith, b.grows);
      bounded = extend ts n _ b.bounded (λ t' there' run.
          omega (arith, b.grows, ap rank (ap (λ u. u.counter) (eq_of_some (sym there' ∙ there)))));
      found = elim b.found [
        | inl same ↦ inr (
            subst (λ (p : ℕ × ℕ). Runs ts p.0 p.1 × (p.1 ≤ suc n)) (sym same)
              (
                record {
                  who = t;
                  there = there;
                  running = better-running t c up;
                  counter = refl;
                  pos = omega arith;
                },
                omega arith,
              ))
        | inr (runs, le) ↦ inr (runs, omega arith)
      ];
    }

-- The selection loop of schedule, from the counter `c` and the task `next` over the entries 1 to `n`,
-- ends with a counter that is at least `c` and that no runnable task there exceeds: it keeps `c` and
-- `next`, or it has the counter and the number of a runnable task there.
pub select-Best : (ts : Table) (n c next : ℕ) → Best ts n c next (select ts n c next)
unfolding select
select-Best ts zero c next = record {
  grows = omega arith;
  bounded = λ i t pos le there run. absurd (omega arith);
  found = inl refl;
}
select-Best ts (suc n) c next = elim (Option-cases (ts (suc n))) [
  | inl empty ↦
      rw (empty, select)
        (keep ts n c next (λ t there run. cc (sym empty ∙ there)) (select-Best ts n c next))
  | inr (t, there) ↦ elim (Bool-cases (better t c)) [
    | inl up ↦
        rw (there, select) (rw up (take ts n c next there up (select-Best ts n t.counter (suc n))))
    | inr down ↦
        rw (there, select)
          (rw down (
            keep ts n c next
              (λ t' there' run.
                subst (λ u. rank u.counter ≤ rank c) (eq_of_some (sym there ∙ there'))
                  (not_better-rank t c down
                    (ap (λ u. u.state) (eq_of_some (sym there ∙ there')) ∙ run)))
              (select-Best ts n c next)))
  ]
]
