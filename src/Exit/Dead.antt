-- ===== src/Exit/Dead.antt =====
-- do_exit of kernel/exit.c as a whole, up to its call of schedule.
use mathlib.Core.Option
use neu_os.Prelude.{
  true, ℕ, ◌-◌, ◌^◌, ◌<◌, ◌≡◌, refl, ◌≢◌, inl, inr, ◌∙◌, sym, ap, Option, none, some, arith,
  ℕ-cases, eq_of_some, ne→==_false, update, update_self, update_ne, if◌then◌else◌, ◌==◌,
}
use neu_os.Prelude.Bits.{bit, bit-le_one, bit-bit_or, bit-pow_self}
use neu_os.Task.{Task, Table, nr_tasks, task_zombie}
use neu_os.Signal.{raise}
use neu_os.Sched.{modify}
use neu_os.Mm.State.{Mm, Run}
use neu_os.Mm.Space.{free_page_tables}
use neu_os.Kernel.{Kernel, ok, and_then, reschedule}
use neu_os.Kernel.Segment.{get_base}
use neu_os.Exit.{
  sigchld, orphans, tell_loop, tell_father, forget_math, bury, tell_own_father, leave_at_exit,
  exit_task, do_exit,
}
use neu_os.Exit.Orphans.{father_of, adopt, update-father, orphans-adopt}
use neu_os.Exit.Told.{number_of, update-number, orphans-number, Told, nobody, told, tell_loop-Told}

-- The table after the loop over the children and the two writes to `current`.
abbrev buried : ℕ → ℕ → Task → Table → Table
buried me code t ts =
    let adopted : Table = orphans nr_tasks 0 t.euid t.pid ts in
    update adopted me (Option.map (bury code) (adopted me))

-- The kernel at the call of tell_father.
abbrev telling : ℕ → ℕ → Task → Mm → Kernel → Kernel
telling me code t m k = record k {
  mm = m;
  sched = record (k.sched) { task = buried me code t k.sched.task };
  last_task_used_math = elim k.last_task_used_math [
    | none ↦ none
    | some i ↦ if i == me then none else some i
  ];
}

-- What do_exit has made of the kernel `k` when it calls schedule: the process is a zombie with its code, its
-- father has SIGCHLD pending, init is the father of its children, and nobody has another number.
pub record Exited (me code : ℕ) (t : Task) (m : Mm) (k k' : Kernel) : Type 0 where
  pub zombie :
      (t' : Task) × (k'.sched.task me ≡ some t') × (t'.state ≡ task_zombie) × (t'.exit_code ≡ code)
  pub father :
      (i : ℕ) × (p : Task) × (i < nr_tasks)
      × (k'.sched.task i ≡ some p)
      × (p.pid ≡ t.father)
      × (bit (sigchld - 1) p.signal ≡ 1)
  pub children :
      (j : ℕ)
      → j < nr_tasks
      → father_of (k'.sched.task j) ≡ Option.map (adopt t.pid) (father_of (k.sched.task j))
  pub numbers : (j : ℕ) → number_of (k'.sched.task j) ≡ number_of (k.sched.task j)
  pub memory : k'.mm ≡ m
  pub current : k'.sched.current ≡ k.sched.current

module _ (rounds me code code_limit data_limit : ℕ) (t : Task) (k : Kernel) {r₁ r₂ : ℕ} {m₁ m : Mm}
    (freed₁ : free_page_tables (get_base (t.ldt 1)) code_limit k.mm ≡ Run.ok r₁ m₁)
    (freed₂ : free_page_tables (get_base (t.ldt 2)) data_limit m₁ ≡ Run.ok r₂ m) where
  exit_task-telling :
      exit_task rounds me t code_limit data_limit code k
      ≡ and_then (tell_own_father rounds me (telling me code t m k)) (λ _. leave_at_exit rounds me)
  unfolding exit_task forget_math modify
  exit_task-telling = rw (exit_task, freed₁) (rw freed₂ refl)

tell_father-told :
    (rounds pid : ℕ) (k : Kernel) {ts : Table}
    → tell_loop nr_tasks 0 pid k.sched.task ≡ some ts
    → tell_father rounds pid k ≡ ok tt (record k { sched = record (k.sched) { task = ts } })
unfolding tell_father
tell_father-told rounds pid k e = rw (tell_father, e) refl

tell_own_father-father :
    (rounds me : ℕ) (k : Kernel) {t : Task}
    → k.sched.task me ≡ some t
    → tell_own_father rounds me k ≡ tell_father rounds t.father k
unfolding tell_own_father
tell_own_father-father rounds me k e = rw (tell_own_father, e) refl

bury-number : (code : ℕ) (o : Option Task) → number_of (Option.map (bury code) o) ≡ number_of o
unfolding bury
bury-number code none = refl
bury-number code (some t) = refl

bury-father : (code : ℕ) (o : Option Task) → father_of (Option.map (bury code) o) ≡ father_of o
unfolding bury
bury-father code none = refl
bury-father code (some t) = refl

with_number : {n : ℕ} (o : Option Task) → number_of o ≡ some n → (u : Task) × (o ≡ some u)
with_number none e = cc
with_number (some u) e = (u, refl)

module _ (me code : ℕ) (t : Task) (ts : Table) where
  buried-number : (j : ℕ) → number_of (buried me code t ts j) ≡ number_of (ts j)
  buried-number j =
      let all : Table = orphans nr_tasks 0 t.euid t.pid ts in
      update-number all me j (Option.map (bury code) (all me)) (bury-number code (all me))
      ∙ orphans-number nr_tasks 0 t.euid t.pid j ts

  buried-father :
      (j : ℕ)
      → j < nr_tasks
      → father_of (buried me code t ts j) ≡ Option.map (adopt t.pid) (father_of (ts j))
  buried-father j lt =
      let all : Table = orphans nr_tasks 0 t.euid t.pid ts in
      update-father all me j (Option.map (bury code) (all me)) (bury-father code (all me))
      ∙ orphans-adopt t.euid t.pid ts j lt

  -- The process itself, which is a zombie, has the father that it had.
  buried_self :
      ts me ≡ some t
      → me < nr_tasks
      → t.father ≢ t.pid
      → (u : Task) × (buried me code t ts me ≡ some (bury code u)) × (u.father ≡ t.father)
  buried_self there lt other =
      let all : Table = orphans nr_tasks 0 t.euid t.pid ts in
      let (u, is) =
        with_number (all me) (orphans-number nr_tasks 0 t.euid t.pid me ts ∙ ap number_of there) in
      let fathers : some u.father ≡ some (adopt t.pid t.father) =
        ap father_of (sym is)
        ∙ orphans-adopt t.euid t.pid ts me lt
        ∙ ap (λ o. Option.map (adopt t.pid) (father_of o)) there in
      (
        u,
        update_self all me (Option.map (bury code) (all me)) ∙ ap (Option.map (bury code)) is,
        eq_of_some fathers ∙ rw (ne→==_false t.father t.pid other) refl,
      )

raised-bit : (p : Task) → bit (sigchld - 1) (raise sigchld p).signal ≡ 1
unfolding raise
raised-bit p =
    omega (arith, bit-bit_or 16 p.signal (2 ^ 16), bit-pow_self 16, bit-le_one 16 p.signal)

-- A zombie that is told is one still.
zombie_told :
    (me code j : ℕ) (u : Task) (ts : Table) {p : Task}
    → ts me ≡ some (bury code u)
    → ts j ≡ some p
    → (t' : Task) × (update ts j (some (raise sigchld p)) me ≡ some t')
      × (t'.state ≡ task_zombie)
      × (t'.exit_code ≡ code)
unfolding raise bury
zombie_told me code j u ts {p} there told_ = elim (ℕ-cases me j) [
  | inl same ↦
      let p_is : p ≡ bury code u = eq_of_some (sym told_ ∙ ap ts (sym same) ∙ there) in
      (
        raise sigchld p,
        ap (update ts j (some (raise sigchld p))) same ∙ update_self ts j (some (raise sigchld p)),
        ap (λ x. x.state) p_is,
        ap (λ x. x.exit_code) p_is,
      )
  | inr ne ↦ (bury code u, update_ne ts j me (some (raise sigchld p)) ne ∙ there, refl, refl)
]

raise-number : (p : Task) → (raise sigchld p).pid ≡ p.pid
unfolding raise
raise-number p = refl

raise-father : (p : Task) → father_of (some (raise sigchld p)) ≡ some p.father
unfolding raise
raise-father p = refl

module _ (rounds me code : ℕ) (t u : Task) (m : Mm) (k : Kernel)
    (self : buried me code t k.sched.task me ≡ some (bury code u))
    (fathered : u.father ≡ t.father) where
  tell-own :
      tell_own_father rounds me (telling me code t m k)
      ≡ tell_father rounds t.father (telling me code t m k)
  unfolding bury
  tell-own =
      tell_own_father-father rounds me (telling me code t m k) self
      ∙ ap (λ pid. tell_father rounds pid (telling me code t m k)) fathered

  -- With the result of the loop of tell_father.
  Told-Exited :
      {o : Option Table} (i : ℕ)
      → i < nr_tasks
      → number_of (k.sched.task i) ≡ some t.father
      → Told nr_tasks 0 t.father (buried me code t k.sched.task) o
      → tell_loop nr_tasks 0 t.father (buried me code t k.sched.task) ≡ o
      → (k' : Kernel) × (tell_own_father rounds me (telling me code t m k) ≡ ok tt k')
        × Exited me code t m k k'
  Told-Exited i lt his (nobody none_) e =
      absurd (none_ i (omega arith) (omega arith) (buried-number me code t k.sched.task i ∙ his))
  Told-Exited i lt his (told {p} j below there same) e =
      let ts : Table = buried me code t k.sched.task in
      let raised : Option Task = some (raise sigchld p) in
      (
        _,
        tell-own ∙ tell_father-told rounds t.father (telling me code t m k) e,
        record {
          zombie = zombie_told me code j u ts self there;
          father = (
            j,
            raise sigchld p,
            below,
            update_self ts j raised,
            raise-number p ∙ same,
            raised-bit p,
          );
          children = λ l lt'.
              update-father ts j l raised (raise-father p ∙ ap father_of (sym there))
              ∙ buried-father me code t k.sched.task l lt';
          numbers = λ l.
              update-number ts j l raised (ap some (raise-number p) ∙ ap number_of (sym there))
              ∙ buried-number me code t k.sched.task l;
          memory = refl;
          current = refl;
        },
      )

-- A process that is still current calls schedule.
leave_at_exit-current :
    (rounds me : ℕ) (k : Kernel)
    → k.sched.current ≡ me
    → leave_at_exit rounds me k ≡ reschedule rounds k
unfolding leave_at_exit
leave_at_exit-current rounds me k e =
    let same : (k.sched.current == me) ≡ true = ground (arith, e) in rw (leave_at_exit, same) refl

do_exit-exit_task :
    (rounds code_limit data_limit code : ℕ) (k : Kernel) {t : Task}
    → k.sched.task k.sched.current ≡ some t
    → do_exit rounds code_limit data_limit code k
      ≡ exit_task rounds k.sched.current t code_limit data_limit code k
unfolding do_exit
do_exit-exit_task rounds code_limit data_limit code k e = rw (do_exit, e) refl

-- A process that exits, whose father's number a task of the table has and is not its own, and whose two address spaces
-- free_page_tables gives back, is a zombie with its code when do_exit calls schedule; a task with the father's number
-- has SIGCHLD pending, init is the father of the process's children, and every other father and every number is as it was.
pub do_exit-Exited :
    (rounds code_limit data_limit code : ℕ) (k : Kernel) {t p : Task} (i : ℕ) {r₁ r₂ : ℕ}
    {m₁ m : Mm}
    → k.sched.task k.sched.current ≡ some t
    → k.sched.current < nr_tasks
    → t.father ≢ t.pid
    → i < nr_tasks
    → k.sched.task i ≡ some p
    → p.pid ≡ t.father
    → free_page_tables (get_base (t.ldt 1)) code_limit k.mm ≡ Run.ok r₁ m₁
    → free_page_tables (get_base (t.ldt 2)) data_limit m₁ ≡ Run.ok r₂ m
    → (k' : Kernel) × (do_exit rounds code_limit data_limit code k ≡ reschedule rounds k')
      × Exited k.sched.current code t m k k'
do_exit-Exited rounds code_limit data_limit code k {t} {p} i {m = m} there inside other lt father
      same freed₁ freed₂ =
    let me : ℕ = k.sched.current in
    let (u, self, fathered) = buried_self me code t k.sched.task there inside other in
    let (k', told_, exited) =
      Told-Exited rounds me code t u m k self fathered i lt (ap number_of father ∙ ap some same)
        (tell_loop-Told nr_tasks 0 t.father (buried me code t k.sched.task)) refl in
    (
      k',
      do_exit-exit_task rounds code_limit data_limit code k there
          ∙ exit_task-telling rounds me code code_limit data_limit t k freed₁ freed₂
          ∙ ap (λ o. and_then o (λ _. leave_at_exit rounds me)) told_
          ∙ leave_at_exit-current rounds me k' exited.current,
      exited,
    )
