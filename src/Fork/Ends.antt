-- ===== src/Fork/Ends.antt =====
-- How the steps of copy_process (kernel/fork.c) end, and what they keep, with copy_mem.
use mathlib.Core.Option
use neu_os.Prelude.{
  ℕ, ◌≡◌, refl, ◌≢◌, inl, inr, ◌∙◌, ap, not, Option, some, Bool-cases, update, update_self,
  update_ne, ◌==◌, ltb,
}
use neu_os.Task.{Task}
use neu_os.Sched.{modify}
use neu_os.Mm.State.{Mm, Run}
use neu_os.Mm.Space.{copy_page_tables, free_page_tables}
use neu_os.Kernel.{Kernel, Out, Act, ok, panic, fault, and_then, from_run, tasks}
use neu_os.Kernel.Segment.{get_base}
use neu_os.Fork.Copy.{space_of, rebase, finish_copy, copy_space, copy_mem}

-- The other tasks, the number of the current one and last_pid are the same.
pub record Kept (nr : ℕ) (k k' : Kernel) : Type 0 where
  pub others : (i : ℕ) → i ≢ nr → k'.sched.task i ≡ k.sched.task i
  pub same_pid : k'.last_pid ≡ k.last_pid
  pub same_current : k'.sched.current ≡ k.sched.current

-- The call returns so that `R` holds of the result, or it panics or faults; it does not go round for ever.
pub data Ends (nr : ℕ) (k : Kernel) (R : ℕ → Kernel → Type 0) : Out ℕ → Type 0 where
  returns : {r : ℕ} {k' : Kernel} → Kept nr k k' → R r k' → Ends nr k R (ok r k')
  panics : {k' : Kernel} → Kept nr k k' → Ends nr k R (panic k')
  faults : Ends nr k R fault

module _ {nr : ℕ} {k : Kernel} where
  pub then-Ends :
      {R S : ℕ → Kernel → Type 0} {o : Out ℕ} (f : ℕ → Act ℕ)
      → Ends nr k R o
      → ((r : ℕ) (k' : Kernel) → Kept nr k k' → R r k' → Ends nr k S (f r k'))
      → Ends nr k S (and_then o f)
  then-Ends f (returns kept p) next = next _ _ kept p
  then-Ends f (panics kept) next = panics kept
  then-Ends f faults next = faults

  pub like :
      {k' k'' : Kernel}
      → Kept nr k k'
      → k''.sched ≡ k'.sched
      → k''.last_pid ≡ k'.last_pid
      → Kept nr k k''
  like kept tasks pids = record {
    others = λ i ne. ap (λ s. s.task i) tasks ∙ kept.others i ne;
    same_pid = pids ∙ kept.same_pid;
    same_current = ap (λ s. s.current) tasks ∙ kept.same_current;
  }

  -- A command on memory, and then `f`.
  pub memory-Ends :
      {A : Type 0} {S : ℕ → Kernel → Type 0} {k' : Kernel} (f : A → Act ℕ) (r : Run A)
      → Kept nr k k'
      → ((a : A) (m : Mm) → Ends nr k S (f a (record k' { mm = m })))
      → Ends nr k S (and_then (from_run k' r) f)
  memory-Ends f (Run.ok a m) kept next = next a m
  memory-Ends f (Run.panic m) kept next = panics (like kept refl refl)
  memory-Ends f Run.fault kept next = faults

  pub set_task-Kept :
      {k' : Kernel} (o : Option Task)
      → Kept nr k k'
      → Kept nr k (record k' { sched = record (k'.sched) { task = update k'.sched.task nr o } })
  set_task-Kept {k'} o kept = record {
    others = λ i ne. update_ne k'.sched.task nr i o ne ∙ kept.others i ne;
    same_pid = kept.same_pid;
    same_current = kept.same_current;
  }

-- The entry of the new task holds `c`.
abbrev pub Holds : ℕ → Task → ℕ → Kernel → Type 0
Holds nr c r k = k.sched.task nr ≡ some c

module _ {nr : ℕ} {k k' : Kernel} (kept : Kept nr k k') where
  pub on_task-Kept :
      (f : Task → Task)
      → Kept nr k (record k' { sched = record (k'.sched) { task = modify nr f k'.sched.task } })
  unfolding modify
  on_task-Kept f = set_task-Kept (Option.map f (k'.sched.task nr)) kept

  pub on_task-Holds :
      {c : Task} (f : Task → Task)
      → k'.sched.task nr ≡ some c
      → modify nr f k'.sched.task nr ≡ some (f c)
  unfolding modify
  on_task-Holds f e = update_self k'.sched.task nr _ ∙ ap (Option.map f) e

  finish_copy-Ends :
      {c : Task} (base limit copied : ℕ)
      → k'.sched.task nr ≡ some c
      → Ends nr k (Holds nr c) (finish_copy base limit copied k')
  unfolding finish_copy
  finish_copy-Ends base limit copied e = elim (Bool-cases (copied == 0)) [
    | inl z ↦ rw (finish_copy, z) (returns kept e)
    | inr nz ↦
        rw (finish_copy, nz)
          (memory-Ends _ (free_page_tables base limit k'.mm) kept
            (λ a m. returns (like kept refl refl) e))
  ]

copy_space-Ends :
    {nr : ℕ} {k k' : Kernel} {c : Task} (old_base limit : ℕ)
    → Kept nr k k'
    → k'.sched.task nr ≡ some c
    → Ends nr k (Holds nr (rebase (space_of nr) c)) (copy_space nr old_base limit k')
unfolding copy_space
copy_space-Ends {nr} {k} {k'} old_base limit kept e =
    memory-Ends _ (copy_page_tables old_base (space_of nr) limit k'.mm)
      (on_task-Kept kept (rebase (space_of nr)))
      (λ a m.
        finish_copy-Ends (like (on_task-Kept kept (rebase (space_of nr))) refl refl) (space_of nr)
          limit a (on_task-Holds kept (rebase (space_of nr)) e))

pub copy_mem-Ends :
    {nr : ℕ} {k k' : Kernel} {c : Task} (parent : Task) (code_limit data_limit : ℕ)
    → Kept nr k k'
    → k'.sched.task nr ≡ some c
    → Ends nr k (Holds nr (rebase (space_of nr) c)) (copy_mem nr parent code_limit data_limit k')
unfolding copy_mem
copy_mem-Ends {nr} parent code_limit data_limit kept e =
    elim (Bool-cases (not (get_base (parent.ldt 1) == get_base (parent.ldt 2)))) [
      | inl differ ↦ rw (copy_mem, differ) (panics kept)
      | inr same ↦ elim (Bool-cases (ltb data_limit code_limit)) [
        | inl small ↦ rw (copy_mem, same, small) (panics kept)
        | inr fits ↦
            rw (copy_mem, same, fits) (copy_space-Ends (get_base (parent.ldt 2)) data_limit kept e)
      ]
    ]
