-- ===== src/Exit/Wait.antt =====
-- sys_waitpid of kernel/exit.c never sees a child.
use neu_os.Prelude.{
  ℕ, zero, suc, ◌-◌, ◌*◌, ◌≡◌, ◌≢◌, ◌⊎◌, refl, inl, inr, ◌∙◌, ap, ap₂, Bool, true, false, none,
  some, Option-cases, ne→==_false,
}
use neu_os.Task.{Task, Table, nr_tasks}
use neu_os.Mm.State.{Mm, Run}
use neu_os.Mm.Space.{verify_area}
use neu_os.Kernel.{Kernel, ok}
use neu_os.Exit.Waitpid.{
  Verdict, skip, wait_for, stopped, dead, on_stopped, on_dead, Ending, passed, returned, Seen,
  echild, at_null, judge, wait_loop, end_wait, repeat, sys_waitpid,
}

-- A loop that skips what it reads through NULL skips everything.
wait_loop-skip : (n : ℕ) (flag : Bool) (ts : Table) → wait_loop skip n flag ts ≡ passed flag
unfolding wait_loop
wait_loop-skip zero flag ts = refl
wait_loop-skip (suc n) flag ts = elim (Option-cases (ts (suc n))) [
  | inl empty ↦ rw (wait_loop, empty) (wait_loop-skip n flag ts)
  | inr (t, there) ↦ rw (wait_loop, there) (wait_loop-skip n flag ts)
]

-- The two tables have tasks in the same entries.
abbrev pub SamePlaces : Table → Table → Type 0
SamePlaces ts ts' =
    (i : ℕ)
    → ((ts i ≡ none) × (ts' i ≡ none))
      ⊎ ((t : Task) × (t' : Task) × (ts i ≡ some t) × (ts' i ≡ some t'))

-- The loop at an entry that is NULL, with what it comes to when it goes on.
abbrev branch : Verdict → Ending → Ending → Ending
branch v rest waiting = elim v [
  | skip ↦ rest
  | wait_for ↦ waiting
  | stopped ↦ on_stopped
  | dead ↦ on_dead
]

-- The loop of sys_waitpid does not depend on what the tasks are: in two tables with tasks in the same
-- entries it ends in the same way.
pub wait_loop-wait_loop :
    (v : Verdict) (n : ℕ) (flag : Bool) (ts ts' : Table)
    → SamePlaces ts ts'
    → wait_loop v n flag ts ≡ wait_loop v n flag ts'
unfolding wait_loop
wait_loop-wait_loop v zero flag ts ts' same = refl
wait_loop-wait_loop v (suc n) flag ts ts' same = elim (same (suc n)) [
  | inl (e, e') ↦
      rw (wait_loop, e, e')
        (ap₂ (branch v) (wait_loop-wait_loop v n flag ts ts' same)
          (wait_loop-wait_loop v n true ts ts' same))
  | inr (t, t', e, e') ↦ rw (wait_loop, e, e') (wait_loop-wait_loop v n flag ts ts' same)
]

end_wait-none :
    (rounds me stat_addr options : ℕ) (p : Seen) (k : Kernel)
    → end_wait rounds me stat_addr options p (passed false) k ≡ ok (returned echild none) k
unfolding end_wait
end_wait-none rounds me stat_addr options p k = refl

judge-stranger :
    (pid options : ℕ) (t : Task) (p : Seen) → p.father ≢ t.pid → judge pid options t p ≡ skip
unfolding judge
judge-stranger pid options t p ne = rw (judge, ne→==_false p.father t.pid ne) refl

repeat-echild :
    (rounds pid stat_addr options : ℕ) (k : Kernel) {t : Task}
    → k.sched.task k.sched.current ≡ some t
    → k.mm.phys 560 ≢ t.pid
    → repeat rounds pid stat_addr options k ≡ ok (returned echild none) k
unfolding repeat at_null
repeat-echild rounds pid stat_addr options k {t} there ne =
    let p : Seen = at_null k.mm.phys in
    let at : ℕ = k.sched.current in
    let skips = judge-stranger pid options t p ne in
    let ends =
      ap (λ v. wait_loop v (nr_tasks - 1) false k.sched.task) skips
      ∙ wait_loop-skip (nr_tasks - 1) false k.sched.task in
    rw (repeat, there)
      (ap (λ e. end_wait rounds at stat_addr options p e k) ends
        ∙ end_wait-none rounds at stat_addr options p k)

-- Whatever children a process has, dead ones or not, and whatever it waits for, sys_waitpid returns -ECHILD, changes nothing but
-- what verify_area does to the memory, and does not wait, unless entry 140 of the page directory, which it
-- takes for the father's number of a child, happens to be the process's own number.
pub sys_waitpid-echild :
    (rounds base pid stat_addr options : ℕ) (k : Kernel) (m : Mm) {t : Task}
    → verify_area base stat_addr 4 k.mm ≡ Run.ok tt m
    → k.sched.task k.sched.current ≡ some t
    → m.phys (4 * 140) ≢ t.pid
    → sys_waitpid rounds base pid stat_addr options k
      ≡ ok (returned echild none) (record k { mm = m })
unfolding sys_waitpid
sys_waitpid-echild rounds base pid stat_addr options k m verified there ne =
    rw (sys_waitpid, verified)
      (repeat-echild rounds pid stat_addr options (record k { mm = m }) there ne)
