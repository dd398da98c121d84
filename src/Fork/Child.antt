-- ===== src/Fork/Child.antt =====
-- What copy_process of kernel/fork.c makes of the task table.

use neu_os.Prelude.{
  ℕ, ◌+◌, ◌^◌, ◌*◌, ◌<◌, ◌≡◌, refl, inl, inr, ◌∙◌, ap, none, some, arith, Bool-cases, update,
  update_self, update_ne, ◌==◌,
}
use neu_os.Prelude.Words.{add32, minus_one}
use neu_os.Task.{Task, Desc, task_running}
use neu_os.Mm.State.{Mm, page_size}
use neu_os.Mm.Page.{get_free_page, free_page}
use neu_os.Kernel.{Kernel, Out}
use neu_os.Kernel.Segment.{get_base, set_base, set_tssldt_desc}
use neu_os.Fork.Ends.{
  Kept, Ends, returns, panics, faults, then-Ends, memory-Ends, like, set_task-Kept, on_task-Kept,
  on_task-Holds, copy_mem-Ends,
}
use neu_os.Fork.Copy.{
  Frame, tss_offset, ldt_offset, space_of, rebase, child, child_tss, install, make_runnable,
  set_descriptors, clear_slot, finish_fork, fork_page, copy_process, read_last_pid,
}

-- The two descriptors of task `nr` have the task state and the local table in the page as bases.
abbrev pub Described : ℕ → ℕ → Kernel → Type 0
Described nr page k =
    (get_base (k.gdt (nr * 2 + 4)) ≡ add32 page tss_offset)
    × (get_base (k.gdt (nr * 2 + 5)) ≡ add32 page ldt_offset)

desc_base :
    (addr type : ℕ) → addr < 2 ^ 32 → type < 2 ^ 8 → get_base (set_tssldt_desc addr type) ≡ addr
unfolding get_base set_tssldt_desc
desc_base addr type ha ht = omega arith

-- The descriptor table after set_descriptors.
abbrev described : ℕ → ℕ → (ℕ → Desc) → ℕ → Desc
described nr page gdt =
    update (update gdt (nr * 2 + 4) (set_tssldt_desc (add32 page tss_offset) 0x89)) (nr * 2 + 5)
      (set_tssldt_desc (add32 page ldt_offset) 0x82)

described-bases :
    (nr page : ℕ) (gdt : ℕ → Desc)
    → (get_base (described nr page gdt (nr * 2 + 4)) ≡ add32 page tss_offset)
      × (get_base (described nr page gdt (nr * 2 + 5)) ≡ add32 page ldt_offset)
described-bases nr page gdt =
    let tss : Desc = set_tssldt_desc (add32 page tss_offset) 0x89 in
    let ldt : Desc = set_tssldt_desc (add32 page ldt_offset) 0x82 in
    (
      ap get_base (
            update_ne (update gdt (nr * 2 + 4) tss) (nr * 2 + 5) (nr * 2 + 4) ldt (omega arith)
            ∙ update_self gdt (nr * 2 + 4) tss)
          ∙ desc_base (add32 page tss_offset) 0x89 (omega arith) (omega arith),
      ap get_base (update_self (update gdt (nr * 2 + 4) tss) (nr * 2 + 5) ldt)
          ∙ desc_base (add32 page ldt_offset) 0x82 (omega arith) (omega arith),
    )

-- What a call that has returned `r` has made of the entry `nr`: nothing, or the task `c`.
pub data Made (nr page last_pid : ℕ) (c : Task) (r : ℕ) (k' : Kernel) : Type 0 where
  nothing : r ≡ minus_one → k'.sched.task nr ≡ none → Made nr page last_pid c r k'
  process :
      r ≡ last_pid
      → k'.sched.task nr ≡ some (make_runnable c)
      → Described nr page k'
      → Made nr page last_pid c r k'

finish_fork-Ends :
    {nr : ℕ} {k k' : Kernel} {c : Task} (page failed : ℕ)
    → Kept nr k k'
    → k'.sched.task nr ≡ some c
    → Ends nr k (Made nr page k.last_pid c) (finish_fork nr page failed k')
unfolding finish_fork set_descriptors clear_slot read_last_pid
finish_fork-Ends {nr} {k} {k'} page failed kept e = elim (Bool-cases (failed == 0)) [
  | inl z ↦
      rw (finish_fork, z)
        (returns (like (on_task-Kept kept make_runnable) refl refl) (
          process kept.same_pid (on_task-Holds kept make_runnable e)
            (described-bases nr page k'.gdt)))
  | inr nz ↦
      rw (finish_fork, nz)
        (memory-Ends _ (free_page page k'.mm) (set_task-Kept none kept) (λ a m.
          returns (like (set_task-Kept none kept) refl refl)
            (nothing refl (update_self k'.sched.task nr none))))
]

-- The task `c` is a new child of `parent`: it is runnable, has a whole slice and no pending signal, goes on
-- where the parent called, with the result 0, and has its own 64 MB of addresses and its kernel stack at
-- the end of `page`.
pub record IsChild (nr page last_pid : ℕ) (f : Frame) (parent c : Task) : Type 0 where
  pub runnable : c.state ≡ task_running
  pub named : c.pid ≡ last_pid
  pub fathered : c.father ≡ parent.pid
  pub slice : c.counter ≡ parent.priority
  pub no_signal : c.signal ≡ 0
  pub handlers : c.sigaction ≡ parent.sigaction
  pub result : c.tss.eax ≡ 0
  pub kernel_stack : c.tss.esp0 ≡ add32 page_size page
  pub goes_on : (c.tss.eip ≡ f.eip) × (c.tss.esp ≡ f.esp)
  pub space : c.start_code ≡ nr * 0x400_0000
  pub code_base : get_base (c.ldt 1) ≡ nr * 0x400_0000
  pub data_base : get_base (c.ldt 2) ≡ nr * 0x400_0000

base_back : (nr : ℕ) (d : Desc) → nr < 64 → get_base (set_base (space_of nr) d) ≡ nr * 0x400_0000
unfolding get_base set_base
base_back nr d lt = omega arith

made_child :
    (nr page last_pid jiffies : ℕ) (f : Frame) (parent : Task)
    → nr < 64
    → IsChild nr page last_pid f parent
        (make_runnable (rebase (space_of nr) (child nr page f last_pid jiffies parent)))
unfolding make_runnable rebase child child_tss
made_child nr page last_pid jiffies f parent lt = record {
  runnable = refl;
  named = refl;
  fathered = refl;
  slice = refl;
  no_signal = refl;
  handlers = refl;
  result = refl;
  kernel_stack = refl;
  goes_on = (refl, refl);
  space = omega arith;
  code_base =
      ap get_base (
        update_ne (update parent.ldt 1 (set_base (space_of nr) (parent.ldt 1))) 2 1
          (set_base (space_of nr) (parent.ldt 2)) (omega arith)
        ∙ update_self parent.ldt 1 (set_base (space_of nr) (parent.ldt 1)))
      ∙ base_back nr (parent.ldt 1) lt;
  data_base =
      ap get_base (
        update_self (update parent.ldt 1 (set_base (space_of nr) (parent.ldt 1))) 2
          (set_base (space_of nr) (parent.ldt 2)))
      ∙ base_back nr (parent.ldt 2) lt;
}

-- What a call of copy_process that has returned `r` has made of the entry `nr`.
pub data Forked (nr last_pid : ℕ) (f : Frame) (parent : Task) (r : ℕ) (k' : Kernel) : Type 0 where
  failed : r ≡ minus_one → k'.sched.task nr ≡ none → Forked nr last_pid f parent r k'
  forked :
      {c : Task} (page : ℕ)
      → r ≡ last_pid
      → k'.sched.task nr ≡ some c
      → Described nr page k'
      → IsChild nr page last_pid f parent c
      → Forked nr last_pid f parent r k'

whole : {nr : ℕ} {k : Kernel} → Kept nr k k
whole = record { others = λ i ne. refl; same_pid = refl; same_current = refl }

module _ (nr : ℕ) (f : Frame) (parent : Task) (code_limit data_limit : ℕ) (k : Kernel)
    (lt : nr < 64) where
  judge :
      (page r : ℕ) (k' : Kernel)
      → Made nr page k.last_pid
          (rebase (space_of nr) (child nr page f k.last_pid k.sched.jiffies parent))
          r
          k'
      → Forked nr k.last_pid f parent r k'
  judge page r k' (nothing e empty) = failed e empty
  judge page r k' (process e there bases) =
      forked page e there bases (made_child nr page k.last_pid k.sched.jiffies f parent lt)

  weaken :
      {R S : ℕ → Kernel → Type 0} {o : Out ℕ}
      → Ends nr k R o
      → ((r : ℕ) (k' : Kernel) → R r k' → S r k')
      → Ends nr k S o
  weaken (returns kept p) change = returns kept (change _ _ p)
  weaken (panics kept) change = panics kept
  weaken faults change = faults

  fork_page-Ends :
      (page : ℕ) (m : Mm)
      → k.sched.task nr ≡ none
      → Ends nr k
          (Forked nr k.last_pid f parent)
          (fork_page nr f parent code_limit data_limit page (record k { mm = m }))
  unfolding fork_page install
  fork_page-Ends page m empty = elim (Bool-cases (page == 0)) [
    | inl z ↦ rw (fork_page, z) (returns (like whole refl refl) (failed refl empty))
    | inr nz ↦
        rw (fork_page, nz)
          (weaken
            (then-Ends (finish_fork nr page)
              (copy_mem-Ends parent code_limit data_limit (like (set_task-Kept _ whole) refl refl)
                (update_self k.sched.task nr _))
              (λ r k' kept e. finish_fork-Ends page r kept e))
            (judge page))
  ]

  -- copy_process on a free entry `nr`, called by a task of the table, returns -1 and leaves the entry free,
  -- or returns last_pid, and the entry holds a child of the caller, to which its two descriptors lead; or else it panics or accesses mem_map out
  -- of range. In all but the last of these, every other task, last_pid and current are as before.
  pub copy_process-Forked :
      k.sched.task k.sched.current ≡ some parent
      → k.sched.task nr ≡ none
      → Ends nr k (Forked nr k.last_pid f parent) (copy_process nr f code_limit data_limit k)
  unfolding copy_process
  copy_process-Forked caller empty =
      rw (copy_process, caller)
        (memory-Ends _ (get_free_page k.mm) whole (λ page m. fork_page-Ends page m empty))
