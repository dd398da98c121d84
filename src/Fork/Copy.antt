-- ===== src/Fork/Copy.antt =====
-- A new process: copy_mem and copy_process of kernel/fork.c.
-- get_limit reads the limit of the segment that a selector names: the limits are arguments. The state of
-- the coprocessor is not modelled.
use neu_os.Prelude.{ℕ, ◌+◌, ◌*◌, ◌%◌, ◌^◌, not, none, some, ltb, ◌==◌, if◌then◌else◌, update}
use neu_os.Prelude.Words.{word_mod, minus_one, add32}
use neu_os.Task.{Task, Tss, task_running, task_uninterruptible}
use neu_os.Mm.State.{page_size}
use neu_os.Mm.Page.{get_free_page, free_page}
use neu_os.Mm.Space.{copy_page_tables, free_page_tables}
use neu_os.Kernel.{Act, ok, panic, pure, ◌>>=◌, ◌>>◌, memory, tasks, current, on_task}
use neu_os.Kernel.Segment.{get_base, set_base, set_tssldt_desc}

-- The registers that the system call has put on the stack.
pub record Frame : Type 0 where
  pub ebp : ℕ
  pub edi : ℕ
  pub esi : ℕ
  pub gs : ℕ
  pub ebx : ℕ
  pub ecx : ℕ
  pub edx : ℕ
  pub fs : ℕ
  pub es : ℕ
  pub ds : ℕ
  pub eip : ℕ
  pub cs : ℕ
  pub eflags : ℕ
  pub esp : ℕ
  pub ss : ℕ

-- `nr * 0x4000000`
abbrev pub space_of : ℕ → ℕ
space_of nr = nr * 0x400_0000 % word_mod

-- The descriptors and the start of the code of a task in the space at `base`.
unfoldable pub rebase : ℕ → Task → Task
rebase base t = record t {
  start_code = base;
  ldt = update (update t.ldt 1 (set_base base (t.ldt 1))) 2 (set_base base (t.ldt 2));
}

abbrev stop : Act ℕ
stop k = panic k

-- What copy_mem does with the result of copy_page_tables.
unfoldable pub finish_copy : ℕ → ℕ → ℕ → Act ℕ
finish_copy base data_limit copied =
    if copied == 0 then pure 0 else (do memory (free_page_tables base data_limit); pure minus_one)

-- copy_mem(nr, task[nr]), with the two bases of the current task.
unfoldable pub copy_space : ℕ → ℕ → ℕ → Act ℕ
copy_space nr old_base data_limit = do
  on_task nr (rebase (space_of nr))
  memory (copy_page_tables old_base (space_of nr) data_limit)
      >>= finish_copy (space_of nr) data_limit

unfoldable pub copy_mem : ℕ → Task → ℕ → ℕ → Act ℕ
copy_mem nr parent code_limit data_limit =
    if not (get_base (parent.ldt 1) == get_base (parent.ldt 2))
    then stop
    else if ltb data_limit code_limit
    then stop
    else copy_space nr (get_base (parent.ldt 2)) data_limit

-- `_LDT(nr)`
abbrev ldt_selector : ℕ → ℕ
ldt_selector nr = (nr * 16 + 5 * 8) % word_mod

abbrev half : ℕ → ℕ
half x = x % 2 ^ 16

unfoldable pub child_tss : ℕ → ℕ → Frame → Tss → Tss
child_tss nr page f tss = record tss {
  back_link = 0;
  eflags = f.eflags;
  esp0 = add32 page_size page;
  ss0 = 0x10;
  eip = f.eip;
  eax = 0;
  ecx = f.ecx;
  ebx = f.ebx;
  edx = f.edx;
  esp = f.esp;
  ebp = f.ebp;
  esi = f.esi;
  edi = f.edi;
  es = half f.es;
  cs = half f.cs;
  ds = half f.ds;
  ss = half f.ss;
  fs = half f.fs;
  gs = half f.gs;
  ldt = ldt_selector nr;
  bitmap = 0x8000_0000;
}

-- The copy of the parent's structure, with the fields that copy_process sets before copy_mem.
unfoldable pub child : ℕ → ℕ → Frame → ℕ → ℕ → Task → Task
child nr page f last_pid jiffies parent = record parent {
  state = task_uninterruptible;
  pid = last_pid;
  father = parent.pid;
  counter = parent.priority;
  signal = 0;
  alarm = 0;
  leader = 0;
  utime = 0;
  stime = 0;
  cutime = 0;
  cstime = 0;
  start_time = jiffies;
  tss = child_tss nr page f parent.tss;
}

-- Where `ldt` and `tss` lie in a task structure.
abbrev pub ldt_offset : ℕ
ldt_offset = 620

abbrev pub tss_offset : ℕ
tss_offset = 644

unfoldable pub set_descriptors : ℕ → ℕ → Act (Unit {0})
set_descriptors nr page k = ok tt (record k {
  gdt =
      update (update k.gdt (nr * 2 + 4) (set_tssldt_desc (add32 page tss_offset) 0x89)) (nr * 2 + 5)
        (set_tssldt_desc (add32 page ldt_offset) 0x82);
})

-- `task[nr] = p; *p = *current; ...`
unfoldable pub install : ℕ → ℕ → Frame → Task → Act (Unit {0})
install nr page f parent k = ok tt (record k {
  page_of = update k.page_of nr page;
  sched = record (k.sched) {
    task = update k.sched.task nr (some (child nr page f k.last_pid k.sched.jiffies parent));
  };
})

unfoldable pub make_runnable : Task → Task
make_runnable t = record t { state = task_running }

unfoldable pub read_last_pid : Act ℕ
read_last_pid k = ok k.last_pid k

unfoldable pub clear_slot : ℕ → Act (Unit {0})
clear_slot nr k =
    ok tt (record k { sched = record (k.sched) { task = update k.sched.task nr none } })

-- The end of copy_process, after copy_mem.
unfoldable pub finish_fork : ℕ → ℕ → ℕ → Act ℕ
finish_fork nr page failed =
    if failed == 0
    then (do set_descriptors nr page; on_task nr make_runnable; read_last_pid)
    else (do clear_slot nr; memory (free_page page); pure minus_one)

unfoldable pub fork_page : ℕ → Frame → Task → ℕ → ℕ → ℕ → Act ℕ
fork_page nr f parent code_limit data_limit page = if page == 0 then pure minus_one else (do
  install nr page f parent
  copy_mem nr parent code_limit data_limit >>= finish_fork nr page)

-- copy_process; `current` stands in the table.
unfoldable pub copy_process : ℕ → Frame → ℕ → ℕ → Act ℕ
copy_process nr f code_limit data_limit = do
  ts ← tasks
  me ← current
  elim (ts me) [
    | none ↦ stop
    | some parent ↦ memory get_free_page >>= fork_page nr f parent code_limit data_limit
  ]
