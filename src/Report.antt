-- ===== src/Report.antt =====
-- The functions that report on the state: calc_mem of mm/memory.c by printk, mm_print_pageinfo of mm/mm_test.c,
-- show_task_info of kernel/sched.c and dump_sigaction of kernel/signal.c by s_printk.
pub mod Calc
mod Examples
use neu_os.Prelude.{
  ℕ, zero, suc, ◌+◌, ◌*◌, ◌/◌, ◌%◌, Option, none, some, List, [], ◌∷◌, ◌++◌, ◌==◌, if◌then◌else◌,
}
use neu_os.Task.{Task, Sigaction}
use neu_os.Mm.State.{Mm, Run, paging_pages, frame, present}
use neu_os.Mm.Page.{count_free}
use neu_os.Mm.Table.{linear_to_pte}
use neu_os.Print.{int}
use neu_os.Print.Serial.{Serial, then_do, s_printk}
use neu_os.Tty.Line.{Terminal}
use neu_os.Tty.Text.Lines.{Line, codes, print_lines}

-- The loop over `j`: the present entries among `n` from address `a` on.
unfoldable pub count_present : ℕ → ℕ → (ℕ → ℕ) → ℕ
count_present zero a phys = 0
count_present (suc n) a phys = (if present (phys a) then 1 else 0) + count_present n (a + 4) phys

-- The loop over `i`: `n` entries of the page directory from the `i`-th on.
unfoldable pub dir_lines : ℕ → ℕ → (ℕ → ℕ) → List Line
unfolding count_present
dir_lines zero i phys = []
dir_lines (suc n) i phys =
    let rest = dir_lines n (i + 1) phys in
    let used = count_present 1024 (frame (phys (4 * i))) phys in
    if present (phys (4 * i))
    then (codes "PageDir[%d] uses %d pages\n", int i ∷ int used ∷ []) ∷ rest
    else rest

unfoldable pub calc_lines : Mm → List Line
unfolding dir_lines
calc_lines m =
    (
      codes "%d pages free (of %d in total)\n",
      int (count_free paging_pages m.mem_map) ∷ int paging_pages ∷ [],
    )
    ∷ dir_lines 1022 2 m.phys

unfoldable pub calc_mem : ℕ → ℕ → Mm → Terminal → Option Terminal
unfolding calc_lines
calc_mem rounds digits m t = print_lines rounds digits (calc_lines m) t

-- A line when a bit is set, and one when it is not.
abbrev flag : ℕ → ℕ → List ℕ → List ℕ → Line
flag bit entry yes_ no_ = (if entry / bit % 2 == 1 then yes_ else no_, [])

unfoldable pub pageinfo_lines : ℕ → ℕ → ℕ → List Line
pageinfo_lines addr pte entry =
    (codes "[DEBUG] Linear addr: 0x%x, PTE addr = 0x%x. Flags[ ", int addr ∷ int pte ∷ [])
    ∷ flag 1 entry (codes "P ") []
    ∷ flag 2 entry (codes "R/W ") (codes "RO ")
    ∷ flag 4 entry (codes "U/S ") (codes "S ")
    ∷ (codes "]\n", [])
    ∷ (codes "[DEBUG] Phyaddr = %x\n", int (frame entry) ∷ [])
    ∷ []

unfoldable pub task_lines : Task → Task → List Line
task_lines task current =
    (codes "Current task Info\n================\n", [])
    ∷ (codes "pid = %d\n", int task.state ∷ [])
    ∷ (codes "counter = %d\n", int task.counter ∷ [])
    ∷ (codes "start_code = %x\n", int task.start_code ∷ [])
    ∷ (codes "end_code = %x\n", int task.end_code ∷ [])
    ∷ (codes "brk = %x\n", int (current.ldt 0).a ∷ [])
    ∷ (codes "gid = 0x%x\n", int current.gid ∷ [])
    ∷ (codes "tss.ldt = 0x%x\n", int current.tss.ldt ∷ [])
    ∷ []

unfoldable pub sigaction_lines : ℕ → Sigaction → List Line
sigaction_lines address action =
    (codes "[DEBUG] Sigaction dump\n", [])
    ∷ (
      codes "[DEBUG] addr = 0x%x, sa_mask = 0x%x, sa_handler = 0x%x, sa_restorer = 0x%x\n",
      int address ∷ int action.sa_mask ∷ int action.sa_handler ∷ int action.sa_restorer ∷ [],
    )
    ∷ []

module _ (status : ℕ → ℕ) (patience rounds : ℕ) where
  -- s_printk of each line.
  unfoldable pub send_lines : List Line → Serial → Option Serial
  send_lines [] s = some s
  send_lines (l ∷ ls) s = then_do (s_printk status patience rounds l.0 l.1 s) (send_lines ls)

  unfoldable pub mm_print_pageinfo : ℕ → Mm → Serial → Option Serial
  unfolding send_lines pageinfo_lines
  mm_print_pageinfo addr m s = elim (linear_to_pte addr m) [
    | Run.ok pte m' ↦ send_lines (pageinfo_lines addr pte (m'.phys pte)) s
    | _ ↦ none
  ]

  unfoldable pub show_task_info : Task → Task → Serial → Option Serial
  unfolding send_lines task_lines
  show_task_info task current s = send_lines (task_lines task current) s

  unfoldable pub dump_sigaction : ℕ → Sigaction → Serial → Option Serial
  unfolding send_lines sigaction_lines
  dump_sigaction address action s = send_lines (sigaction_lines address action) s
