-- ===== src/Boot.antt =====
-- The start of the kernel up to its first process: the calls of main (init/main.c), with trap_init of
-- kernel/traps.c, sched_init of kernel/sched.c, and tty_init and con_init of the terminal.
-- The handlers are written in assembly: their addresses are a parameter, and so are those of the
-- structures of task 0, and what a port reads after the writes so far. ltr, lldt and the flags of the
-- processor are not modelled.
pub mod Gates
pub mod Tasks
pub mod Lines
mod Examples
use neu_os.Prelude.{
  ℕ, zero, suc, ◌+◌, ◌-◌, ◌*◌, ◌/◌, ◌%◌, ◌^◌, Option, none, some, List, [], ◌∷◌, update,
}
use neu_os.Task.{Task, Table, Desc, nr_tasks}
use neu_os.Kernel.Segment.{set_gate, set_tssldt_desc}
use neu_os.Console.{Vga, video_init}
use neu_os.Mm.State.{Mm, Run}
use neu_os.Mm.Page.{mem_init}

-- The entry points of asm.s, page.s, keyboard.s and system_call.s.
pub record Handlers : Type 0 where
  pub divide_error : ℕ
  pub debug : ℕ
  pub nmi : ℕ
  pub int3 : ℕ
  pub overflow : ℕ
  pub bounds : ℕ
  pub invalid_op : ℕ
  pub device_not_available : ℕ
  pub double_fault : ℕ
  pub coprocessor_segment_overrun : ℕ
  pub invalid_tss : ℕ
  pub segment_not_present : ℕ
  pub stack_segment : ℕ
  pub general_protection : ℕ
  pub page_fault : ℕ
  pub reserved : ℕ
  pub coprocessor_error : ℕ
  pub irq13 : ℕ
  pub parallel_interrupt : ℕ
  pub timer_interrupt : ℕ
  pub keyboard_interrupt : ℕ
  pub system_call : ℕ

-- The ports that have been written stand in the screen's list.
pub record Machine : Type 0 where
  pub idt : ℕ → Desc
  pub gdt : ℕ → Desc
  pub task : Table
  pub screen : Vga
  pub mm : Mm

abbrev pub Step : Type 0
Step = Machine → Machine

infixl 5 ◌>>◌
abbrev pub ◌>>◌ : Step → Step → Step
(f >> g) m = g (f m)

abbrev gate : ℕ → ℕ → ℕ → ℕ → Step
gate type dpl n addr m = record m { idt = update m.idt n (set_gate type dpl addr) }

unfoldable pub set_trap_gate : ℕ → ℕ → Step
set_trap_gate n addr = gate 0xf 0 n addr

unfoldable pub set_intr_gate : ℕ → ℕ → Step
set_intr_gate n addr = gate 0xe 0 n addr

unfoldable pub set_system_gate : ℕ → ℕ → Step
set_system_gate n addr = gate 0xf 3 n addr

abbrev pub outb : ℕ → ℕ → Step
outb port value m = record m {
  screen = record (m.screen) { ports = (port, value % 256) ∷ m.screen.ports };
}

-- `for(i = 17; i < 48; i++)`: `n` vectors from `i` on.
unfoldable pub reserve : ℕ → ℕ → ℕ → Step
unfolding set_trap_gate
reserve zero i addr m = m
reserve (suc n) i addr m = reserve n (i + 1) addr (set_trap_gate i addr m)

-- `x & 0xfb`, `x & 0xdf`, `x & 0xfd` and `x & ~0x01` on a byte.
abbrev pub without : ℕ → ℕ → ℕ
without b x = x - x / b % 2 * b

unfoldable pub exception_gates : Handlers → Step
unfolding set_trap_gate set_system_gate
exception_gates h =
    set_trap_gate 0 h.divide_error
    >> set_trap_gate 1 h.debug
    >> set_trap_gate 2 h.nmi
    >> set_system_gate 3 h.int3
    >> set_system_gate 4 h.overflow
    >> set_system_gate 5 h.bounds
    >> set_trap_gate 6 h.double_fault
    >> set_trap_gate 7 h.device_not_available
    >> set_trap_gate 8 h.double_fault
    >> set_trap_gate 9 h.coprocessor_segment_overrun
    >> set_trap_gate 10 h.invalid_tss
    >> set_trap_gate 11 h.segment_not_present
    >> set_trap_gate 12 h.stack_segment
    >> set_trap_gate 13 h.general_protection
    >> set_trap_gate 14 h.page_fault
    >> set_trap_gate 15 h.reserved
    >> set_trap_gate 16 h.coprocessor_error

-- `task[i] = NULL`, and `p->a = p->b = 0` for the two descriptors of the task.
unfoldable pub clear_task : ℕ → Step
clear_task i m = record m {
  task = update m.task i none;
  gdt =
      update (update m.gdt (4 + 2 * i) (record { a = 0; b = 0 })) (5 + 2 * i)
        (record { a = 0; b = 0 });
}

-- The loop of sched_init: `n` tasks from `i` on.
unfoldable pub clear_tasks : ℕ → ℕ → Step
unfolding clear_task
clear_tasks zero i m = m
clear_tasks (suc n) i m = clear_tasks n (i + 1) (clear_task i m)

unfoldable pub task_zero : ℕ → ℕ → Step
task_zero tss ldt m = record m {
  gdt = update (update m.gdt 4 (set_tssldt_desc tss 0x89)) 5 (set_tssldt_desc ldt 0x82);
}

module _ (inb : List (ℕ × ℕ) → ℕ → ℕ) where
  -- `outb(port, inb_p(port) & ...)`, where `b` is the bit that is taken out.
  unfoldable pub unmask : ℕ → ℕ → Step
  unmask port b m = outb port (without b (inb m.screen.ports port)) m

  unfoldable pub trap_init : Handlers → Step
  unfolding set_trap_gate exception_gates reserve unmask
  trap_init h =
      exception_gates h
      >> reserve 31 17 h.reserved
      >> set_trap_gate 45 h.irq13
      >> unmask 0x21 4
      >> unmask 0xa1 32
      >> set_trap_gate 39 h.parallel_interrupt

  -- `1193180/HZ` is 11931.
  unfoldable pub sched_init : Handlers → ℕ → ℕ → Step
  unfolding set_intr_gate set_system_gate task_zero clear_tasks unmask
  sched_init h tss ldt =
      task_zero tss ldt
      >> clear_tasks (nr_tasks - 1) 1
      >> outb 0x43 0x36
      >> outb 0x40 (11931 % 256)
      >> outb 0x40 (11931 / 256)
      >> set_intr_gate 0x20 h.timer_interrupt
      >> unmask 0x21 1
      >> set_system_gate 0x80 h.system_call

  -- The two writes to port 0x61 that acknowledge the keyboard.
  unfoldable pub acknowledge : Step
  acknowledge m = let a = inb m.screen.ports 0x61 in (outb 0x61 (a % 128 + 128) >> outb 0x61 a) m

  unfoldable pub con_init : Handlers → Step
  unfolding set_trap_gate unmask acknowledge
  con_init h =
      set_trap_gate 0x21 h.keyboard_interrupt
      >> (λ m. record m { screen = video_init m.screen })
      >> unmask 0x21 2
      >> acknowledge

  -- mem_init, which can access mem_map out of range; none for that.
  unfoldable pub with_memory : Machine → Run (Unit {0}) → Option Machine
  with_memory m (Run.ok u mm) = some (record m { mm = mm })
  with_memory m (Run.panic mm) = none
  with_memory m Run.fault = none

  -- The calls of main up to `sti()`.
  unfoldable pub start : Handlers → ℕ → ℕ → Machine → Option Machine
  unfolding trap_init sched_init con_init with_memory
  start h tss ldt m =
      let prepared : Machine =
        (trap_init h >> sched_init h tss ldt) (record m { screen = video_init m.screen }) in
      elim (with_memory prepared (mem_init 0x100000 0x300000 prepared.mm)) [
        | none ↦ none
        | some ready ↦ some (con_init h ready)
      ]
