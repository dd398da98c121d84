-- ===== src/Trap.antt =====
-- The handlers of kernel/traps.c that asm.s calls for an exception, and panic of kernel/panic.c. They print by
-- printk; die and panic then loop for ever.
-- The kernel's memory is `phys`; `str` and `lsl` are instructions: the task register and the limit of the
-- segment 0x17 are arguments, and so is get_base(current->ldt[1]).
pub mod Halt
mod Examples
use neu_os.Prelude.{ℕ, ◌+◌, ◌*◌, ◌%◌, ◌^◌, Option, none, some, List, [], ◌∷◌}
use neu_os.Print.{Arg, int, string}
use neu_os.Tty.Line.{Terminal}
use neu_os.Tty.Text.Lines.{Line, codes, print_lines}

-- How a handler ends: in `for(;;)`, or by a return; or a text does not fit, or the rounds run out.
pub data Handled : Type 0 where
  halts returns : Terminal → Handled
  lost : Handled

abbrev halting : Option Terminal → Handled
halting none = lost
halting (some t) = halts t

abbrev returning : Option Terminal → Handled
returning none = lost
returning (some t) = returns t

-- `esp[i]`
abbrev pub word : (ℕ → ℕ) → ℕ → ℕ → ℕ
word phys esp i = phys (esp + 4 * i)

-- What the processor has, for the handlers' messages.
pub record Machine : Type 0 where
  pub phys : ℕ → ℕ
  pub code_base : ℕ
  pub limit : ℕ
  pub tr : ℕ

unfoldable pub die_lines : List ℕ → ℕ → ℕ → Machine → List Line
die_lines str esp nr m =
    (codes "%s: %x\n", string str ∷ int (nr % 2 ^ 16) ∷ [])
    ∷ (
      codes "EIP: 0x%x:0x%x\n EFLAGS: 0x%x\n ESP 0x%x:0x%x\n",
      int (word m.phys esp 1)
          ∷ int (word m.phys esp 0)
          ∷ int (word m.phys esp 2)
          ∷ int (word m.phys esp 4)
          ∷ int (word m.phys esp 3)
          ∷ [],
    )
    ∷ (codes "base 0x%x, limit 0x%x\n", int m.code_base ∷ int m.limit ∷ [])
    ∷ (codes "No Process now, System HALT!   :(\n", [])
    ∷ []

-- The registers that no_error_code and error_code of asm.s save.
pub record Saved : Type 0 where
  pub fs : ℕ
  pub es : ℕ
  pub ds : ℕ
  pub ebp : ℕ
  pub esi : ℕ
  pub edi : ℕ
  pub edx : ℕ
  pub ecx : ℕ
  pub ebx : ℕ
  pub eax : ℕ

unfoldable pub int3_lines : ℕ → ℕ → Saved → Machine → List Line
int3_lines esp error_code r m =
    (
      codes "eax\tebx\tecx\tedx\t\n%x\t%x\t%x\t%x\n",
      int r.eax ∷ int r.ebx ∷ int r.ecx ∷ int r.edx ∷ [],
    )
    ∷ (
      codes "esi\tedi\tebp\tesp\t\n%x\t%x\t%x\t%x\n",
      int r.esi ∷ int r.edi ∷ int r.ebp ∷ int esp ∷ [],
    )
    ∷ (codes "ds\tes\tfs\ttr\n%x\t%x\t%x\t%x\n", int r.ds ∷ int r.es ∷ int r.fs ∷ int m.tr ∷ [])
    ∷ (
      codes "EIP: %x    CS:%x     EFLAGS: %x",
      int (word m.phys esp 0) ∷ int (word m.phys esp 1) ∷ int (word m.phys esp 2) ∷ [],
    )
    ∷ (codes "errno = %d", int error_code ∷ [])
    ∷ []

module _ (rounds digits : ℕ) where
  unfoldable pub panic : List ℕ → Terminal → Handled
  panic str t =
      halting (print_lines rounds digits ((codes "Kernel Panic: %s\n", string str ∷ []) ∷ []) t)

  module _ (m : Machine) where
    unfoldable pub die : List ℕ → ℕ → ℕ → Terminal → Handled
    unfolding die_lines
    die str esp nr t = halting (print_lines rounds digits (die_lines str esp nr m) t)

    unfoldable pub do_double_fault : ℕ → ℕ → Terminal → Handled
    unfolding die
    do_double_fault esp error_code = die (codes "double fault") esp error_code

    unfoldable pub do_general_protection : ℕ → ℕ → Terminal → Handled
    unfolding die
    do_general_protection esp error_code = die (codes "general protection") esp error_code

    unfoldable pub do_divide_error : ℕ → ℕ → Terminal → Handled
    unfolding die
    do_divide_error esp error_code = die (codes "divide error") esp error_code

    unfoldable pub do_int3 : ℕ → ℕ → Saved → Terminal → Handled
    unfolding int3_lines
    do_int3 esp error_code r t =
        returning (print_lines rounds digits (int3_lines esp error_code r m) t)

    unfoldable pub do_nmi : ℕ → ℕ → Terminal → Handled
    unfolding die
    do_nmi esp error_code = die (codes "nmi") esp error_code

    unfoldable pub do_debug : ℕ → ℕ → Terminal → Handled
    unfolding die
    do_debug esp error_code = die (codes "debug") esp error_code

    unfoldable pub do_overflow : ℕ → ℕ → Terminal → Handled
    unfolding die
    do_overflow esp error_code = die (codes "overflow") esp error_code

    unfoldable pub do_bounds : ℕ → ℕ → Terminal → Handled
    unfolding die
    do_bounds esp error_code = die (codes "bounds") esp error_code

    unfoldable pub do_invalid_op : ℕ → ℕ → Terminal → Handled
    unfolding die
    do_invalid_op esp error_code = die (codes "invalid operand") esp error_code

    unfoldable pub do_device_not_available : ℕ → ℕ → Terminal → Handled
    unfolding die
    do_device_not_available esp error_code = die (codes "device not available") esp error_code

    unfoldable pub do_coprocessor_segment_overrun : ℕ → ℕ → Terminal → Handled
    unfolding die
    do_coprocessor_segment_overrun esp error_code =
        die (codes "coprocessor segment overrun") esp error_code

    unfoldable pub do_invalid_tss : ℕ → ℕ → Terminal → Handled
    unfolding die
    do_invalid_tss esp error_code = die (codes "invalid TSS") esp error_code

    unfoldable pub do_segment_not_present : ℕ → ℕ → Terminal → Handled
    unfolding die
    do_segment_not_present esp error_code = die (codes "segment not present") esp error_code

    unfoldable pub do_stack_segment : ℕ → ℕ → Terminal → Handled
    unfolding die
    do_stack_segment esp error_code = die (codes "stack segment") esp error_code

    unfoldable pub do_coprocessor_error : ℕ → ℕ → Terminal → Handled
    unfolding die
    do_coprocessor_error esp error_code = die (codes "coprocessor error") esp error_code

    unfoldable pub do_reserved : ℕ → ℕ → Terminal → Handled
    unfolding die
    do_reserved esp error_code = die (codes "reserved(15, 17-47)error") esp error_code

    unfoldable pub do_stub : ℕ → ℕ → Terminal → Handled
    do_stub esp error_code t = returning (
        print_lines rounds digits
          ((codes "stub interrupt! %x, %x\n", int esp ∷ int error_code ∷ []) ∷ []) t)
