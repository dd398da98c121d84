-- ===== src/Lib.antt =====
-- A verification of neu-os, a small Unix-like kernel for the 80386 in C.
--
-- Parts, and the files that model them:
--   Mm       mm/memory.c, mm/mm_test.c: the physical page allocator (Mm/Page), the page tables and the
--            fault for a missing page (Mm/Table), the fault for a shared page (Mm/Share), and whole
--            address spaces, with verify_area of kernel/fork.c (Mm/Space). Memory is a
--            map from addresses to words, in which the page directory and the tables lie; an operation
--            is a command on it, which can panic or access mem_map out of range (Mm/State).
--   Task     include/linux/sched.h: the task structure and the task table; Task/Init is INIT_TASK.
--   Sched    kernel/sched.c: schedule, with its signal loop, its selection and its recharging of
--            counters, wake_up, do_timer, sys_alarm, sys_pause, and sys_sleep of kernel/sys.c. Sched/Wait
--            has sleep_on and interruptible_sleep_on, as steps between the calls of schedule.
--   Kernel   what the process calls share: memory, tasks, the descriptor table (Kernel/Segment, with
--            include/asm/system.h), and the ways in which a call of them can end.
--   Fork     kernel/fork.c: find_empty_process, and copy_mem and copy_process (Fork/Copy).
--   Exit     kernel/exit.c: release, tell_father, do_exit and sys_exit; Exit/Waitpid is sys_waitpid.
--   Syscall  include/linux/sys.h, include/unistd.h: the table of system calls and its numbers. Syscall/Call and
--            Syscall/Return are kernel/system_call.s: system_call, ret_from_syscall, sys_fork and
--            timer_interrupt, which join Sched, Fork, Signal and Kernel.
--   Trap     kernel/traps.c, kernel/panic.c: the handlers of exceptions, over printk.
--   Report   the functions that print the state: calc_mem, mm_print_pageinfo, show_task_info and
--            dump_sigaction.
--   Boot     the start: main of init/main.c up to sti(), trap_init of kernel/traps.c, sched_init of
--            kernel/sched.c, con_init of vga_console.c. The ports are a list of writes, and what a read
--            of a port gives is a parameter.
--   Signal   kernel/signal.c and, of kernel/exit.c, send_sig and sys_kill. schedule (Sched) wakes the
--            tasks whose signals these set. do_signal and sys_sigaction are commands on the memory of Mm,
--            since verify_area may change it or panic; the words that they write to the user are results.
--   Tty      kernel/chr_drv/tty_queue.c and, of tty_io.c, sleep_if_empty: the character queues between
--            the keyboard, the reading process and the console. What the others do while a process sleeps
--            is a sequence of calls, which the theorems quantify over; Tty/Queue/Calls has the calls of a
--            process that runs. Tty/Line takes the characters typed
--            through copy_to_buffer to the screen, with con_write of vga_console.c; Tty/Read is tty_read,
--            and Tty/Text has printk (kernel/printk.c), printf and getline (lib/printf.c, lib/getline.c);
--            Tty/Text/Lines is several calls of printk.
--   Keyboard kernel/chr_drv/do_keyboard.c: from a scan code to a character for Tty/Line.
--   Console  kernel/chr_drv/vga_console.c: the text screen and its cursor.
--   Block    kernel/blk_drv/request_scan_algo.c, blk.h: the table of block requests, with
--            make_request (Block/Make), which wakes tasks by Sched.
--   Print    kernel/vsprintf.c: formatted text as a list of characters. Print/Serial is
--            kernel/serial_debug.c, which formats in the same way onto a port.
--   Prelude  tests, arrays as maps, lists, 32-bit words and their bits.
-- A function keeps the name that it has in C; a helper stands for a branch or a loop of one. A C function
-- that writes to an object takes and returns the object. A `long` is its 32-bit pattern, and a signed
-- comparison is `slt`.
--
-- Fuel: a loop without a counter takes its rounds as an argument, and gives none when they run out.
-- `choose` (schedule) needs two, one that finds the counters used up and one after the recharge;
-- `stat_loop` needs 1024, the size of the queue; `find_slot` (make_request) decides in its first round;
-- `tab_loop` needs 7; con_write and copy_to_buffer need one more than there are characters queued;
-- `find_place` (add_request) needs one for each request in the list; `digit_loop` needs one for each
-- digit and one more; `pid_loop` needs one for each number in use and one more; `verify_loop` needs one
-- for each page of the area; seek_end (tty_read) needs one for each character behind those wanted, getline
-- one for each it reads; `wait` (s_putchar) needs as many as the transmitter can be busy. The other loops
-- count down.
--
-- schedule returns to its caller only when the caller is chosen again: a call that schedule leaves for
-- another process ends with the place where its process goes on, and Syscall/Call has how it goes on.
--
-- Not modelled: boot code and the entry points of asm.s and page.s, the debug output of the other parts,
-- the floating-point state, and demonstrations. A 32-bit access is to an aligned address; an interrupt between two statements is modelled
-- only where the code sleeps.
pub mod Block
pub mod Boot
pub mod Console
pub mod Exit
pub mod Fork
pub mod Kernel
pub mod Keyboard
pub mod Mm
pub mod Prelude
pub mod Print
pub mod Report
pub mod Sched
pub mod Signal
pub mod Syscall
pub mod Task
pub mod Trap
pub mod Tty
