-- ===== src/Tty/Line.antt =====
-- The terminal of kernel/chr_drv/tty_io.c (struct in include/linux/tty.h) from the keyboard's queue to
-- the screen: copy_to_buffer, tty_write, the kernel's end of _user_tty_write, and con_write of
-- vga_console.c. tty_init makes con_write the terminal's `write`, and nothing changes that.
-- A loop whose condition is that a queue is not empty takes from it without a sleep.
pub mod Output
pub mod Input
use Prim.Native.Nat.{bit_or}
use neu_os.Prelude.{
  ℕ, zero, suc, ◌%◌, Bool, ◌||◌, not, Option, none, some, List, [], ◌∷◌, ◌==◌, if◌then◌else◌,
}
use neu_os.Prelude.Words.{sub32}
use neu_os.Task.{Table}
use neu_os.Sched.{wake_up}
use neu_os.Console.{Vga, video_putchar}
use neu_os.Tty.Queue.{
  Queue, tty_buf_size, tty_isempty_q, tty_isfull_q, take_head, tty_push_q, tty_queue_tail,
}

abbrev tty_echo : ℕ
tty_echo = 1

-- `struct tty_struct` with the screen and the tasks that its functions reach; `pgrp` is never read.
pub record Terminal : Type 0 where
  pub flags : ℕ
  pub read_q : Queue
  pub write_q : Queue
  pub buffer : Queue
  pub screen : Vga
  pub task : Table

-- One round of con_write.
unfoldable pub show_char : Terminal → Terminal
unfolding take_head
show_char t =
    let (ch, q) = take_head t.write_q in
    record t { write_q = q; screen = video_putchar ch t.screen }

-- con_write; none when the rounds run out.
unfoldable pub con_write : ℕ → Terminal → Option Terminal
unfolding show_char
con_write zero t = none
con_write (suc rounds) t =
    let rest = con_write rounds (show_char t) in if tty_isempty_q t.write_q then some t else rest

unfoldable pub tty_write : ℕ → Terminal → Option Terminal
tty_write rounds t = con_write rounds t

-- The branches of copy_to_buffer on the character; none for `continue`.
unfoldable pub edit : ℕ → Terminal → Option Terminal
edit ch t =
    if ch == 8
    then (if tty_isempty_q t.buffer || (tty_queue_tail t.buffer == 10)
        then none
        else some (record t {
          buffer = record (t.buffer) { tail = sub32 t.buffer.tail 1 % tty_buf_size };
        }))
    else if (ch == 255) || (ch == 10)
    then (let pushed = (tty_push_q t.buffer ch).1 in
        let (wait, tasks) = wake_up pushed.wait_proc t.task in
        some (record t { buffer = record pushed { wait_proc = wait }; task = tasks }))
    else some
        (if tty_isfull_q t.buffer then t else record t { buffer = (tty_push_q t.buffer ch).1 })

-- `if (tty->flags | TTY_ECHO)`
unfoldable pub echo : ℕ → ℕ → Terminal → Option Terminal
echo rounds ch t =
    let shown = con_write rounds (record t { write_q = (tty_push_q t.write_q ch).1 }) in
    if bit_or t.flags tty_echo == 0 then some t else shown

-- One round of copy_to_buffer.
unfoldable pub copy_char : ℕ → Terminal → Option Terminal
unfolding edit echo
copy_char rounds t =
    let (ch, q) = take_head t.read_q in
    let popped = record t { read_q = q } in
    elim (edit ch popped) [ none ↦ some popped | some edited ↦ echo rounds ch edited ]

-- copy_to_buffer: its loop, with the rounds of the loop inside it.
unfoldable pub copy_to_buffer : ℕ → ℕ → Terminal → Option Terminal
unfolding copy_char
copy_to_buffer inner zero t = none
copy_to_buffer inner (suc rounds) t =
    let rest : Option Terminal = elim (copy_char inner t) [
      | none ↦ none
      | some t' ↦ copy_to_buffer inner rounds t'
    ] in
    if tty_isempty_q t.read_q then some t else rest

-- The loop of _user_tty_write over the characters read from user space, and its write.
unfoldable pub push_all : List ℕ → Queue → Queue
push_all [] q = q
push_all (c ∷ cs) q = push_all cs (tty_push_q q c).1

unfoldable pub user_tty_write : ℕ → List ℕ → Terminal → Option Terminal
unfolding push_all tty_write
user_tty_write rounds chars t = tty_write rounds (record t { write_q = push_all chars t.write_q })
