-- ===== src/Tty/Queue.antt =====
-- The character ring of kernel/chr_drv/tty_queue.c (struct in include/linux/tty.h) and the sleep of
-- its consumer, sleep_if_empty in kernel/chr_drv/tty_io.c.
-- A function that writes through its `struct tty_queue *` returns the new queue; a `char` is its
-- byte. The array is a map from indices, which the code's `% TTY_BUF_SIZE` keeps below 1024.
pub mod Calls
pub mod Contents
pub mod Pop
pub mod Refine
pub mod Sleep
pub mod Stat
mod Examples
use neu_os.Prelude.{
  ℕ, zero, suc, ◌+◌, ◌%◌, ◌≡◌, Bool, true, false, ◌&&◌, not, Option, none, some, List, [], ◌∷◌,
  ◌==◌, if◌then◌else◌, update,
}
use neu_os.Prelude.Words.{add32, sub32, minus_one}

abbrev pub tty_buf_size : ℕ
tty_buf_size = 1024

-- `wait_proc` is the task number of the process that waits, none for NULL.
pub record Queue : Type 0 where
  pub buf : ℕ → ℕ
  pub wait_proc : Option ℕ
  pub head : ℕ
  pub tail : ℕ

unfoldable pub tty_isempty_q : Queue → Bool
tty_isempty_q q = q.head == q.tail

unfoldable pub tty_isfull_q : Queue → Bool
tty_isfull_q q = add32 q.tail 1 % tty_buf_size == q.head

-- tty_pop_q after its sleep: the character at the head, and the queue without it.
unfoldable pub take_head : Queue → ℕ × Queue
take_head q = (q.buf q.head, record q { head = add32 q.head 1 % tty_buf_size })

unfoldable pub tty_push_q : Queue → ℕ → ℕ × Queue
unfolding tty_isfull_q
tty_push_q q ch =
    if tty_isfull_q q
    then (minus_one, q)
    else (0, record q { buf = update q.buf q.tail ch; tail = add32 q.tail 1 % tty_buf_size })

unfoldable pub tty_push_q_front : Queue → ℕ → ℕ × Queue
unfolding tty_isfull_q
tty_push_q_front q ch =
    let h = sub32 q.head 1 % tty_buf_size in
    if tty_isfull_q q then (minus_one, q) else (0, record q { head = h; buf = update q.buf h ch })

unfoldable pub tty_queue_head : Queue → ℕ
tty_queue_head q = q.buf q.head

unfoldable pub tty_queue_tail : Queue → ℕ
tty_queue_tail q = q.buf q.tail

-- What tty_queue_stat prints between its brackets: a character, or the mark `#` behind the last one.
pub data Shown : Type 0 where
  char : ℕ → Shown
  mark : Shown

-- The `for` loop of tty_queue_stat; none when the rounds run out.
unfoldable pub stat_loop : ℕ → Queue → ℕ → Option (List Shown)
stat_loop zero q i = none
stat_loop (suc rounds) q i =
    let rest = stat_loop rounds q (add32 i 1 % tty_buf_size) in
    if i == q.tail then some [] else elim rest [
      | none ↦ none
      | some shown ↦
          some
            (char (q.buf i) ∷ (if i == sub32 q.tail 1 % tty_buf_size then mark ∷ shown else shown))
    ]

unfoldable pub tty_queue_stat : ℕ → Queue → Option (List Shown)
unfolding stat_loop
tty_queue_stat rounds q = stat_loop rounds q q.head

-- What others do to a queue while a process sleeps on it: pushes, and pops behind a test that it holds something,
-- as con_write makes them. The `tail--` of the line editor is no such call.
pub data Op : Type 0 where
  push push_front : ℕ → Op
  pop : Op

unfoldable pub apply : Op → Queue → Queue
unfolding tty_push_q tty_push_q_front take_head tty_isempty_q
apply (push ch) q = (tty_push_q q ch).1
apply (push_front ch) q = (tty_push_q_front q ch).1
apply pop q = if tty_isempty_q q then q else (take_head q).1

unfoldable pub apply_all : List Op → Queue → Queue
unfolding apply
apply_all [] q = q
apply_all (o ∷ os) q = apply_all os (apply o q)

-- One sleep of a process in interruptible_sleep_on: what the others did to the queue meanwhile, and
-- whether the process has a signal when it runs again.
pub record Wake : Type 0 where
  pub meanwhile : List Op
  pub signalled : Bool

-- interruptible_sleep_on(&q->wait_proc) as the sleeper `me` sees it: it stands in `wait_proc` while
-- it sleeps, and puts the former entry back. No other process sleeps on the queue meanwhile.
unfoldable pub sleep_once : ℕ → Wake → Queue → Queue
unfolding apply_all
sleep_once me w q = record (apply_all w.meanwhile (record q { wait_proc = some me })) {
  wait_proc = q.wait_proc;
}

-- sleep_if_empty of process `me`, which has a signal or not: a wake is consumed for each sleep, and
-- none means that the process still sleeps when the wakes are used up. The result says whether the
-- process has a signal at the end.
unfoldable pub sleep_if_empty : ℕ → Bool → Queue → List Wake → Option (Bool × Queue × List Wake)
unfolding tty_isempty_q sleep_once
sleep_if_empty me signal q [] = if not signal && tty_isempty_q q then none else some (signal, q, [])
sleep_if_empty me signal q (w ∷ ws) =
    let again = sleep_if_empty me w.signalled (sleep_once me w q) ws in
    if not signal && tty_isempty_q q then again else some (signal, q, w ∷ ws)

unfoldable pub tty_pop_q : ℕ → Bool → Queue → List Wake → Option (ℕ × Bool × Queue × List Wake)
unfolding sleep_if_empty take_head
tty_pop_q me signal q ws = elim (sleep_if_empty me signal q ws) [
  | none ↦ none
  | some (signal', q', ws') ↦ some ((take_head q').0, signal', (take_head q').1, ws')
]
