-- ===== src/Tty/Queue/Examples.antt =====
-- A queue of two characters that goes round the end of its array, and an empty one.
use neu_os.Prelude.{ℕ, ◌≡◌, refl, false, none, some, List, [], ◌∷◌, arith, ◌==◌, if◌then◌else◌}
use neu_os.Tty.Queue.{Queue, Op, Wake, push, push_front, pop, tty_isempty_q, tty_pop_q}
use neu_os.Tty.Queue.Contents.{IsValid, contents}
use neu_os.Tty.Queue.Calls.{call_all, Agree, call_all-Agree}
use neu_os.Tty.Queue.Pop.{tty_pop_q-woken}

abbrev letters : ℕ → ℕ
letters i = if i == 1023 then 97 else if i == 0 then 98 else 0

abbrev two_chars : Queue
two_chars = record { buf = letters; wait_proc = none; head = 1023; tail = 1 }

two_chars-IsValid : IsValid two_chars
two_chars-IsValid = record { head_in = omega arith; tail_in = omega arith }

abbrev no_chars : Queue
no_chars = record { buf = letters; wait_proc = none; head = 5; tail = 5 }

no_chars-IsValid : IsValid no_chars
no_chars-IsValid = record { head_in = omega arith; tail_in = omega arith }

abbrev calls : List Op
calls = push 99 ∷ pop ∷ push_front 100 ∷ []

abbrev typed : Wake
typed = record { meanwhile = push 99 ∷ push 10 ∷ []; signalled = false }

-- The pushes return 0, the pop the oldest character.
call_all-Agree_example :
    Agree (List ℕ) (call_all 3 calls two_chars) (some (0 ∷ 97 ∷ 0 ∷ [], 100 ∷ 98 ∷ 99 ∷ []))
call_all-Agree_example = call_all-Agree 3 calls {q = two_chars} two_chars-IsValid

tty_pop_q-woken_example :
    (q' : Queue) × (tty_pop_q 3 false no_chars (typed ∷ []) ≡ some (99, false, q', []))
    × (contents q' ≡ 10 ∷ [])
    × IsValid q'
unfolding tty_isempty_q
tty_pop_q-woken_example =
    tty_pop_q-woken 3 typed [] {q = no_chars} {c = 99} {cs = 10 ∷ []} no_chars-IsValid refl refl
