-- ===== src/Tty/Queue/Calls.antt =====
-- Sequences of calls of tty_push_q, tty_push_q_front and tty_pop_q (kernel/chr_drv/tty_queue.c) by a process
-- without a signal, up to the first call that sleeps, as calls on a bounded list.
use mathlib.Core.Path.{subst}
use neu_os.Prelude.{
  ℕ, ◌≡◌, refl, ◌∙◌, sym, true, false, Option, none, some, List, [], ◌∷◌, inl, inr, Bool-cases,
}
use neu_os.Tty.Queue.{
  Queue, Op, push, push_front, pop, tty_isempty_q, tty_push_q, tty_push_q_front, sleep_if_empty,
  tty_pop_q,
}
use neu_os.Tty.Queue.Contents.{IsValid, contents}
use neu_os.Tty.Queue.Refine.{
  bounded_push, bounded_push_front, pushed_status, push_refines, push_front_refines, push-IsValid,
  push_front-IsValid, take_head_refines,
}
use neu_os.Tty.Queue.Pop.{tty_pop_q-holding}

-- A result before those of the next calls, and the next calls behind one that has not slept.
abbrev cons_result : {A : Type 0} → ℕ → Option (List ℕ × A) → Option (List ℕ × A)
cons_result r none = none
cons_result r (some (rs, x)) = some (r ∷ rs, x)

abbrev after : {A : Type 0} → Option (ℕ × A) → (A → Option (List ℕ × A)) → Option (List ℕ × A)
after none rest = none
after (some (r, x)) rest = cons_result r (rest x)

-- The result of a call and the queue behind it; none when the call sleeps.
unfoldable pub call : ℕ → Op → Queue → Option (ℕ × Queue)
unfolding tty_push_q tty_push_q_front tty_pop_q
call me (push ch) q = some (tty_push_q q ch)
call me (push_front ch) q = some (tty_push_q_front q ch)
call me pop q = elim (tty_pop_q me false q []) [ none ↦ none | some r ↦ some (r.0, r.2) ]

-- The results of the calls, and the queue at the end; none when one sleeps.
unfoldable pub call_all : ℕ → List Op → Queue → Option (List ℕ × Queue)
unfolding call
call_all me [] q = some ([], q)
call_all me (o ∷ os) q = after (call me o q) (λ q'. call_all me os q')

-- The specification: at most 1023 characters, oldest first; a pop of none of them waits.
abbrev pub list_call : Op → List ℕ → Option (ℕ × List ℕ)
list_call (push ch) cs = some (pushed_status cs, bounded_push ch cs)
list_call (push_front ch) cs = some (pushed_status cs, bounded_push_front ch cs)
list_call pop [] = none
list_call pop (c ∷ cs) = some (c, cs)

abbrev pub list_call_all : List Op → List ℕ → Option (List ℕ × List ℕ)
list_call_all [] cs = some ([], cs)
list_call_all (o ∷ os) cs = after (list_call o cs) (λ cs'. list_call_all os cs')

-- The same results, and a valid queue that holds the list.
pub data Agree (A : Type 0) : Option (A × Queue) → Option (A × List ℕ) → Type 0 where
  waits : Agree A none none
  returns :
      {q : Queue} {cs : List ℕ} (r : A)
      → IsValid q
      → contents q ≡ cs
      → Agree A (some (r, q)) (some (r, cs))

-- From equations.
Agree-some :
    {A : Type 0} {r r' : A} {q : Queue} {cs : List ℕ} {o : Option (A × Queue)}
    → o ≡ some (r, q)
    → r ≡ r'
    → IsValid q
    → contents q ≡ cs
    → Agree A o (some (r', cs))
Agree-some {r = r} e same v held = rw (e, sym same) (returns r v held)

pop_waits : (me : ℕ) {q : Queue} → IsValid q → tty_isempty_q q ≡ true → call me pop q ≡ none
unfolding call tty_pop_q sleep_if_empty
pop_waits me v e = rw (call, tty_pop_q, sleep_if_empty, e) refl

pop_returns :
    (me : ℕ) (q : Queue) {q' : Queue} {c : ℕ}
    → tty_pop_q me false q [] ≡ some (c, false, q', [])
    → call me pop q ≡ some (c, q')
unfolding call
pop_returns me q e = rw (call, e) refl

pop-Agree :
    (me : ℕ) {q : Queue} (cs : List ℕ)
    → IsValid q
    → contents q ≡ cs
    → Agree ℕ (call me pop q) (list_call pop cs)
pop-Agree me {q} [] v e = elim (Bool-cases (tty_isempty_q q)) [
  | inl empty ↦ rw (pop_waits me v empty) waits
  | inr some_ ↦ absurd (cc (sym e ∙ take_head_refines v some_))
]
pop-Agree me {q} (c ∷ cs) v e =
    let (q', run, rest, valid) = tty_pop_q-holding me false [] v e in
    Agree-some (pop_returns me q run) refl valid rest

call-Agree :
    (me : ℕ) (o : Op) {q : Queue} → IsValid q → Agree ℕ (call me o q) (list_call o (contents q))
unfolding call
call-Agree me (push ch) {q} v =
    let (status, held) = push_refines ch v in Agree-some refl status (push-IsValid ch v) held
call-Agree me (push_front ch) {q} v =
    let (status, held) = push_front_refines ch v in
    Agree-some refl status (push_front-IsValid ch v) held
call-Agree me pop {q} v = pop-Agree me (contents q) v refl

Agree-cons :
    (r : ℕ) {x : Option (List ℕ × Queue)} {y : Option (List ℕ × List ℕ)}
    → Agree (List ℕ) x y
    → Agree (List ℕ) (cons_result r x) (cons_result r y)
Agree-cons r waits = waits
Agree-cons r (returns rs v held) = returns (r ∷ rs) v held

Agree-after :
    (f : Queue → Option (List ℕ × Queue)) (g : List ℕ → Option (List ℕ × List ℕ))
    {x : Option (ℕ × Queue)} {y : Option (ℕ × List ℕ)}
    → Agree ℕ x y
    → ((q : Queue) → IsValid q → Agree (List ℕ) (f q) (g (contents q)))
    → Agree (List ℕ) (after x f) (after y g)
Agree-after f g waits next = waits
Agree-after f g (returns {q = q} r v held) next =
    Agree-cons r (subst (λ cs. Agree (List ℕ) (f q) (g cs)) held (next q v))

-- A sequence of pushes at either end and of pops by a process without a signal, made on a valid queue, returns
-- what it returns on a list that takes at most 1023 characters, oldest first, and leaves a valid queue that holds
-- what the list does: a push of a character onto 1023 returns -1 and drops it, a pop returns the oldest character;
-- and the sequence comes to a sleep exactly when it pops the empty list.
pub call_all-Agree :
    (me : ℕ) (os : List Op) {q : Queue}
    → IsValid q
    → Agree (List ℕ) (call_all me os q) (list_call_all os (contents q))
unfolding call_all
call_all-Agree me [] v = returns [] v refl
call_all-Agree me (o ∷ os) {q} v =
    Agree-after (λ q'. call_all me os q') (λ cs. list_call_all os cs) (call-Agree me o v)
      (λ q' valid. call_all-Agree me os valid)
