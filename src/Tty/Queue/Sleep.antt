-- ===== src/Tty/Queue/Sleep.antt =====
-- The consumer's sleep (sleep_if_empty of kernel/chr_drv/tty_io.c) and tty_pop_q, against what the
-- rest of the kernel may do to the queue meanwhile.
use mathlib.Core.Path.{subst}
use neu_os.Prelude.{
  eq_of_some, Option-cases, ap, sym, ℕ, ◌≡◌, refl, ◌∙◌, Bool, true, false, some, List, [], ◌∷◌, ◌⊎◌,
  inl, inr, arith, All, length, ◌&&◌, not, Bool-cases,
}
use neu_os.Tty.Queue.{Queue, Wake, tty_isempty_q, take_head, sleep_once, sleep_if_empty, tty_pop_q}
use neu_os.Tty.Queue.Contents.{IsValid, contents}
use neu_os.Tty.Queue.Refine.{
  capacity, length-contents, apply_all_refines, take_head-IsValid, take_head_refines,
}

pub sleep_once-IsValid : (me : ℕ) (w : Wake) {q : Queue} → IsValid q → IsValid (sleep_once me w q)
unfolding sleep_once
sleep_once-IsValid me w {q} v =
    let (valid, _) =
      apply_all_refines w.meanwhile {q = record q { wait_proc = some me }}
        (record { head_in = v.head_in; tail_in = v.tail_in }) in
    record { head_in = valid.head_in; tail_in = valid.tail_in }

-- What holds when sleep_if_empty returns.
pub record Ended (signal : Bool) (q : Queue) : Type 0 where
  pub valid : IsValid q
  pub cause : (signal ≡ true) ⊎ (tty_isempty_q q ≡ false)

stop-Ended :
    (signal : Bool) {q : Queue} (ws : List Wake) {r : Bool × Queue × List Wake}
    → IsValid q
    → (not signal && tty_isempty_q q) ≡ false
    → some (signal, q, ws) ≡ some r
    → Ended r.0 r.1
stop-Ended signal {q} ws v go e =
    subst (λ t. Ended t.0 t.1) (eq_of_some e)
      (record { valid = v; cause = cause signal (tty_isempty_q q) go })
  where
    cause : (s b : Bool) → (not s && b) ≡ false → (s ≡ true) ⊎ (b ≡ false)
    cause true b h = inl refl
    cause false b h = inr h

pub sleep_if_empty-Ended :
    (me : ℕ) (signal : Bool) (ws : List Wake) {q : Queue} {r : Bool × Queue × List Wake}
    → IsValid q
    → sleep_if_empty me signal q ws ≡ some r
    → Ended r.0 r.1
unfolding sleep_if_empty
sleep_if_empty-Ended me signal [] {q} v e = elim (Bool-cases (not signal && tty_isempty_q q)) [
  | inl stays ↦ cc (rw stays at e)
  | inr go ↦ stop-Ended signal [] v go (rw go at e)
]
sleep_if_empty-Ended me signal (w ∷ ws) {q} v e =
    elim (Bool-cases (not signal && tty_isempty_q q)) [
      | inl stays ↦
          sleep_if_empty-Ended me w.signalled ws (sleep_once-IsValid me w v) (rw stays at e)
      | inr go ↦ stop-Ended signal (w ∷ ws) v go (rw go at e)
    ]

-- No process that waits here is signalled.
abbrev pub Unsignalled : List Wake → Type 0
Unsignalled = All (λ w. w.signalled ≡ false)

sleep_if_empty-Unsignalled :
    (me : ℕ) (signal : Bool) (q : Queue) (ws : List Wake) {r : Bool × Queue × List Wake}
    → signal ≡ false
    → Unsignalled ws
    → sleep_if_empty me signal q ws ≡ some r
    → r.0 ≡ false
unfolding sleep_if_empty
sleep_if_empty-Unsignalled me signal q [] s u e = ground arith
sleep_if_empty-Unsignalled me signal q (w ∷ ws) s u e =
    elim (Bool-cases (not signal && tty_isempty_q q)) [
      | inl stays ↦
          sleep_if_empty-Unsignalled me w.signalled (sleep_once me w q) ws u.0 u.1 (rw stays at e)
      | inr go ↦ ap (λ t. t.0) (sym (eq_of_some (rw go at e))) ∙ s
    ]

-- Whatever the others do to the queue while tty_pop_q sleeps, if no signal comes and it returns, it
-- returns the oldest character of the queue that it found, and leaves the others in order.
pub tty_pop_q-oldest :
    (me : ℕ) (ws : List Wake) {q : Queue} {r : ℕ × Bool × Queue × List Wake}
    → IsValid q
    → Unsignalled ws
    → tty_pop_q me false q ws ≡ some r
    → (q' : Queue) × IsValid q' × (contents q' ≡ r.0 ∷ contents r.2) × IsValid r.2
unfolding tty_pop_q
tty_pop_q-oldest me ws {q} v u e = elim (Option-cases (sleep_if_empty me false q ws)) [
  | inl blocked ↦ cc (rw (blocked, tty_pop_q) at e)
  | inr (s, woke) ↦
      let ended = sleep_if_empty-Ended me false ws v woke in
      let quiet = sleep_if_empty-Unsignalled me false q ws refl u woke in
      let held : tty_isempty_q s.1 ≡ false = ground (arith, ended.cause, quiet) in
      subst
        (λ (t : ℕ × Bool × Queue × List Wake).
          (q' : Queue) × IsValid q' × (contents q' ≡ t.0 ∷ contents t.2) × IsValid t.2)
        (eq_of_some (rw (woke, tty_pop_q) at e))
        (s.1, ended.valid, take_head_refines ended.valid held, take_head-IsValid ended.valid)
]

underflow :
    {q : Queue} → IsValid q → tty_isempty_q q ≡ true → length (contents (take_head q).1) ≡ capacity
unfolding take_head tty_isempty_q
underflow {q} v e = ground (arith, length-contents (take_head q).1)

-- A process with a signal does not wait: on an empty queue it takes a character that was never
-- pushed, and leaves the queue as if it held 1023 characters.
pub tty_pop_q-signalled :
    (me : ℕ) (ws : List Wake) {q : Queue}
    → IsValid q
    → tty_isempty_q q ≡ true
    → (r : ℕ × Bool × Queue × List Wake) × (tty_pop_q me true q ws ≡ some r)
      × (length (contents r.2) ≡ capacity)
unfolding tty_pop_q
tty_pop_q-signalled me [] {q} v e = ((q.buf q.head, true, (take_head q).1, []), refl, underflow v e)
tty_pop_q-signalled me (w ∷ ws) {q} v e =
    ((q.buf q.head, true, (take_head q).1, w ∷ ws), refl, underflow v e)
