-- ===== src/Tty/Queue/Pop.antt =====
-- tty_pop_q of kernel/chr_drv/tty_queue.c returns: at once when something is held, and else as soon as
-- the sleeper is woken with something pushed.
use neu_os.Prelude.{
  ℕ, ◌≡◌, refl, ◌∙◌, sym, ap, Bool, true, false, some, List, [], ◌∷◌, arith, length,
}
use neu_os.Tty.Queue.{Queue, Wake, tty_isempty_q, take_head, sleep_once, sleep_if_empty, tty_pop_q}
use neu_os.Tty.Queue.Contents.{IsValid, contents}
use neu_os.Tty.Queue.Refine.{
  length-contents, isempty-used, contents-empty, take_head_refines, take_head-IsValid,
  bounded_apply_all, apply_all_refines,
}
use neu_os.Tty.Queue.Sleep.{sleep_once-IsValid}

holds-nonempty :
    {q : Queue} {c : ℕ} {cs : List ℕ} → IsValid q → contents q ≡ c ∷ cs → tty_isempty_q q ≡ false
holds-nonempty {q} v e = ground (arith, isempty-used v, length-contents q, ap length e)

awake :
    (me : ℕ) (signal : Bool) (q : Queue) (ws : List Wake)
    → tty_isempty_q q ≡ false
    → sleep_if_empty me signal q ws ≡ some (signal, q, ws)
unfolding sleep_if_empty
awake me true q [] e = refl
awake me true q (w ∷ ws) e = refl
awake me false q [] e = rw e refl
awake me false q (w ∷ ws) e = rw e refl

asleep :
    (me : ℕ) (w : Wake) (ws : List Wake) (q : Queue)
    → tty_isempty_q q ≡ true
    → tty_pop_q me false q (w ∷ ws) ≡ tty_pop_q me w.signalled (sleep_once me w q) ws
unfolding tty_pop_q sleep_if_empty
asleep me w ws q e = rw (tty_pop_q, e) refl

take_awake :
    (me : ℕ) (signal : Bool) (q : Queue) (ws : List Wake)
    → tty_isempty_q q ≡ false
    → tty_pop_q me signal q ws ≡ some ((take_head q).0, signal, (take_head q).1, ws)
unfolding tty_pop_q
take_awake me signal q ws e = rw (awake me signal q ws e, tty_pop_q) refl

-- On a queue that holds something tty_pop_q returns without a sleep, whether the process has a signal
-- or not, with the oldest character, and leaves the others in order.
pub tty_pop_q-holding :
    (me : ℕ) (signal : Bool) (ws : List Wake) {q : Queue} {c : ℕ} {cs : List ℕ}
    → IsValid q
    → contents q ≡ c ∷ cs
    → (q' : Queue) × (tty_pop_q me signal q ws ≡ some (c, signal, q', ws))
      × (contents q' ≡ cs)
      × IsValid q'
tty_pop_q-holding me signal ws {q} {c} {cs} v e =
    let nonempty = holds-nonempty v e in
    let split = sym e ∙ take_head_refines v nonempty in
    (
      (take_head q).1,
      take_awake me signal q ws nonempty
          ∙ ap (λ ch. some (ch, signal, (take_head q).1, ws)) {x = (take_head q).0} {y = c}
              (cc split),
      cc split,
      take_head-IsValid v,
    )

sleep_once-contents :
    (me : ℕ) (w : Wake) {q : Queue}
    → IsValid q
    → contents (sleep_once me w q) ≡ bounded_apply_all w.meanwhile (contents q)
unfolding sleep_once
sleep_once-contents me w {q} v =
    (apply_all_refines w.meanwhile {q = record q { wait_proc = some me }}
      (record { head_in = v.head_in; tail_in = v.tail_in })).1

-- On an empty queue a process without a signal sleeps; if the calls made before it is woken leave
-- something in the queue, it returns the oldest character of that, and leaves the others in order.
pub tty_pop_q-woken :
    (me : ℕ) (w : Wake) (ws : List Wake) {q : Queue} {c : ℕ} {cs : List ℕ}
    → IsValid q
    → tty_isempty_q q ≡ true
    → bounded_apply_all w.meanwhile [] ≡ c ∷ cs
    → (q' : Queue) × (tty_pop_q me false q (w ∷ ws) ≡ some (c, w.signalled, q', ws))
      × (contents q' ≡ cs)
      × IsValid q'
tty_pop_q-woken me w ws {q} {c} {cs} v empty e =
    let held =
      sleep_once-contents me w v
      ∙ ap (bounded_apply_all w.meanwhile) (contents-empty v empty)
      ∙ e in
    let (q', popped, rest, valid) =
      tty_pop_q-holding me w.signalled ws (sleep_once-IsValid me w v) held in
    (q', asleep me w ws q empty ∙ popped, rest, valid)
