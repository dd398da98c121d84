-- ===== src/Sched/Tick.antt =====
-- The timer tick do_timer (kernel/sched.c) and the length of a time slice.
use neu_os.Prelude.{
  ℕ, zero, suc, ◌-◌, ◌^◌, ◌≤◌, ◌<◌, ◌≡◌, ◌∙◌, ap, true, false, Option, some, none, arith, max, ◌==◌,
  not, ◌&&◌, leb, if◌then◌else◌,
}
use neu_os.Prelude.Words.{add32}
use neu_os.Task.{Task}
use neu_os.Sched.{do_timer}

-- One tick charges user or kernel time, and calls schedule exactly when it uses up the slice in user
-- mode; the counter never becomes negative.
pub do_timer_lem :
    (cpl : ℕ) (t : Task)
    → t.counter < 2 ^ 31
    → ((do_timer cpl t).0.counter ≡ t.counter - 1)
      × ((do_timer cpl t).1 ≡ (not (cpl == 0) && leb t.counter 1))
      × ((do_timer cpl t).0.utime ≡ (if cpl == 0 then t.utime else add32 t.utime 1))
      × ((do_timer cpl t).0.stime ≡ (if cpl == 0 then add32 t.stime 1 else t.stime))
unfolding do_timer
do_timer_lem cpl t small = ground arith

-- Ticks in user mode until one calls schedule: how many, and none if `n` do not suffice.
abbrev pub ticks : ℕ → Task → Option ℕ
ticks zero t = none
ticks (suc n) t =
    let rest = ticks n (do_timer 3 t).0 in
    if (do_timer 3 t).1 then some 1 else elim rest [ none ↦ none | some k ↦ some (suc k) ]

ticks-suc :
    (n : ℕ) (t : Task) {k : ℕ}
    → (do_timer 3 t).1 ≡ false
    → ticks n (do_timer 3 t).0 ≡ some k
    → ticks (suc n) t ≡ some (suc k)
ticks-suc n t e h = rw e (rw (h, ticks))

ticks-last : (n : ℕ) (t : Task) → (do_timer 3 t).1 ≡ true → ticks (suc n) t ≡ some 1
ticks-last n t e = rw e

-- A task that runs in user mode with counter `c` is interrupted after exactly `c` ticks, and after
-- one if its counter is 0.
pub slice_length :
    (c n : ℕ) (t : Task) → t.counter ≡ c → c < 2 ^ 31 → max c 1 ≤ n → ticks n t ≡ some (max c 1)
slice_length c zero t e small enough = absurd (omega arith)
slice_length zero (suc n) t e small enough =
    ticks-last n t (ground (arith, do_timer_lem 3 t (omega arith)))
slice_length (suc zero) (suc n) t e small enough =
    ticks-last n t (ground (arith, do_timer_lem 3 t (omega arith)))
slice_length (suc (suc c)) (suc n) t e small enough =
    let tick = do_timer_lem 3 t (omega arith) in
    ticks-suc n t (ground (arith, tick))
      (slice_length (suc c) n (do_timer 3 t).0 (omega (arith, tick.0)) (omega arith) (omega arith))
    ∙ ap some (omega arith)
