-- ===== src/Sched/Clock.antt =====
-- Alarms: sys_alarm and sys_pause of kernel/sched.c and sys_sleep of kernel/sys.c.
use Prim.Native.Nat.{bit_and, bit_xor}
use neu_os.Prelude.{ℕ, ◌+◌, ◌*◌, ◌/◌, ◌%◌, ◌^◌, ◌<◌, ◌≡◌, Option, arith, ◌==◌, if◌then◌else◌}
use neu_os.Prelude.Words.{add32, sub32, slt, minus_one, word_mod}
use neu_os.Task.{Task, Sched, hz, task_interruptible}
use neu_os.Sched.{modify, set_state, schedule, sigalrm_bit}

-- Signed division by HZ, towards 0.
abbrev pub div_hz : ℕ → ℕ
div_hz x = if slt x 0 then sub32 0 (sub32 0 x / hz) else x / hz

unfoldable pub sys_alarm : ℕ → ℕ → Task → ℕ × Task
sys_alarm jiffies seconds t = (
  if t.alarm == 0 then 0 else div_hz (sub32 t.alarm jiffies),
  record t { alarm = if slt 0 seconds then add32 jiffies (hz * seconds % word_mod) else 0 },
)

-- Up to the point where another task runs.
unfoldable pub sys_pause : ℕ → Sched → Option Sched
sys_pause rounds s =
    schedule rounds (record s { task = modify s.current (set_state task_interruptible) s.task })

-- sys_sleep up to the point where another task runs, and from where it runs again.
unfoldable pub sys_sleep : ℕ → ℕ → Sched → Option Sched
unfolding sys_alarm sys_pause
sys_sleep rounds seconds s =
    sys_pause rounds
      (record s { task = modify s.current (λ t. (sys_alarm s.jiffies seconds t).1) s.task })

unfoldable pub sleep_over : Task → Task
sleep_over t = record t { signal = bit_and t.signal (bit_xor sigalrm_bit minus_one) }

-- An alarm set for a number of seconds is reported as that number if it is switched off at once, and
-- the alarm is off then, unless the clock passes 2 ^ 31 ticks meanwhile.
pub sys_alarm-sys_alarm :
    (jiffies seconds : ℕ) (t : Task)
    → 0 < seconds
    → jiffies + hz * seconds < 2 ^ 31
    → let (left, t') = sys_alarm jiffies 0 (sys_alarm jiffies seconds t).1 in
      (left ≡ seconds) × (t'.alarm ≡ 0)
unfolding sys_alarm
sys_alarm-sys_alarm jiffies seconds t pos room = ground arith
