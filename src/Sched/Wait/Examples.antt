-- ===== src/Sched/Wait/Examples.antt =====
-- Tasks 2 and 3 sleep on a pointer, task 3 last; then one in which only task 2 does.
use neu_os.Prelude.{◌≡◌, refl, none, some, [], ◌∷◌, arith, ◌==◌, if◌then◌else◌, All}
use neu_os.Task.{task_running, task_uninterruptible}
use neu_os.Task.Sample.{a_task}
use neu_os.Sched.Wait.{Waiting, wake, Reach, here, next, wakes}
use neu_os.Sched.Wait.Lost.{IsLost, OneSleeper, IsLost-Reach, sleep_on-IsLost}
use neu_os.Sched.Wait.Drain.{Sleepers, Leaving, nobody, sleeper, IsAwake, wake-IsAwake}

abbrev two : Waiting
two = record {
  head = some 3;
  saved = λ i. if i == 2 then some none else if i == 3 then some (some 2) else none;
  task = λ i. some (record a_task { state = task_uninterruptible });
}

two-Sleepers : Sleepers two (some 3) (3 ∷ 2 ∷ [])
two-Sleepers = sleeper refl refl ((λ e. omega arith), tt) (sleeper refl refl tt nobody)

wake-IsAwake_example :
    (w' : Waiting) × Leaving (wake two) w' × (w'.head ≡ none) × All (IsAwake w') (3 ∷ 2 ∷ [])
wake-IsAwake_example = wake-IsAwake two refl two-Sleepers

abbrev one : Waiting
one = record {
  head = some 2;
  saved = λ i. if i == 2 then some none else none;
  task =
      λ i. some (record a_task { state = if i == 2 then task_uninterruptible else task_running });
}

one-OneSleeper : OneSleeper 2 3 one
one-OneSleeper = record {
  head = refl;
  inside = refl;
  others = λ i ne. ground arith;
  asleep = refl;
  running = refl;
  not_idle = omega arith;
}

sleep_on-IsLost_example : (w' : Waiting) × Reach one w' × IsLost 3 w'
sleep_on-IsLost_example = sleep_on-IsLost one-OneSleeper

-- Task 3 sleeps, and the pointer is empty.
abbrev forgotten : Waiting
forgotten = record {
  head = none;
  saved = λ i. if i == 3 then some none else none;
  task = λ i. some (record a_task { state = task_uninterruptible });
}

forgotten-IsLost : IsLost 3 forgotten
forgotten-IsLost = record { asleep = refl; not_head = λ e. cc e; not_saved = λ i e. ground arith }

IsLost-Reach_example : IsLost 3 (wake forgotten)
IsLost-Reach_example = IsLost-Reach forgotten-IsLost (next here wakes)
