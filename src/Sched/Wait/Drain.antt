-- ===== src/Sched/Wait/Drain.antt =====
-- The sleepers of sleep_on (kernel/sched.c) wake each other, the last one to sleep first.
use mathlib.Core.Path.{subst}
use neu_os.Prelude.{
  ℕ, ◌≡◌, refl, ◌≢◌, ◌∙◌, sym, Option, none, some, List, [], ◌∷◌, update_self, update_ne, All,
  All-zip,
}
use neu_os.Task.{task_running, task_uninterruptible}
use neu_os.Sched.{modify, set_state}
use neu_os.Sched.Wait.{Waiting, rouse_task, leave, wake, state_of}
use neu_os.Sched.Wait.Lost.{modify-else, state_of-set, wake-head}

-- The sleepers from `h` on, by their `tmp`: each is inside and asleep, and none stands twice.
pub data Sleepers (w : Waiting) : Option ℕ → List ℕ → Type 0 where
  nobody : Sleepers w none []
  sleeper :
      {i : ℕ} {tmp : Option ℕ} {xs : List ℕ}
      → w.saved i ≡ some tmp
      → state_of w.task i ≡ some task_uninterruptible
      → All (λ j. j ≢ i) xs
      → Sleepers w tmp xs
      → Sleepers w (some i) (i ∷ xs)

-- A run in which nothing happens but that tasks, which are running, go on behind their sleep.
pub data Leaving : Waiting → Waiting → Type 0 where
  ended : {w : Waiting} → Leaving w w
  goes_on :
      {w w' : Waiting} (i : ℕ) (tmp : Option ℕ)
      → w.saved i ≡ some tmp
      → state_of w.task i ≡ some task_running
      → Leaving (leave i tmp w) w'
      → Leaving w w'

-- A task that has left its sleep and runs.
abbrev pub IsAwake : Waiting → ℕ → Type 0
IsAwake w i = (w.saved i ≡ none) × (state_of w.task i ≡ some task_running)

-- What a step must not touch: the tasks of `xs`.
pub Sleepers-kept :
    {w w' : Waiting} {h : Option ℕ} {xs : List ℕ}
    → All (λ i. (w'.saved i ≡ w.saved i) × (state_of w'.task i ≡ state_of w.task i)) xs
    → Sleepers w h xs
    → Sleepers w' h xs
Sleepers-kept same nobody = nobody
Sleepers-kept same (sleeper e a out s) =
    sleeper (same.0.0 ∙ e) (same.0.1 ∙ a) out (Sleepers-kept same.1 s)

-- A task that a step does not name keeps its `tmp` and its state.
abbrev Same : Waiting → Waiting → ℕ → Type 0
Same w w' k = (w'.saved k ≡ w.saved k) × (state_of w'.task k ≡ state_of w.task k)

leave-Same : (i j k : ℕ) (w : Waiting) → k ≢ i → k ≢ j → Same w (leave i (some j) w) k
unfolding leave rouse_task
leave-Same i j k w ni nj =
    (update_ne w.saved i k none ni, modify-else j k (set_state task_running) w.task nj)

leave-saved : (i j k : ℕ) (w : Waiting) → k ≢ i → (leave i (some j) w).saved k ≡ w.saved k
unfolding leave
leave-saved i j k w ne = update_ne w.saved i k none ne

leave-IsAwake :
    (i j : ℕ) (w : Waiting)
    → i ≢ j
    → state_of w.task i ≡ some task_running
    → IsAwake (leave i (some j) w) i
unfolding leave rouse_task
leave-IsAwake i j w ne run =
    (update_self w.saved i none, modify-else j i (set_state task_running) w.task ne ∙ run)

leave-roused :
    (i j : ℕ) (w : Waiting) {x : ℕ}
    → state_of w.task j ≡ some x
    → state_of (leave i (some j) w).task j ≡ some task_running
unfolding leave rouse_task
leave-roused i j w there = state_of-set j task_running w.task there

leave-last :
    (i : ℕ) (w : Waiting)
    → state_of w.task i ≡ some task_running
    → ((leave i none w).head ≡ none)
      × IsAwake (leave i none w) i
      × ((k : ℕ) → k ≢ i → Same w (leave i none w) k)
unfolding leave rouse_task
leave-last i w run =
    (refl, (update_self w.saved i none, run), λ k ne. (update_ne w.saved i k none ne, refl))

-- Everybody in `xs` is awake, the pointer is empty, and nobody else is touched.
record Drained (w : Waiting) (xs : List ℕ) : Type 0 where
  after : Waiting
  reach : Leaving w after
  head : after.head ≡ none
  awake : All (IsAwake after) xs
  others : (k : ℕ) → All (λ j. j ≢ k) xs → Same w after k

drain :
    {w : Waiting} {i : ℕ} {tmp : Option ℕ} (xs : List ℕ)
    → w.saved i ≡ some tmp
    → state_of w.task i ≡ some task_running
    → All (λ j. j ≢ i) xs
    → Sleepers w tmp xs
    → Drained w (i ∷ xs)
drain {w} {i} [] e run out nobody =
    let (empty, awake, same) = leave-last i w run in
    record {
      after = leave i none w;
      reach = goes_on i none e run ended;
      head = empty;
      awake = (awake, tt);
      others = λ k away. same k (λ p. away.0 (sym p));
    }
drain {w} {i} (j ∷ xs) e run out (sleeper inside asleep away s) =
    let w₁ : Waiting = leave i (some j) w in
    let kept = λ (k : ℕ) (p : k ≢ i) (q : k ≢ j). leave-Same i j k w p q in
    let r =
      drain {w = w₁} {i = j} xs (leave-saved i j j w out.0 ∙ inside) (leave-roused i j w asleep)
        away (Sleepers-kept (All-zip xs kept out.1 away) s) in
    let still = r.others i out in
    let up = leave-IsAwake i j w (λ p. out.0 (sym p)) run in
    record {
      after = r.after;
      reach = goes_on i (some j) e run r.reach;
      head = r.head;
      awake = ((still.0 ∙ up.0, still.1 ∙ up.1), r.awake);
      others = λ k far.
          let first = kept k (λ p. far.0 (sym p)) (λ p. far.1.0 (sym p)) in
          let rest = r.others k far.1 in (rest.0 ∙ first.0, rest.1 ∙ first.1);
    }

-- From a state in which tasks sleep on the pointer a single wake_up is enough: behind it there is a run in which
-- nothing happens but that tasks that are running go on behind their sleep, which leads to a state in which all
-- of the sleepers are awake, outside of sleep_on, and the pointer is empty.
pub wake-IsAwake :
    (w : Waiting) {i : ℕ} {xs : List ℕ}
    → w.head ≡ some i
    → Sleepers w (some i) xs
    → (w' : Waiting) × Leaving (wake w) w' × (w'.head ≡ none) × All (IsAwake w') xs
wake-IsAwake w {i} at (sleeper {tmp = tmp} {xs = xs} inside asleep out s) =
    let woken : Waiting = record w {
      head = none;
      task = modify i (set_state task_running) w.task;
    } in
    let kept : (k : ℕ) → k ≢ i → k ≢ i → Same w woken k =
      λ k p q. (refl, modify-else i k (set_state task_running) w.task p) in
    let r =
      drain {w = woken} {i = i} {tmp = tmp} xs inside (state_of-set i task_running w.task asleep)
        out (Sleepers-kept (All-zip xs kept out out) s) in
    (r.after, subst (λ v. Leaving v r.after) (sym (wake-head w at)) r.reach, r.head, r.awake)
