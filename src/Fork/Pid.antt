-- ===== src/Fork/Pid.antt =====
-- find_empty_process of kernel/fork.c gives the next number that no task has, and a free entry.
use neu_os.Prelude.{
  ℕ, zero, suc, ◌+◌, ◌-◌, ◌^◌, ◌≤◌, ◌<◌, ◌≡◌, refl, ◌≢◌, inl, inr, ◌∙◌, sym, ap, true, false, none,
  some, arith, Option-cases, if◌then◌else◌, ne→==_false, ℕ-cases,
}
use neu_os.Prelude.Words.{add32, slt, minus_one}
use neu_os.Task.{Task, Table, nr_tasks}
use neu_os.Fork.{pid_used, pid_loop, free_entry, find_empty_process}

pid_loop-step :
    (rounds tmp pid : ℕ) (ts : Table)
    → tmp ≤ pid
    → pid + 1 < 2 ^ 31
    → pid_used nr_tasks pid ts ≡ true
    → pid_loop (suc rounds) tmp pid ts ≡ pid_loop rounds tmp (pid + 1) ts
unfolding pid_loop
pid_loop-step rounds tmp pid ts le small here =
    let next : ℕ = add32 pid 1 in
    let same : (if slt next 0 then 1 else next) ≡ pid + 1 = ground arith in
    rw here (rw (ne→==_false next tmp (λ e. omega arith)) (ap (λ p. pid_loop rounds tmp p ts) same))

pid_loop-stop :
    (rounds tmp pid : ℕ) (ts : Table)
    → pid_used nr_tasks pid ts ≡ false
    → pid_loop (suc rounds) tmp pid ts ≡ some pid
unfolding pid_loop
pid_loop-stop rounds tmp pid ts here = rw here refl

pid_loop-next :
    (k rounds tmp pid : ℕ) (ts : Table)
    → tmp ≤ pid
    → pid + k < 2 ^ 31
    → k < rounds
    → ((j : ℕ) → j < k → pid_used nr_tasks (pid + j) ts ≡ true)
    → pid_used nr_tasks (pid + k) ts ≡ false
    → pid_loop rounds tmp pid ts ≡ some (pid + k)
pid_loop-next k zero tmp pid ts le small enough busy free = absurd (omega arith)
pid_loop-next zero (suc rounds) tmp pid ts le small enough busy free =
    pid_loop-stop rounds tmp pid ts
      (ap (λ p. pid_used nr_tasks p ts) {y = pid + 0} (omega arith) ∙ free)
    ∙ ap some (omega arith)
pid_loop-next (suc k) (suc rounds) tmp pid ts le small enough busy free =
    let rest =
      pid_loop-next k rounds tmp (pid + 1) ts (omega arith) (omega arith) (omega arith)
        (λ j lt.
          ap (λ p. pid_used nr_tasks p ts) {y = pid + suc j} (omega arith)
          ∙ busy (suc j) (omega arith))
        (ap (λ p. pid_used nr_tasks p ts) {y = pid + suc k} (omega arith) ∙ free) in
    pid_loop-step rounds tmp pid ts le (omega arith)
      (ap (λ p. pid_used nr_tasks p ts) {y = pid + 0} (omega arith) ∙ busy 0 (omega arith))
    ∙ rest
    ∙ ap some (omega arith)

-- What the index that is returned says of the table.
pub data Entry (ts : Table) (n i : ℕ) : ℕ → Type 0 where
  full : ((j : ℕ) → i ≤ j → j < i + n → ts j ≢ none) → Entry ts n i minus_one
  free_at : {k : ℕ} → i ≤ k → k < i + n → ts k ≡ none → Entry ts n i k

widen :
    (n i : ℕ) (ts : Table) {t : Task} {r : ℕ}
    → ts i ≡ some t
    → Entry ts n (i + 1) r
    → Entry ts (suc n) i r
widen n i ts there (full f) = full (λ j lo hi empty. elim (ℕ-cases j i) [
  | inl e ↦ cc (sym there ∙ sym (ap ts e) ∙ empty)
  | inr ne ↦ f j (omega arith) (omega arith) empty
])
widen n i ts there (free_at lo hi e) = free_at (omega arith) (omega arith) e

free_entry-Entry : (n i : ℕ) (ts : Table) → Entry ts n i (free_entry n i ts)
unfolding free_entry
free_entry-Entry zero i ts = full (λ j lo hi. absurd (omega arith))
free_entry-Entry (suc n) i ts = elim (Option-cases (ts i)) [
  | inl empty ↦ rw (empty, free_entry) (free_at (omega arith) (omega arith) empty)
  | inr (t, there) ↦ rw (there, free_entry) (widen n i ts there (free_entry-Entry n (i + 1) ts))
]

find-run :
    (rounds last_pid : ℕ) (ts : Table) {pid : ℕ}
    → pid_loop rounds last_pid last_pid ts ≡ some pid
    → find_empty_process rounds last_pid ts ≡ some (free_entry (nr_tasks - 1) 1 ts, pid)
unfolding find_empty_process
find-run rounds last_pid ts e = rw (find_empty_process, e) refl

-- If the numbers from last_pid on are used by tasks up to last_pid + k, which no task has, then
-- find_empty_process ends within k + 1 rounds and sets last_pid to last_pid + k; it returns a free entry
-- from 1 to 63, or -1 if there is none. The numbers stay below 2 ^ 31.
pub find_empty_process-Entry :
    (k rounds last_pid : ℕ) (ts : Table)
    → last_pid + k < 2 ^ 31
    → k < rounds
    → ((j : ℕ) → j < k → pid_used nr_tasks (last_pid + j) ts ≡ true)
    → pid_used nr_tasks (last_pid + k) ts ≡ false
    → (i : ℕ) × (find_empty_process rounds last_pid ts ≡ some (i, last_pid + k))
      × Entry ts (nr_tasks - 1) 1 i
find_empty_process-Entry k rounds last_pid ts small enough busy free = (
  free_entry (nr_tasks - 1) 1 ts,
  find-run rounds last_pid ts
      (pid_loop-next k rounds last_pid last_pid ts (omega arith) small enough busy free),
  free_entry-Entry (nr_tasks - 1) 1 ts,
)
