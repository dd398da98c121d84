-- ===== src/Exit/Told.antt =====
-- tell_father of kernel/exit.c, and what the loop of do_exit leaves of the tasks' numbers.
use mathlib.Core.Option
use neu_os.Prelude.{
  ℕ, zero, suc, ◌+◌, ◌≤◌, ◌<◌, ◌≡◌, refl, ◌≢◌, inl, inr, ◌∙◌, sym, ap, true, Option, none, some,
  arith, Option-cases, Bool-cases, ℕ-cases, eq_of_some, eq_of_==, update, update_self, update_ne,
  ◌==◌,
}
use neu_os.Task.{Task, Table, task_zombie}
use neu_os.Signal.{send_sig, raise}
use neu_os.Exit.{sigchld, orphan, orphans, to_init, tell_loop}

abbrev pub number_of : Option Task → Option ℕ
number_of = Option.map (λ t. t.pid)

send_sig-number :
    (euid : ℕ) (o : Option Task) → number_of (send_sig euid sigchld o true).1 ≡ number_of o
unfolding send_sig raise
send_sig-number euid none = refl
send_sig-number euid (some t) = refl

pub update-number :
    (ts : Table) (i j : ℕ) (o : Option Task)
    → number_of o ≡ number_of (ts i)
    → number_of (update ts i o j) ≡ number_of (ts j)
update-number ts i j o e = elim (ℕ-cases j i) [
  | inl same ↦
      ap number_of (ap (update ts i o) same ∙ update_self ts i o)
      ∙ e
      ∙ ap (λ k. number_of (ts k)) (sym same)
  | inr ne ↦ ap number_of (update_ne ts i j o ne)
]

orphan-number :
    (euid pid i j : ℕ) (ts : Table) → number_of (orphan euid pid i ts j) ≡ number_of (ts j)
unfolding orphan
orphan-number euid pid i j ts = elim (Option-cases (ts i)) [
  | inl empty ↦ rw (empty, orphan) refl
  | inr (t, there) ↦
      let adopted : Table = update ts i (some (to_init t)) in
      let kept : number_of (adopted j) ≡ number_of (ts j) =
        update-number ts i j (some (to_init t)) (ap number_of (sym there)) in
      elim (Bool-cases (t.father == pid)) [
        | inr other ↦ rw (there, orphan) (rw other refl)
        | inl hers ↦ elim (Bool-cases (t.state == task_zombie)) [
          | inr alive ↦ rw (there, orphan) (rw (hers, alive) kept)
          | inl dead ↦
              rw (there, orphan)
                (rw (hers, dead)
                  (update-number adopted 1 j _ (send_sig-number euid (adopted 1)) ∙ kept))
        ]
      ]
]

-- The loop of do_exit over the children changes no task's number.
pub orphans-number :
    (n i euid pid j : ℕ) (ts : Table) → number_of (orphans n i euid pid ts j) ≡ number_of (ts j)
unfolding orphans
orphans-number zero i euid pid j ts = refl
orphans-number (suc n) i euid pid j ts =
    orphans-number n (i + 1) euid pid j (orphan euid pid i ts) ∙ orphan-number euid pid i j ts

-- What the loop of tell_father over `n` entries from `i` on finds.
pub data Told (n i pid : ℕ) (ts : Table) : Option Table → Type 0 where
  nobody : ((j : ℕ) → i ≤ j → j < i + n → number_of (ts j) ≢ some pid) → Told n i pid ts none
  told :
      {p : Task} (j : ℕ)
      → j < i + n
      → ts j ≡ some p
      → p.pid ≡ pid
      → Told n i pid ts (some (update ts j (some (raise sigchld p))))

further :
    {n i pid : ℕ} {ts : Table} {o : Option Table}
    → number_of (ts i) ≢ some pid
    → Told n (i + 1) pid ts o
    → Told (suc n) i pid ts o
further {i = i} {pid = pid} {ts = ts} not_here (nobody none_) = nobody (λ j lo hi.
    elim (ℕ-cases j i) [
      | inl e ↦ λ h. not_here (ap (λ k. number_of (ts k)) (sym e) ∙ h)
      | inr ne ↦ none_ j (omega arith) (omega arith)
    ])
further not_here (told j lt there same) = told j (omega arith) there same

pub tell_loop-Told : (n i pid : ℕ) (ts : Table) → Told n i pid ts (tell_loop n i pid ts)
unfolding tell_loop
tell_loop-Told zero i pid ts = nobody (λ j lo hi. absurd (omega arith))
tell_loop-Told (suc n) i pid ts = elim (Option-cases (ts i)) [
  | inl empty ↦
      rw (empty, tell_loop)
        (further (λ h. cc (sym (ap number_of empty) ∙ h)) (tell_loop-Told n (i + 1) pid ts))
  | inr (t, there) ↦ elim (Bool-cases (t.pid == pid)) [
    | inl hers ↦
        rw (there, tell_loop) (rw hers (told i (omega arith) there (eq_of_== t.pid pid hers)))
    | inr other ↦
        rw (there, tell_loop)
          (rw other (
            further (λ h. ground (arith, eq_of_some (sym (ap number_of there) ∙ h)))
              (tell_loop-Told n (i + 1) pid ts)))
  ]
]
