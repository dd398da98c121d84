-- ===== src/Exit/Orphans.antt =====
-- The loop of do_exit (kernel/exit.c) over the children, and tell_father.
use mathlib.Core.Option
use neu_os.Prelude.{
  ℕ, zero, suc, ◌+◌, ◌≤◌, ◌<◌, ◌≡◌, refl, ◌≢◌, ◌⊎◌, inl, inr, ◌∙◌, sym, ap, true, false, Option,
  none, some, arith, Option-cases, Bool-cases, ℕ-cases, update, update_self, update_ne, ◌==◌,
  if◌then◌else◌,
}
use neu_os.Task.{Task, Table, nr_tasks, task_zombie}
use neu_os.Signal.{send_sig, raise}
use neu_os.Exit.{sigchld, orphan, orphans, to_init}

abbrev pub father_of : Option Task → Option ℕ
father_of = Option.map (λ t. t.father)

abbrev pub adopt : ℕ → ℕ → ℕ
adopt pid father = if father == pid then 1 else father

send_sig-father :
    (euid : ℕ) (o : Option Task) → father_of (send_sig euid sigchld o true).1 ≡ father_of o
unfolding send_sig raise
send_sig-father euid none = refl
send_sig-father euid (some t) = refl

pub update-father :
    (ts : Table) (i j : ℕ) (o : Option Task)
    → father_of o ≡ father_of (ts i)
    → father_of (update ts i o j) ≡ father_of (ts j)
update-father ts i j o e = elim (ℕ-cases j i) [
  | inl same ↦
      ap father_of (ap (update ts i o) same ∙ update_self ts i o)
      ∙ e
      ∙ ap (λ k. father_of (ts k)) (sym same)
  | inr ne ↦ ap father_of (update_ne ts i j o ne)
]

module _ (euid pid i : ℕ) (ts : Table) {t : Task} (there : ts i ≡ some t) where
  orphan-not : (t.father == pid) ≡ false → orphan euid pid i ts ≡ ts
  unfolding orphan
  orphan-not other = rw (there, orphan) (rw other refl)

  orphan-adopted :
      (j : ℕ)
      → (t.father == pid) ≡ true
      → father_of (orphan euid pid i ts j) ≡ father_of (update ts i (some (to_init t)) j)
  unfolding orphan
  orphan-adopted j hers = elim (Bool-cases (t.state == task_zombie)) [
    | inl dead ↦
        rw (there, orphan)
          (rw (hers, dead)
            (update-father (update ts i (some (to_init t))) 1 j _
              (send_sig-father euid (update ts i (some (to_init t)) 1))))
    | inr alive ↦ rw (there, orphan) (rw (hers, alive) refl)
  ]

orphan-here :
    (euid pid i : ℕ) (ts : Table)
    → father_of (orphan euid pid i ts i) ≡ Option.map (adopt pid) (father_of (ts i))
unfolding orphan
orphan-here euid pid i ts = elim (Option-cases (ts i)) [
  | inl empty ↦ rw (empty, orphan) (ap father_of empty)
  | inr (t, there) ↦ elim (Bool-cases (t.father == pid)) [
    | inl hers ↦
        orphan-adopted euid pid i ts there i hers
        ∙ ap father_of (update_self ts i (some (to_init t)))
        ∙ sym (ap (λ o. Option.map (adopt pid) (father_of o)) there ∙ ap some (rw hers refl))
    | inr other ↦
        ap (λ u. father_of (u i)) (orphan-not euid pid i ts there other)
        ∙ ap father_of there
        ∙ sym (ap (λ o. Option.map (adopt pid) (father_of o)) there ∙ ap some (rw other refl))
  ]
]

orphan-else :
    (euid pid i j : ℕ) (ts : Table) → j ≢ i → father_of (orphan euid pid i ts j) ≡ father_of (ts j)
unfolding orphan
orphan-else euid pid i j ts ne = elim (Option-cases (ts i)) [
  | inl empty ↦ rw (empty, orphan) refl
  | inr (t, there) ↦ elim (Bool-cases (t.father == pid)) [
    | inl hers ↦
        orphan-adopted euid pid i ts there j hers
        ∙ ap father_of (update_ne ts i j (some (to_init t)) ne)
    | inr other ↦ ap (λ u. father_of (u j)) (orphan-not euid pid i ts there other)
  ]
]

orphans-else :
    (n i euid pid j : ℕ) (ts : Table)
    → (j < i) ⊎ (i + n ≤ j)
    → father_of (orphans n i euid pid ts j) ≡ father_of (ts j)
unfolding orphans
orphans-else zero i euid pid j ts out = refl
orphans-else (suc n) i euid pid j ts out =
    orphans-else n (i + 1) euid pid j (orphan euid pid i ts) (omega arith)
    ∙ orphan-else euid pid i j ts (omega arith)

orphans-in :
    (n i euid pid j : ℕ) (ts : Table)
    → i ≤ j
    → j < i + n
    → father_of (orphans n i euid pid ts j) ≡ Option.map (adopt pid) (father_of (ts j))
unfolding orphans
orphans-in zero i euid pid j ts lo hi = absurd (omega arith)
orphans-in (suc n) i euid pid j ts lo hi = elim (ℕ-cases j i) [
  | inl e ↦
      orphans-else n (i + 1) euid pid j (orphan euid pid i ts) (omega arith)
      ∙ ap (λ k. father_of (orphan euid pid i ts k)) e
      ∙ orphan-here euid pid i ts
      ∙ ap (λ k. Option.map (adopt pid) (father_of (ts k))) (sym e)
  | inr ne ↦
      orphans-in n (i + 1) euid pid j (orphan euid pid i ts) (omega arith) (omega arith)
      ∙ ap (Option.map (adopt pid)) (orphan-else euid pid i j ts ne)
]

-- After the loop of do_exit each of the 64 tasks has the father that it had, but that init is the father
-- of the children of the process that exits; no entry appears or disappears.
pub orphans-adopt :
    (euid pid : ℕ) (ts : Table) (j : ℕ)
    → j < nr_tasks
    → Option.map (λ t. t.father) (orphans nr_tasks 0 euid pid ts j)
      ≡ Option.map (adopt pid) (Option.map (λ t. t.father) (ts j))
orphans-adopt euid pid ts j lt = orphans-in nr_tasks 0 euid pid j ts (omega arith) lt
