-- ===== src/Tty/Queue/Stat.antt =====
-- The loop of tty_queue_stat (kernel/chr_drv/tty_queue.c) ends and prints what is held.
use neu_os.Prelude.{
  ℕ, zero, suc, ◌+◌, ◌-◌, ◌%◌, ◌≤◌, ◌<◌, ◌≡◌, refl, ap, ◌∙◌, some, List, [], ◌∷◌, arith,
}
use native.Mathlib.Nat.{mod-eq_of_lt}
use neu_os.Prelude.Words.{word_mod}
use neu_os.Tty.Queue.{Queue, tty_buf_size, Shown, char, mark, stat_loop, tty_queue_stat}
use neu_os.Tty.Queue.Contents.{IsValid, used, items, contents, items_cong}

-- The characters in order, with the mark behind the last.
abbrev pub shown_list : List ℕ → List Shown
shown_list [] = []
shown_list (c ∷ []) = char c ∷ mark ∷ []
shown_list (c ∷ d ∷ cs) = char c ∷ shown_list (d ∷ cs)

stat_loop-shown :
    (rounds : ℕ) (q : Queue) (i n : ℕ)
    → i < tty_buf_size
    → q.tail < tty_buf_size
    → n ≡ (q.tail + tty_buf_size - i) % tty_buf_size
    → n < rounds
    → stat_loop rounds q i ≡ some (shown_list (items q.buf i n))
unfolding stat_loop
stat_loop-shown zero q i n hi ht e h = absurd (omega arith)
stat_loop-shown (suc r) q i zero hi ht e h = ground arith
stat_loop-shown (suc r) q i (suc zero) hi ht e h = ground (
  arith,
  stat_loop-shown r q ((i + 1) % word_mod % tty_buf_size) 0 (omega arith) ht (omega arith)
      (omega arith),
  ap q.buf (mod-eq_of_lt hi),
)
stat_loop-shown (suc r) q i (suc (suc n)) hi ht e h =
    let next : ℕ = (i + 1) % word_mod % tty_buf_size in
    let rest : stat_loop r q next ≡ some (shown_list (items q.buf (i + 1) (suc n))) =
      stat_loop-shown r q next (suc n) (omega arith) ht (omega arith) (omega arith)
      ∙ ap (λ l. some (shown_list l)) (items_cong q.buf next (i + 1) (suc n) (omega arith)) in
    ground (arith, rest, ap q.buf (mod-eq_of_lt hi))

-- On a valid queue the loop ends within 1024 rounds and prints the characters held, oldest first,
-- with `#` behind the last one.
pub tty_queue_stat-contents :
    (rounds : ℕ) {q : Queue}
    → IsValid q
    → tty_buf_size ≤ rounds
    → tty_queue_stat rounds q ≡ some (shown_list (contents q))
unfolding tty_queue_stat
tty_queue_stat-contents rounds {q} v h =
    stat_loop-shown rounds q q.head (used q) v.head_in v.tail_in refl (omega arith)
