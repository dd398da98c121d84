-- ===== src/Tty/Queue/Contents.antt =====
-- What a queue holds: the characters from its head to its tail, oldest first.
use neu_os.Prelude.{
  ℕ, zero, suc, ◌+◌, ◌-◌, ◌%◌, ◌<◌, ◌≡◌, refl, ◌≢◌, ap, ap₂, ◌∙◌, List, [], ◌∷◌, ◌++◌, arith,
  length, update, update_ne,
}
use neu_os.Tty.Queue.{Queue, tty_buf_size}

-- `n` characters from index `i` on, going round at the end of the array.
abbrev pub items : (ℕ → ℕ) → ℕ → ℕ → List ℕ
items b i zero = []
items b i (suc n) = b (i % tty_buf_size) ∷ items b (i + 1) n

pub record IsValid (q : Queue) : Type 0 where
  pub head_in : q.head < tty_buf_size
  pub tail_in : q.tail < tty_buf_size

-- The number of characters held.
abbrev pub used : Queue → ℕ
used q = (q.tail + tty_buf_size - q.head) % tty_buf_size

abbrev pub contents : Queue → List ℕ
contents q = items q.buf q.head (used q)

pub length-items : (b : ℕ → ℕ) (i n : ℕ) → length (items b i n) ≡ n
length-items b i zero = refl
length-items b i (suc n) = ap suc (length-items b (i + 1) n)

pub items_snoc :
    (b : ℕ → ℕ) (i n : ℕ) → items b i (suc n) ≡ items b i n ++ b ((i + n) % tty_buf_size) ∷ []
items_snoc b i zero = ap (λ k. b (k % tty_buf_size) ∷ []) (omega arith)
items_snoc b i (suc n) =
    ap (λ l. b (i % tty_buf_size) ∷ l)
      (items_snoc b (i + 1) n
        ∙ ap (λ k. items b (i + 1) n ++ b (k % tty_buf_size) ∷ []) (omega arith))

-- Only the place modulo the size counts.
pub items_cong :
    (b : ℕ → ℕ) (i j n : ℕ) → i % tty_buf_size ≡ j % tty_buf_size → items b i n ≡ items b j n
items_cong b i j zero e = refl
items_cong b i j (suc n) e = ap₂ ◌∷◌ (ap b e) (items_cong b (i + 1) (j + 1) n (omega arith))

-- A write outside the stretch changes nothing in it.
pub items-update :
    (b : ℕ → ℕ) (v t i n : ℕ)
    → ((k : ℕ) → k < n → (i + k) % tty_buf_size ≢ t)
    → items (update b t v) i n ≡ items b i n
items-update b v t i zero out = refl
items-update b v t i (suc n) out =
    ap₂ ◌∷◌ (update_ne b t (i % tty_buf_size) v (λ e. out 0 (omega arith) (omega arith)))
      (items-update b v t (i + 1) n (λ k h e. out (k + 1) (omega arith) (omega arith)))
