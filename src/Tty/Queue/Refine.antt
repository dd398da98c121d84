-- ===== src/Tty/Queue/Refine.antt =====
-- A valid queue behaves as a list of at most 1023 characters, whatever is called on it.
use neu_os.Prelude.{
  ℕ, suc, ◌+◌, ◌-◌, ◌%◌, ◌<◌, ◌≡◌, refl, ◌≢◌, ap, ap₂, ◌∙◌, true, false, List, [], ◌∷◌, ◌++◌, arith,
  length, update, update_self, ◌==◌, if◌then◌else◌, Bool-cases, inl, inr,
}
use neu_os.Prelude.Words.{minus_one, word_mod}
use neu_os.Tty.Queue.{
  Queue, tty_buf_size, tty_isempty_q, tty_isfull_q, take_head, tty_push_q, tty_push_q_front, Op,
  push, push_front, pop, apply, apply_all,
}
use neu_os.Tty.Queue.Contents.{
  items, IsValid, used, contents, length-items, items_snoc, items_cong, items-update,
}

-- One place stays free.
abbrev pub capacity : ℕ
capacity = 1023

pub length-contents : (q : Queue) → length (contents q) ≡ used q
length-contents q = length-items q.buf q.head (used q)

pub isempty-used : {q : Queue} → IsValid q → tty_isempty_q q ≡ (used q == 0)
unfolding tty_isempty_q
isempty-used v = ground arith

pub isfull-used : {q : Queue} → IsValid q → tty_isfull_q q ≡ (used q == capacity)
unfolding tty_isfull_q
isfull-used v = ground arith

-- The specification: a bounded list, oldest character first.
abbrev pub bounded_push : ℕ → List ℕ → List ℕ
bounded_push ch cs = if length cs == capacity then cs else cs ++ ch ∷ []

abbrev pub bounded_push_front : ℕ → List ℕ → List ℕ
bounded_push_front ch cs = if length cs == capacity then cs else ch ∷ cs

abbrev pub bounded_pop : List ℕ → List ℕ
bounded_pop [] = []
bounded_pop (c ∷ cs) = cs

pub push-IsValid : {q : Queue} (ch : ℕ) → IsValid q → IsValid (tty_push_q q ch).1
unfolding tty_push_q
push-IsValid ch v = ground arith

pub push_front-IsValid : {q : Queue} (ch : ℕ) → IsValid q → IsValid (tty_push_q_front q ch).1
unfolding tty_push_q_front
push_front-IsValid ch v = ground arith

pub take_head-IsValid : {q : Queue} → IsValid q → IsValid (take_head q).1
unfolding take_head
take_head-IsValid v = ground arith

push_room :
    {q : Queue} (ch : ℕ)
    → IsValid q
    → used q < capacity
    → items (update q.buf q.tail ch) q.head (suc (used q)) ≡ contents q ++ ch ∷ []
push_room {q} ch v room =
    items_snoc (update q.buf q.tail ch) q.head (used q)
    ∙ ap₂ (λ l c. l ++ c ∷ []) (items-update q.buf ch q.tail q.head (used q) (λ k h e. omega arith))
        (ap (update q.buf q.tail ch) (omega arith) ∙ update_self q.buf q.tail ch)

-- The status and the list after a push.
abbrev pub pushed_status : List ℕ → ℕ
pushed_status cs = if length cs == capacity then minus_one else 0

push_full :
    {q : Queue} (ch : ℕ)
    → IsValid q
    → used q ≡ capacity
    → (tty_push_q q ch ≡ (minus_one, q)) × (tty_push_q_front q ch ≡ (minus_one, q))
unfolding tty_push_q tty_push_q_front
push_full ch v e = ground arith

-- The queue after a push that has room, and after one at the front.
abbrev pushed : Queue → ℕ → Queue
pushed q ch = record q { buf = update q.buf q.tail ch; tail = (q.tail + 1) % tty_buf_size }

abbrev front : Queue → ℕ
front q = (q.head + 1023) % tty_buf_size

abbrev pushed_front : Queue → ℕ → Queue
pushed_front q ch = record q { head = front q; buf = update q.buf (front q) ch }

push_roomy :
    {q : Queue} (ch : ℕ)
    → IsValid q
    → used q < capacity
    → (tty_push_q q ch ≡ (0, pushed q ch)) × (tty_push_q_front q ch ≡ (0, pushed_front q ch))
unfolding tty_push_q tty_push_q_front
push_roomy ch v room = ground arith

contents-pushed :
    {q : Queue} (ch : ℕ)
    → IsValid q
    → used q < capacity
    → contents (pushed q ch) ≡ contents q ++ ch ∷ []
contents-pushed {q} ch v room =
    ap (items (update q.buf q.tail ch) q.head) {y = suc (used q)} (omega arith)
    ∙ push_room ch v room

contents-pushed_front :
    {q : Queue} (ch : ℕ)
    → IsValid q
    → used q < capacity
    → contents (pushed_front q ch) ≡ ch ∷ contents q
contents-pushed_front {q} ch v room =
    ap (items (update q.buf (front q) ch) (front q)) {y = suc (used q)} (omega arith)
    ∙ ap₂ ◌∷◌ (ap (update q.buf (front q) ch) (omega arith) ∙ update_self q.buf (front q) ch) (
        items_cong (update q.buf (front q) ch) (front q + 1) q.head (used q) (omega arith)
        ∙ items-update q.buf ch (front q) q.head (used q) (λ k h e. omega arith))

-- tty_push_q fails with -1 and changes nothing when 1023 characters are held; otherwise it returns
-- 0 and appends the character.
pub push_refines :
    {q : Queue} (ch : ℕ)
    → IsValid q
    → ((tty_push_q q ch).0 ≡ pushed_status (contents q))
      × (contents (tty_push_q q ch).1 ≡ bounded_push ch (contents q))
push_refines {q} ch v = elim (Bool-cases (used q == capacity)) [
  | inl full ↦ ground (arith, length-contents q, push_full ch v)
  | inr room ↦ ground (arith, length-contents q, push_roomy ch v, contents-pushed ch v)
]

-- tty_push_q_front fails with -1 and changes nothing when 1023 characters are held; otherwise it
-- returns 0 and puts the character before all others, also when the head stands at index 0.
pub push_front_refines :
    {q : Queue} (ch : ℕ)
    → IsValid q
    → ((tty_push_q_front q ch).0 ≡ pushed_status (contents q))
      × (contents (tty_push_q_front q ch).1 ≡ bounded_push_front ch (contents q))
push_front_refines {q} ch v = elim (Bool-cases (used q == capacity)) [
  | inl full ↦ ground (arith, length-contents q, push_full ch v)
  | inr room ↦ ground (arith, length-contents q, push_roomy ch v, contents-pushed_front ch v)
]

-- On a queue that holds something, the read of tty_pop_q takes the oldest character and leaves the
-- others in order.
pub take_head_refines :
    {q : Queue}
    → IsValid q
    → tty_isempty_q q ≡ false
    → contents q ≡ (take_head q).0 ∷ contents (take_head q).1
unfolding take_head
take_head_refines {q} v e =
    let some_held : used q ≢ 0 = ground (arith, isempty-used v) in
    ap (items q.buf q.head) {y = suc (used q - 1)} (omega arith)
    ∙ ap₂ ◌∷◌ (ap q.buf (omega arith)) (
        items_cong q.buf (q.head + 1) ((q.head + 1) % word_mod % tty_buf_size) (used q - 1)
          (omega arith)
        ∙ ap (items q.buf ((q.head + 1) % word_mod % tty_buf_size)) {y = used (take_head q).1}
            (omega arith))

pub contents-empty : {q : Queue} → IsValid q → tty_isempty_q q ≡ true → contents q ≡ []
contents-empty {q} v e = ap (items q.buf q.head) {y = 0} (ground (arith, isempty-used v))

-- The specification of a sequence of calls.
abbrev pub bounded_apply : Op → List ℕ → List ℕ
bounded_apply (push ch) cs = bounded_push ch cs
bounded_apply (push_front ch) cs = bounded_push_front ch cs
bounded_apply pop cs = bounded_pop cs

abbrev pub bounded_apply_all : List Op → List ℕ → List ℕ
bounded_apply_all [] cs = cs
bounded_apply_all (o ∷ os) cs = bounded_apply_all os (bounded_apply o cs)

pub apply-IsValid : (o : Op) {q : Queue} → IsValid q → IsValid (apply o q)
unfolding apply
apply-IsValid (push ch) v = push-IsValid ch v
apply-IsValid (push_front ch) v = push_front-IsValid ch v
apply-IsValid pop v = ground (arith, take_head-IsValid v)

pub apply_refines :
    (o : Op) {q : Queue} → IsValid q → contents (apply o q) ≡ bounded_apply o (contents q)
unfolding apply
apply_refines (push ch) v = (push_refines ch v).1
apply_refines (push_front ch) v = (push_front_refines ch v).1
apply_refines pop {q} v = elim (Bool-cases (tty_isempty_q q)) [
  | inl e ↦ rw (e, contents-empty v e)
  | inr e ↦ rw (e, take_head_refines v e)
]

-- The same for the calls that are made while a process sleeps.
pub apply_all_refines :
    (os : List Op) {q : Queue}
    → IsValid q
    → IsValid (apply_all os q) × (contents (apply_all os q) ≡ bounded_apply_all os (contents q))
unfolding apply_all
apply_all_refines [] v = (v, refl)
apply_all_refines (o ∷ os) v =
    let (valid, held) = apply_all_refines os (apply-IsValid o v) in
    (valid, held ∙ ap (bounded_apply_all os) (apply_refines o v))
