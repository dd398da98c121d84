-- ===== src/Tty/Line/Input.antt =====
-- copy_to_buffer of kernel/chr_drv/tty_io.c ends and takes every character typed.
use Prim.Native.Nat.{bit_or}
use neu_os.Prelude.{
  ℕ, zero, suc, ◌≤◌, ◌<◌, ◌≡◌, refl, inl, inr, ◌∙◌, sym, ap, false, some, [], arith, Bool-cases,
  Option-cases, ◌==◌,
}
use mathlib.Core.Path.{subst}
use neu_os.Tty.Queue.{Queue, tty_buf_size, tty_isempty_q, take_head, tty_push_q}
use neu_os.Tty.Queue.Contents.{IsValid, contents, used}
use neu_os.Tty.Queue.Refine.{contents-empty, take_head-IsValid, push-IsValid}
use neu_os.Tty.Line.{Terminal, edit, echo, copy_char, copy_to_buffer, tty_echo}
use neu_os.Tty.Line.Output.{con_write-Written, used-take_head}

-- The read queue is the one given, and the write queue is valid.
record Kept (q : Queue) (t : Terminal) : Type 0 where
  read_q : t.read_q ≡ q
  valid : IsValid t.write_q

echo-Kept :
    (inner ch : ℕ) (t : Terminal)
    → tty_buf_size ≤ inner
    → IsValid t.write_q
    → (t' : Terminal) × (echo inner ch t ≡ some t') × Kept t.read_q t'
unfolding echo
echo-Kept inner ch t enough v = elim (Bool-cases (bit_or t.flags tty_echo == 0)) [
  | inl off ↦ (t, rw off refl, record { read_q = refl; valid = v })
  | inr on ↦
      let pushed : Terminal = record t { write_q = (tty_push_q t.write_q ch).1 } in
      let (t', run, w) = con_write-Written inner pushed (push-IsValid ch v) (omega arith) in
      (t', rw on run, record { read_q = w.read_q; valid = w.valid })
]

edit-Kept :
    (ch : ℕ) (t : Terminal) {t' : Terminal}
    → edit ch t ≡ some t'
    → (t'.read_q ≡ t.read_q) × (t'.write_q ≡ t.write_q)
unfolding edit
edit-Kept ch t e = ground arith

copy_char-Kept :
    (inner : ℕ) (t : Terminal)
    → tty_buf_size ≤ inner
    → IsValid t.write_q
    → (t' : Terminal) × (copy_char inner t ≡ some t') × Kept (take_head t.read_q).1 t'
unfolding copy_char
copy_char-Kept inner t enough v =
    let popped : Terminal = record t { read_q = (take_head t.read_q).1 } in
    elim (Option-cases (edit (take_head t.read_q).0 popped)) [
      | inl skipped ↦ (popped, rw (copy_char, skipped) refl, record { read_q = refl; valid = v })
      | inr (edited, e) ↦
          let kept = edit-Kept (take_head t.read_q).0 popped e in
          let (t', run, k) =
            echo-Kept inner (take_head t.read_q).0 edited enough (subst IsValid (sym kept.1) v) in
          (t', rw (copy_char, e) run, record { read_q = k.read_q ∙ kept.0; valid = k.valid })
    ]

copy_to_buffer-go :
    (inner rounds : ℕ) (t : Terminal) {t' : Terminal}
    → tty_isempty_q t.read_q ≡ false
    → copy_char inner t ≡ some t'
    → copy_to_buffer inner (suc rounds) t ≡ copy_to_buffer inner rounds t'
unfolding copy_to_buffer
copy_to_buffer-go inner rounds t e run = rw (e, run) refl

-- With valid read and write queues copy_to_buffer returns, whatever its buffer holds and whatever is
-- typed, given more rounds than characters typed and 1024 rounds for con_write; every character is taken
-- from the read queue, and both queues stay valid.
pub copy_to_buffer_ends :
    (inner rounds : ℕ) (t : Terminal)
    → IsValid t.read_q
    → IsValid t.write_q
    → tty_buf_size ≤ inner
    → used t.read_q < rounds
    → (t' : Terminal) × (copy_to_buffer inner rounds t ≡ some t')
      × (contents t'.read_q ≡ [])
      × IsValid t'.read_q
      × IsValid t'.write_q
unfolding copy_to_buffer
copy_to_buffer_ends inner zero t vr vw enough h = absurd (omega arith)
copy_to_buffer_ends inner (suc rounds) t vr vw enough h =
    elim (Bool-cases (tty_isempty_q t.read_q)) [
      | inl e ↦ (t, rw e refl, contents-empty vr e, vr, vw)
      | inr e ↦
          let (t', run, k) = copy_char-Kept inner t enough vw in
          let (t'', rest, held, vr', vw') =
            copy_to_buffer_ends inner rounds t'
              (subst IsValid (sym k.read_q) (take_head-IsValid vr)) k.valid enough
              (omega (arith, ap used k.read_q, used-take_head vr e)) in
          (t'', copy_to_buffer-go inner rounds t e run ∙ rest, held, vr', vw')
    ]
