-- ===== src/Tty/Text/Output.antt =====
-- printk and printf bring a text to the screen.
use neu_os.Prelude.{
  ℕ, ◌+◌, ◌<◌, ◌≤◌, ◌≡◌, refl, inl, inr, ◌∙◌, sym, ap, false, Option, none, some, List, [], ◌∷◌,
  ◌++◌, arith, length, length-append, append_nil, append_assoc, Bool-cases, leb, ◌==◌,
  if◌then◌else◌,
}
use neu_os.Print.{Arg, vsprintf}
use neu_os.Tty.Queue.{Queue, tty_buf_size, tty_push_q}
use neu_os.Tty.Queue.Contents.{IsValid, contents}
use neu_os.Tty.Queue.Refine.{capacity, push_refines, push-IsValid, length-contents}
use neu_os.Tty.Line.{Terminal, con_write, tty_write, push_all, user_tty_write}
use neu_os.Tty.Line.Output.{put_all, con_write-Written}
use neu_os.Tty.Text.{push_string, print_text, printk, string, send_text, printf}

push_string-push_all : (text : List ℕ) (q : Queue) → push_string text q ≡ push_all (string text) q
unfolding push_string string push_all
push_string-push_all [] q = refl
push_string-push_all (c ∷ cs) q = elim (Bool-cases (c == 0)) [
  | inl z ↦ rw z refl
  | inr nz ↦ rw (nz, push_string-push_all cs (tty_push_q q c).1) refl
]

print_text-send_text :
    (rounds : ℕ) (t : Terminal) (o : Option (List ℕ)) → print_text rounds t o ≡ send_text rounds t o
unfolding print_text send_text tty_write user_tty_write
print_text-send_text rounds t none = refl
print_text-send_text rounds t (some text) =
    ap
      (λ q.
        if leb tty_buf_size (length text)
        then none
        else con_write rounds (record t { write_q = q }))
      (push_string-push_all text t.write_q)

-- On every terminal, format and arguments printk of the kernel and printf of the library have the same
-- outcome.
pub printk-printf :
    (rounds digits : ℕ) (fmt : List ℕ) (args : List Arg) (t : Terminal)
    → printk rounds digits fmt args t ≡ printf rounds digits fmt args t
unfolding printk printf
printk-printf rounds digits fmt args t = print_text-send_text rounds t (vsprintf digits fmt args)

-- Characters that have room are appended.
push_all-contents :
    (cs : List ℕ) {q : Queue}
    → IsValid q
    → length (contents q) + length cs ≤ capacity
    → (contents (push_all cs q) ≡ contents q ++ cs) × IsValid (push_all cs q)
unfolding push_all
push_all-contents [] {q} v room = (sym (append_nil (contents q)), v)
push_all-contents (c ∷ cs) {q} v room =
    let here : contents (tty_push_q q c).1 ≡ contents q ++ c ∷ [] =
      ground (arith, push_refines c v) in
    let (held, valid) =
      push_all-contents cs (push-IsValid c v)
        (omega (arith, ap length here, length-append (contents q) (c ∷ []))) in
    (held ∙ ap (λ l. l ++ cs) here ∙ append_assoc (contents q) (c ∷ []) cs, valid)

length-string : (text : List ℕ) → length (string text) ≤ length text
unfolding string
length-string [] = omega arith
length-string (c ∷ cs) = ground (arith, length-string cs)

-- If the write queue of a terminal is empty and the formatted text, with its final 0, fits into the 1024 bytes of
-- printk, then printk puts on the screen the text up to its first 0, leaves the queue empty and valid, and changes
-- nothing else; a round more than there are characters is enough.
pub printk-Written :
    (rounds digits : ℕ) (fmt : List ℕ) (args : List Arg) (text : List ℕ) (t : Terminal)
    → IsValid t.write_q
    → contents t.write_q ≡ []
    → vsprintf digits fmt args ≡ some text
    → length text < tty_buf_size
    → length text < rounds
    → (t' : Terminal) × (printk rounds digits fmt args t ≡ some t')
      × (t'.screen ≡ put_all (string text) t.screen)
      × (contents t'.write_q ≡ [])
      × (t'.buffer ≡ t.buffer)
      × (t'.read_q ≡ t.read_q)
      × (t'.task ≡ t.task)
      × IsValid t'.write_q
unfolding printf send_text user_tty_write tty_write
printk-Written rounds digits fmt args text t v empty printed short enough =
    let (held, valid) =
      push_all-contents (string text) v (omega (arith, ap length empty, length-string text)) in
    let queued : contents (push_all (string text) t.write_q) ≡ string text =
      held ∙ ap (λ l. l ++ string text) empty in
    let fits : leb tty_buf_size (length text) ≡ false = ground arith in
    let (t', run, w) =
      con_write-Written rounds (record t { write_q = push_all (string text) t.write_q }) valid
        (omega (
          arith,
          ap length queued,
          length-contents (push_all (string text) t.write_q),
          length-string text,
        )) in
    (
      t',
      printk-printf rounds digits fmt args t ∙ rw printed (rw fits run),
      w.shown ∙ ap (λ l. put_all l t.screen) queued,
      w.emptied,
      w.buffer,
      w.read_q,
      w.task,
      w.valid,
    )
