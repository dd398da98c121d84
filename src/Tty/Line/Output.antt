-- ===== src/Tty/Line/Output.antt =====
-- con_write (kernel/chr_drv/vga_console.c) shows all that is queued, and copy_to_buffer (tty_io.c) ends.
use neu_os.Prelude.{
  ℕ, zero, suc, ◌<◌, ◌≡◌, refl, inl, inr, ◌∙◌, sym, ap, true, false, some, List, [], ◌∷◌, arith,
  length, Bool-cases,
}
use neu_os.Console.{Vga, video_putchar}
use neu_os.Tty.Queue.{Queue, tty_isempty_q, take_head}
use neu_os.Tty.Queue.Contents.{IsValid, contents, used}
use neu_os.Tty.Queue.Refine.{length-contents, contents-empty, take_head_refines, take_head-IsValid}
use neu_os.Tty.Line.{Terminal, show_char, con_write}

-- The characters put on the screen, in order.
abbrev pub put_all : List ℕ → Vga → Vga
put_all [] v = v
put_all (c ∷ cs) v = put_all cs (video_putchar c v)

-- The terminal after con_write: the characters of its queue are on the screen, and all else is as before.
pub record Written (t t' : Terminal) : Type 0 where
  pub shown : t'.screen ≡ put_all (contents t.write_q) t.screen
  pub emptied : contents t'.write_q ≡ []
  pub valid : IsValid t'.write_q
  pub flags : t'.flags ≡ t.flags
  pub read_q : t'.read_q ≡ t.read_q
  pub buffer : t'.buffer ≡ t.buffer
  pub task : t'.task ≡ t.task

con_write-stop :
    (rounds : ℕ) (t : Terminal) → tty_isempty_q t.write_q ≡ true → con_write (suc rounds) t ≡ some t
unfolding con_write
con_write-stop rounds t e = rw e refl

con_write-go :
    (rounds : ℕ) (t : Terminal)
    → tty_isempty_q t.write_q ≡ false
    → con_write (suc rounds) t ≡ con_write rounds (show_char t)
unfolding con_write
con_write-go rounds t e = rw e refl

show_char-fields : (t : Terminal) → (show_char t).write_q ≡ (take_head t.write_q).1
unfolding show_char
show_char-fields t = refl

pub used-take_head :
    {q : Queue} → IsValid q → tty_isempty_q q ≡ false → used q ≡ suc (used (take_head q).1)
used-take_head {q} v e =
    sym (length-contents q)
    ∙ ap length (take_head_refines v e)
    ∙ ap suc (length-contents (take_head q).1)

show_char-Written :
    {t t' : Terminal}
    → IsValid t.write_q
    → tty_isempty_q t.write_q ≡ false
    → Written (show_char t) t'
    → Written t t'
unfolding show_char
show_char-Written {t} {t'} v e w = record {
  shown = w.shown ∙ ap (λ cs. put_all cs t.screen) (sym (take_head_refines v e));
  emptied = w.emptied;
  valid = w.valid;
  flags = w.flags;
  read_q = w.read_q;
  buffer = w.buffer;
  task = w.task;
}

-- On a valid write queue con_write returns, given more rounds than characters queued; it puts them on
-- the screen, oldest first, leaves the queue empty, and changes nothing else.
pub con_write-Written :
    (rounds : ℕ) (t : Terminal)
    → IsValid t.write_q
    → used t.write_q < rounds
    → (t' : Terminal) × (con_write rounds t ≡ some t') × Written t t'
unfolding show_char
con_write-Written zero t v h = absurd (omega arith)
con_write-Written (suc rounds) t v h = elim (Bool-cases (tty_isempty_q t.write_q)) [
  | inl e ↦
      let none_held = contents-empty v e in
      (
        t,
        con_write-stop rounds t e,
        record {
          shown = ap (λ cs. put_all cs t.screen) (sym none_held);
          emptied = none_held;
          valid = v;
          flags = refl;
          read_q = refl;
          buffer = refl;
          task = refl;
        },
      )
  | inr e ↦
      let (t', run, w) =
        con_write-Written rounds (show_char t) (take_head-IsValid v)
          (omega (arith, used-take_head v e)) in
      (t', con_write-go rounds t e ∙ run, show_char-Written v e w)
]
