-- ===== src/Tty/Text/Lines.antt =====
-- Calls of printk (kernel/printk.c) one after another, each with a format and its arguments.
use Prim.Native.String.{String}
use Prim.Native.Char.{code}
use neu_os.Prelude.{
  ℕ, ◌<◌, ◌≡◌, refl, ◌∙◌, ap, sym, Option, none, some, List, [], ◌∷◌, ◌++◌, length,
}
use neu_os.Console.{Vga, video_putchar}
use neu_os.Print.{Arg, vsprintf}
use neu_os.Tty.Queue.{tty_buf_size}
use neu_os.Tty.Queue.Contents.{IsValid, contents}
use neu_os.Tty.Line.{Terminal}
use neu_os.Tty.Line.Output.{put_all}
use neu_os.Tty.Text.{printk, string}
use neu_os.Tty.Text.Output.{printk-Written}

-- A string literal of C, without its final 0.
abbrev pub codes : String → List ℕ
codes String.[] = []
codes (String.◌∷◌ c s) = code c ∷ codes s

-- A format and its arguments.
abbrev pub Line : Type 0
Line = List ℕ × List Arg

abbrev and_then : Option Terminal → (Terminal → Option Terminal) → Option Terminal
and_then none f = none
and_then (some t) f = f t

-- printk of each line.
unfoldable pub print_lines : ℕ → ℕ → List Line → Terminal → Option Terminal
print_lines rounds digits [] t = some t
print_lines rounds digits (l ∷ ls) t =
    and_then (printk rounds digits l.0 l.1 t) (print_lines rounds digits ls)

-- The lines have these texts, each of which fits into the buffer of printk.
abbrev pub Texts : ℕ → ℕ → List Line → List (List ℕ) → Type 0
Texts rounds digits [] [] = Unit {0}
Texts rounds digits (l ∷ ls) (x ∷ xs) =
    (vsprintf digits l.0 l.1 ≡ some x)
    × (length x < tty_buf_size)
    × (length x < rounds)
    × Texts rounds digits ls xs
Texts rounds digits _ _ = ⊥

-- What is seen of the texts, each up to its first 0.
abbrev pub all_text : List (List ℕ) → List ℕ
all_text [] = []
all_text (x ∷ xs) = string x ++ all_text xs

put_all-append : (a b : List ℕ) (v : Vga) → put_all (a ++ b) v ≡ put_all b (put_all a v)
put_all-append [] b v = refl
put_all-append (c ∷ cs) b v = put_all-append cs b (video_putchar c v)

-- The terminal after the lines.
pub record Shown (text : List ℕ) (t t' : Terminal) : Type 0 where
  pub screen : t'.screen ≡ put_all text t.screen
  pub empty : contents t'.write_q ≡ []
  pub valid : IsValid t'.write_q
  pub task : t'.task ≡ t.task

-- If the write queue is empty and each line has a text that fits, the calls of printk bring all the texts
-- to the screen, in order, and leave the queue empty.
pub print_lines-Shown :
    (rounds digits : ℕ) (ls : List Line) (xs : List (List ℕ)) (t : Terminal)
    → Texts rounds digits ls xs
    → IsValid t.write_q
    → contents t.write_q ≡ []
    → (t' : Terminal) × (print_lines rounds digits ls t ≡ some t') × Shown (all_text xs) t t'
unfolding print_lines
print_lines-Shown rounds digits [] [] t fits valid empty =
    (t, refl, record { screen = refl; empty = empty; valid = valid; task = refl })
print_lines-Shown rounds digits (l ∷ ls) (x ∷ xs) t fits valid empty =
    let (t₁, run, screen, drained, buffer, read_q, task, valid₁) =
      printk-Written rounds digits l.0 l.1 x t valid empty fits.0 fits.1 fits.2 in
    let (t', on, s) = print_lines-Shown rounds digits ls xs t₁ fits.3 valid₁ drained in
    (
      t',
      ap (λ o. and_then o (print_lines rounds digits ls)) run ∙ on,
      record {
        screen =
            s.screen
            ∙ ap (put_all (all_text xs)) screen
            ∙ sym (put_all-append (string x) (all_text xs) t.screen);
        empty = s.empty;
        valid = s.valid;
        task = s.task ∙ task;
      },
    )
print_lines-Shown rounds digits [] (x ∷ xs) t fits valid empty = absurd fits
print_lines-Shown rounds digits (l ∷ ls) [] t fits valid empty = absurd fits
