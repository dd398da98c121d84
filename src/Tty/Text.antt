-- ===== src/Tty/Text.antt =====
-- Text to and from the terminal: printk of kernel/printk.c, and the library calls printf of lib/printf.c and
-- getline of lib/getline.c, whose system calls end in _user_tty_write and tty_read. What printk and the
-- queue's functions report on the serial line is left out.
pub mod Output
pub mod Lines
pub mod Input
mod Examples
use neu_os.Prelude.{
  ℕ, zero, suc, ◌+◌, ◌-◌, Bool, ◌||◌, Option, none, some, List, [], ◌∷◌, length, leb, ◌==◌,
  if◌then◌else◌,
}
use neu_os.Print.{Arg, vsprintf}
use neu_os.Tty.Queue.{Queue, Wake, tty_buf_size, tty_push_q}
use neu_os.Tty.Line.{Terminal, tty_write, user_tty_write}
use neu_os.Tty.Read.{Read, returned, waiting, ends_line, tty_read}

-- `while(*ptr)` of printk: the characters before a 0.
unfoldable pub push_string : List ℕ → Queue → Queue
push_string [] q = q
push_string (c ∷ cs) q =
    let after = push_string cs (tty_push_q q c).1 in if c == 0 then q else after

unfoldable pub print_text : ℕ → Terminal → Option (List ℕ) → Option Terminal
unfolding push_string tty_write
print_text rounds t none = none
print_text rounds t (some text) =
    let written = tty_write rounds (record t { write_q = push_string text t.write_q }) in
    if leb tty_buf_size (length text) then none else written

-- None for a text that does not fit into the 1024 bytes of `buf`, with its final 0.
unfoldable pub printk : ℕ → ℕ → List ℕ → List Arg → Terminal → Option Terminal
unfolding print_text
printk rounds digits fmt args t = print_text rounds t (vsprintf digits fmt args)

-- The string in `buf`, which the second loop of printf measures.
unfoldable pub string : List ℕ → List ℕ
string [] = []
string (c ∷ cs) = if c == 0 then [] else c ∷ string cs

unfoldable pub send_text : ℕ → Terminal → Option (List ℕ) → Option Terminal
unfolding string user_tty_write
send_text rounds t none = none
send_text rounds t (some text) =
    let written = user_tty_write rounds (string text) t in
    if leb tty_buf_size (length text) then none else written

unfoldable pub printf : ℕ → ℕ → List ℕ → List Arg → Terminal → Option Terminal
unfolding send_text
printf rounds digits fmt args t = send_text rounds t (vsprintf digits fmt args)

-- What getline returns: its result, the string without its final 0, and the buffer; none when the process
-- still sleeps, when the rounds run out, and when a read gives no character.
abbrev pub Line : Type 0
Line = Option (ℕ × List ℕ × Bool × Queue × List Wake)

abbrev add_char : ℕ → Line → Line
add_char ch none = none
add_char ch (some (len, line, signal, q, ws)) = some (len + 1, ch ∷ line, signal, q, ws)

module _ (me seek : ℕ) where
  -- One round: a character read, and whether the loop goes on. `*(p - 1) = '\0'` takes the last character
  -- from the string, and the result is one less than the number read.
  unfoldable pub getline_loop : ℕ → Bool → Queue → List Wake → Line
  unfolding tty_read
  getline_loop zero signal q ws = none
  getline_loop (suc rounds) signal q ws = elim (tty_read me seek 1 signal q ws) [
    | returned n [] signal' q' ws' ↦ none
    | returned n (ch ∷ more) signal' q' ws' ↦
        let on = getline_loop rounds signal' q' ws' in
        if ends_line ch then some (0, [], signal', q', ws') else add_char ch on
    | _ ↦ none
  ]

  -- `ch` is what the uninitialised variable holds: with a line feed or -1 in it getline reads nothing and
  -- writes before its string.
  unfoldable pub getline : ℕ → ℕ → Bool → Queue → List Wake → Line
  unfolding getline_loop
  getline rounds ch signal q ws =
      let reading = getline_loop rounds signal q ws in if ends_line ch then none else reading
