-- ===== src/Tty/Read.antt =====
-- tty_read of kernel/chr_drv/tty_io.c, which reads `nr` characters of the terminal's buffer for a process.
-- The characters that put_fs_byte writes to user space are a list, the last one first. The two nested loops
-- are one while characters are wanted, since the outer one only goes on with the inner one then.
pub mod Line
mod Examples
use neu_os.Prelude.{
  ℕ, zero, suc, ◌+◌, Bool, false, ◌||◌, Option, none, some, ◌&&◌, List, [], ◌∷◌, length, leb, ◌==◌,
  if◌then◌else◌,
}
use neu_os.Prelude.Words.{minus_one, slt}
use neu_os.Tty.Queue.{Queue, Wake, tty_buf_size, tty_pop_q, tty_push_q_front}

-- `read status chars`: tty_read returns with the characters given to the user, the last one first.
-- `waiting`: the process still sleeps when the wakes are used up; `overrun`: a write behind tmpbuf;
-- `out_of_rounds`: the rounds of the loop that looks for the end of the line run out.
pub data Read : Type 0 where
  waiting overrun out_of_rounds : Read
  returned : ℕ → List ℕ → Bool → Queue → List Wake → Read

abbrev pub ends_line : ℕ → Bool
ends_line ch = (ch == 10) || (ch == 255)

-- `for (int i = tmpbuf_len - 1; i >= 0; i--)`
unfoldable pub put_back : List ℕ → Queue → Queue
put_back [] q = q
put_back (c ∷ cs) q = put_back cs (tty_push_q_front q c).1

module _ (me : ℕ) where
  -- The inner loop when no more characters are wanted: up to the end of the line, and back. `len` is the
  -- result, `out` the characters given, `tmp` the list in tmpbuf, the last one first.
  unfoldable pub seek_end : ℕ → ℕ → List ℕ → List ℕ → Bool → Queue → List Wake → Read
  unfolding put_back
  seek_end zero len out tmp signal q ws = out_of_rounds
  seek_end (suc rounds) len out tmp signal q ws = elim (tty_pop_q me signal q ws) [
    | none ↦ waiting
    | some (ch, signal', q', ws') ↦
        let on = seek_end rounds len out (ch ∷ tmp) signal' q' ws' in
        if leb tty_buf_size (length tmp)
        then overrun
        else if ends_line ch
        then returned len out signal' (put_back (ch ∷ tmp) q') ws'
        else on
  ]

  -- With `nr` characters wanted.
  unfoldable pub read_loop : ℕ → ℕ → ℕ → List ℕ → Bool → Queue → List Wake → Read
  unfolding seek_end
  read_loop rounds zero len out signal q ws = seek_end rounds len out [] signal q ws
  read_loop rounds (suc nr) len out signal q ws = elim (tty_pop_q me signal q ws) [
    | none ↦ waiting
    | some (ch, signal', q', ws') ↦
        let on = read_loop rounds nr (len + 1) (ch ∷ out) signal' q' ws' in
        if ends_line ch && (nr == 0) then returned (len + 1) (ch ∷ out) signal' q' ws' else on
  ]

  -- tty_read of the process `me`; `channel` is set to 0, which the test of it lets pass.
  unfoldable pub tty_read : ℕ → ℕ → Bool → Queue → List Wake → Read
  unfolding read_loop
  tty_read rounds nr signal q ws =
      let reading = read_loop rounds nr 0 [] signal q ws in
      if slt nr 0 then returned minus_one [] signal q ws else reading
