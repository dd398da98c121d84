-- ===== src/Tty/Text/Input.antt =====
-- getline of lib/getline.c reads a line of the terminal's buffer.
use neu_os.Prelude.{
  ℕ, zero, suc, ◌+◌, ◌≤◌, ◌<◌, ◌≡◌, refl, ap, Bool, true, false, ◌||◌, some, List, [], ◌∷◌, ◌++◌,
  arith, length, length-append,
}
use neu_os.Tty.Queue.{Queue, Wake}
use neu_os.Tty.Queue.Contents.{IsValid, contents}
use neu_os.Tty.Read.{ends_line}
use neu_os.Tty.Read.Line.{has_end, behind, last, more, tty_read-Stops}
use neu_os.Tty.Text.{getline_loop, getline}

line_end : (line rest : List ℕ) (e : ℕ) → ends_line e ≡ true → has_end (line ++ e ∷ rest) ≡ true
line_end [] rest e end = ap (λ b. b || has_end rest) end
line_end (c ∷ cs) rest e end = ground (arith, line_end cs rest e end)

module _ (me seek : ℕ) (signal : Bool) (ws : List Wake) where
  getline_loop-line :
      (line rest : List ℕ) (e rounds : ℕ) {q : Queue}
      → IsValid q
      → contents q ≡ line ++ e ∷ rest
      → has_end line ≡ false
      → ends_line e ≡ true
      → length line + suc (length rest) ≤ seek
      → length line < rounds
      → (q' : Queue) × (getline_loop me seek rounds signal q ws
          ≡ some (length line, line, signal, q', ws))
        × (contents q' ≡ rest)
        × IsValid q'
  unfolding getline_loop
  getline_loop-line line rest e zero v held plain end enough lt = absurd (omega arith)
  getline_loop-line [] rest e (suc rounds) v held plain end enough lt =
      let (q', run, kept, valid) =
        tty_read-Stops me seek signal ws (e ∷ []) rest (last end) v held (omega arith) in
      (q', rw (getline_loop, run) (rw end refl), kept, valid)
  getline_loop-line (c ∷ cs) rest e (suc rounds) v held plain end enough lt =
      let (q', run, kept, valid) =
        tty_read-Stops me seek signal ws (c ∷ []) (cs ++ e ∷ rest)
          (more (behind (line_end cs rest e end))) v held
          (omega (arith, length-append cs (e ∷ rest))) in
      let goes_on : ends_line c ≡ false = ground arith in
      let (q'', run', kept', valid') =
        getline_loop-line cs rest e rounds valid kept (ground arith) end (omega arith)
          (omega arith) in
      (
        q'',
        rw (getline_loop, run)
            (rw goes_on (rw run' (ap (λ n. some (n, c ∷ cs, signal, q'', ws)) (omega arith)))),
        kept',
        valid',
      )

  -- If the terminal's buffer holds a line without a line end in it, a line feed or -1 behind it, and then
  -- `rest`, getline returns the length of the line and gives the line, without a sleep, and `rest` stays in
  -- the buffer. That holds unless the uninitialised `ch` happens to hold a line end. A round for each
  -- character read is enough, and for a search as many as there are characters held.
  pub getline-line :
      (line rest : List ℕ) (e ch rounds : ℕ) {q : Queue}
      → IsValid q
      → contents q ≡ line ++ e ∷ rest
      → has_end line ≡ false
      → ends_line e ≡ true
      → ends_line ch ≡ false
      → length line + suc (length rest) ≤ seek
      → length line < rounds
      → (q' : Queue) × (getline me seek rounds ch signal q ws
          ≡ some (length line, line, signal, q', ws))
        × (contents q' ≡ rest)
        × IsValid q'
  unfolding getline
  getline-line line rest e ch rounds v held plain end luck enough lt =
      let (q', run, kept, valid) =
        getline_loop-line line rest e rounds v held plain end enough lt in
      (q', rw luck run, kept, valid)
