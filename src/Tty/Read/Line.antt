-- ===== src/Tty/Read/Line.antt =====
-- What tty_read of kernel/chr_drv/tty_io.c reads of a buffer that holds the end of a line.
use neu_os.Prelude.{
  ℕ, zero, suc, ◌+◌, ◌≤◌, ◌≡◌, refl, inl, inr, ◌∙◌, sym, ap, Bool, true, false, ◌||◌, ◌&&◌, List,
  [], ◌∷◌, ◌++◌, length, length-append, arith, Bool-cases, leb, ◌==◌,
}
use neu_os.Prelude.Words.{slt}
use neu_os.Tty.Queue.{Queue, Wake, tty_buf_size, tty_push_q_front}
use neu_os.Tty.Queue.Contents.{IsValid, contents}
use neu_os.Tty.Queue.Refine.{capacity, length-contents, push_front_refines, push_front-IsValid}
use neu_os.Tty.Queue.Pop.{tty_pop_q-holding}
use neu_os.Tty.Read.{Read, returned, ends_line, put_back, seek_end, read_loop, tty_read}

-- `cs` before `out`, from the last to the first.
abbrev pub reversed_onto : List ℕ → List ℕ → List ℕ
reversed_onto [] out = out
reversed_onto (c ∷ cs) out = reversed_onto cs (c ∷ out)

abbrev pub has_end : List ℕ → Bool
has_end [] = false
has_end (c ∷ cs) = ends_line c || has_end cs

empty_of_length : (cs : List ℕ) → length cs ≡ 0 → cs ≡ []
empty_of_length [] e = refl
empty_of_length (c ∷ cs) e = absurd (omega arith)

-- The characters put back stand before the others again.
put_back-contents :
    (cs : List ℕ) {q : Queue}
    → IsValid q
    → length cs + length (contents q) ≤ capacity
    → (contents (put_back cs q) ≡ reversed_onto cs (contents q)) × IsValid (put_back cs q)
unfolding put_back
put_back-contents [] v room = (refl, v)
put_back-contents (c ∷ cs) {q} v room =
    let here : contents (tty_push_q_front q c).1 ≡ c ∷ contents q =
      ground (arith, push_front_refines c v) in
    let (back, valid) =
      put_back-contents cs (push_front-IsValid c v) (omega (arith, ap length here)) in
    (back ∙ ap (reversed_onto cs) here, valid)

-- The characters wanted are there, and behind them, or as the last of them, the end of a line.
pub data Stops : List ℕ → List ℕ → Type 0 where
  behind : {rest : List ℕ} → has_end rest ≡ true → Stops [] rest
  last : {c : ℕ} {rest : List ℕ} → ends_line c ≡ true → Stops (c ∷ []) rest
  more : {c : ℕ} {cs rest : List ℕ} → Stops cs rest → Stops (c ∷ cs) rest

module _ (me : ℕ) (signal : Bool) (ws : List Wake) where
  -- A read that ends with the characters `out` given, the buffer holding `rest`.
  abbrev Reads : ℕ → List ℕ → List ℕ → Read → Type 0
  Reads len out rest r =
      (q' : Queue) × (r ≡ returned len out signal q' ws) × (contents q' ≡ rest) × IsValid q'

  seek_end-restores :
      (rounds len : ℕ) (out tmp line : List ℕ) {q : Queue}
      → IsValid q
      → contents q ≡ line
      → has_end line ≡ true
      → length tmp + length line ≤ capacity
      → length line ≤ rounds
      → Reads len out (reversed_onto tmp line) (seek_end me rounds len out tmp signal q ws)
  unfolding seek_end
  seek_end-restores rounds len out tmp [] v held end room enough = absurd (ground arith)
  seek_end-restores zero len out tmp (c ∷ cs) v held end room enough = absurd (omega arith)
  seek_end-restores (suc rounds) len out tmp (c ∷ cs) {q} v held end room enough =
      let (q', popped, rest, valid) = tty_pop_q-holding me signal ws v held in
      let small : leb tty_buf_size (length tmp) ≡ false = ground arith in
      elim (Bool-cases (ends_line c)) [
        | inl stop ↦
            let (back, valid') =
              put_back-contents (c ∷ tmp) valid (omega (arith, ap length rest)) in
            (
              put_back (c ∷ tmp) q',
              rw (seek_end, popped) (rw (small, stop) refl),
              back ∙ ap (reversed_onto (c ∷ tmp)) rest,
              valid',
            )
        | inr go ↦
            let (q'', run, kept, valid'') =
              seek_end-restores rounds len out (c ∷ tmp) cs valid rest
                (sym (ap (λ b. b || has_end cs) go) ∙ end) (omega arith) (omega arith) in
            (q'', rw (seek_end, popped) (rw (small, go) run), kept, valid'')
      ]

  read_loop-Reads :
      (rounds len : ℕ) (out cs rest : List ℕ) {q : Queue}
      → Stops cs rest
      → IsValid q
      → contents q ≡ cs ++ rest
      → length rest ≤ capacity
      → length rest ≤ rounds
      → Reads
          (len + length cs)
          (reversed_onto cs out)
          rest
          (read_loop me rounds (length cs) len out signal q ws)
  unfolding read_loop
  read_loop-Reads rounds len out [] rest (behind end) v held room enough =
      let (q', run, kept, valid) =
        seek_end-restores rounds len out [] rest v held end (omega arith) enough in
      (q', run ∙ ap (λ n. returned n out signal q' ws) (omega arith), kept, valid)
  read_loop-Reads rounds len out (c ∷ []) rest (last end) v held room enough =
      let (q', popped, left, valid) = tty_pop_q-holding me signal ws v held in
      (q', rw (read_loop, popped) (rw end refl), left, valid)
  read_loop-Reads rounds len out (c ∷ cs) rest (more stops) v held room enough =
      let (q', popped, left, valid) = tty_pop_q-holding me signal ws v held in
      elim (Bool-cases (ends_line c && (length cs == 0))) [
        | inl stop ↦
            let empty : cs ≡ [] = empty_of_length cs (ground arith) in
            (
              q',
              rw (read_loop, popped)
                  (rw stop (
                    ap
                      (λ l.
                        returned (len + suc (length l)) (reversed_onto l (c ∷ out)) signal q' ws)
                      (sym empty))),
              left ∙ ap (λ l. l ++ rest) empty,
              valid,
            )
        | inr go ↦
            let (q'', run, kept, valid'') =
              read_loop-Reads rounds (len + 1) (c ∷ out) cs rest stops valid left room enough in
            (
              q'',
              rw (read_loop, popped)
                  (rw go (
                    run
                    ∙ ap (λ n. returned n (reversed_onto cs (c ∷ out)) signal q'' ws)
                        (omega arith))),
              kept,
              valid'',
            )
      ]

-- If a buffer holds the characters `cs` that are wanted and then `rest`, and a line ends in `rest` or with
-- the last of `cs`, tty_read returns their number without a sleep and gives just these to the user, and the
-- buffer then holds `rest`, in order: what it takes while it looks for the end of the line it puts back.
-- A round for each character of `rest` is enough.
pub tty_read-Stops :
    (me rounds : ℕ) (signal : Bool) (ws : List Wake) (cs rest : List ℕ) {q : Queue}
    → Stops cs rest
    → IsValid q
    → contents q ≡ cs ++ rest
    → length rest ≤ rounds
    → (q' : Queue) × (tty_read me rounds (length cs) signal q ws
        ≡ returned (length cs) (reversed_onto cs []) signal q' ws)
      × (contents q' ≡ rest)
      × IsValid q'
unfolding tty_read
tty_read-Stops me rounds signal ws cs rest {q} stops v held enough =
    let total : length cs + length rest ≤ capacity =
      omega (arith, length-contents q, ap length held, length-append cs rest) in
    let small : slt (length cs) 0 ≡ false = ground arith in
    let (q', run, kept, valid) =
      read_loop-Reads me signal ws rounds 0 [] cs rest stops v held (omega arith) enough in
    (
      q',
      rw small (run ∙ ap (λ n. returned n (reversed_onto cs []) signal q' ws) (omega arith)),
      kept,
      valid,
    )
