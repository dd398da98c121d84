-- ===== src/Tty/Read/Examples.antt =====
-- The buffer holds `ab`, a line feed and `c`.
use neu_os.Prelude.{◌≡◌, refl, false, none, [], ◌∷◌, arith, ◌==◌, if◌then◌else◌}
use neu_os.Tty.Queue.{Queue}
use neu_os.Tty.Queue.Contents.{IsValid, contents}
use neu_os.Tty.Read.{returned, tty_read}
use neu_os.Tty.Read.Line.{behind, more, tty_read-Stops}

abbrev typed : Queue
typed = record {
  buf = λ i. if i == 1023 then 97 else if i == 0 then 98 else if i == 1 then 10 else 99;
  wait_proc = none;
  head = 1023;
  tail = 3;
}

typed-IsValid : IsValid typed
typed-IsValid = record { head_in = omega arith; tail_in = omega arith }

-- One character is read, and the rest put back.
tty_read-Stops_example :
    (q' : Queue) × (tty_read 4 3 1 false typed [] ≡ returned 1 (97 ∷ []) false q' [])
    × (contents q' ≡ 98 ∷ 10 ∷ 99 ∷ [])
    × IsValid q'
tty_read-Stops_example =
    tty_read-Stops 4 3 false [] (97 ∷ []) (98 ∷ 10 ∷ 99 ∷ []) (more (behind refl)) typed-IsValid
      refl (omega arith)
