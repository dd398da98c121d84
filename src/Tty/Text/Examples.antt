-- ===== src/Tty/Text/Examples.antt =====
-- A buffer with `ab`, a line feed and `c`.
use neu_os.Prelude.{◌≡◌, refl, false, none, some, [], ◌∷◌, arith, ◌==◌, if◌then◌else◌}
use neu_os.Tty.Queue.{Queue}
use neu_os.Tty.Queue.Contents.{IsValid, contents}
use neu_os.Tty.Text.{getline}
use neu_os.Tty.Text.Input.{getline-line}

abbrev typed : Queue
typed = record {
  buf = λ i. if i == 1023 then 97 else if i == 0 then 98 else if i == 1 then 10 else 99;
  wait_proc = none;
  head = 1023;
  tail = 3;
}

typed-IsValid : IsValid typed
typed-IsValid = record { head_in = omega arith; tail_in = omega arith }

getline-line_example :
    (q' : Queue) × (getline 4 9 3 0 false typed [] ≡ some (2, 97 ∷ 98 ∷ [], false, q', []))
    × (contents q' ≡ 99 ∷ [])
    × IsValid q'
getline-line_example =
    getline-line 4 9 false [] (97 ∷ 98 ∷ []) (99 ∷ []) 10 0 3 typed-IsValid refl refl refl refl
      (omega arith) (omega arith)
