-- ===== src/Print/Serial.antt =====
-- Debug output on the serial line, kernel/serial_debug.c.
-- The n-th read of the line's status gives `status n`; `polls` counts these reads, and `sent` has the
-- characters written to the port, the last one first. The rounds bound the wait for the transmitter.
pub mod Same
pub mod Text
mod Examples
use neu_os.Prelude.{
  ℕ, zero, suc, ◌+◌, ◌/◌, ◌%◌, Bool, true, false, ◌&&◌, Option, none, some, List, [], ◌∷◌, ◌==◌,
  if◌then◌else◌,
}
use neu_os.Prelude.Words.{sub32, slt}
use neu_os.Print.{Arg, int, char, string, digit_loop}

pub record Serial : Type 0 where
  pub polls : ℕ
  pub sent : List ℕ

abbrev pub then_do {ℓ} : {A : Type ℓ} → Option A → (A → Option Serial) → Option Serial
then_do none f = none
then_do (some s) f = f s

module _ (status : ℕ → ℕ) (patience : ℕ) where
  -- `inb(PORT + 5) & 0x20`
  unfoldable pub is_transmit_empty : ℕ → Bool
  is_transmit_empty n = status n / 32 % 2 == 1

  -- `while (is_transmit_empty() == 0)`, from the n-th read on: the reads made.
  unfoldable pub wait : ℕ → ℕ → Option ℕ
  unfolding is_transmit_empty
  wait zero n = none
  wait (suc rounds) n =
      let on = wait rounds (n + 1) in if is_transmit_empty n then some (n + 1) else on

  unfoldable pub s_putchar : ℕ → Serial → Option Serial
  unfolding wait
  s_putchar a s = elim (wait patience s.polls) [
    | none ↦ none
    | some n ↦ some (record { polls = n; sent = a ∷ s.sent })
  ]

  -- s_puts, and the loop for `%s`.
  unfoldable pub s_puts : List ℕ → Serial → Option Serial
  unfolding s_putchar
  s_puts [] s = some s
  s_puts (c ∷ cs) s = then_do (s_putchar c s) (s_puts cs)

  -- The second loop of s_printnum: the digits are in `buf` from the lowest on.
  unfoldable pub send_back : List ℕ → Serial → Option Serial
  unfolding s_putchar
  send_back [] s = some s
  send_back (d ∷ ds) s = then_do (send_back ds s) (s_putchar d)

  -- s_printnum after its sign. Its first loop is that of _sprintnum.
  unfoldable pub s_magnitude : ℕ → ℕ → ℕ → Serial → Option Serial
  unfolding s_putchar send_back
  s_magnitude rounds num base s =
      if num == 0
      then s_putchar 48 s
      else then_do (digit_loop rounds base num) (λ ds. send_back ds s)

  unfoldable pub s_printnum : ℕ → ℕ → ℕ → Bool → Serial → Option Serial
  unfolding s_putchar s_magnitude
  s_printnum rounds num base sign s =
      if sign && slt num 0
      then then_do (s_putchar 45 s) (s_magnitude rounds (sub32 0 num) base)
      else s_magnitude rounds num base s

  -- The conversions, by the argument that is next, and the arguments left.
  unfoldable pub s_convert : ℕ → ℕ → List Arg → Serial → Option Serial × List Arg
  unfolding s_printnum s_puts s_putchar
  s_convert rounds c (int n ∷ args) s =
      if c == 100
      then (s_printnum rounds n 10 true s, args)
      else if c == 117
      then (s_printnum rounds n 10 false s, args)
      else if c == 120
      then (s_printnum rounds n 16 false s, args)
      else if c == 115
      then (none, args)
      else if c == 99
      then (none, args)
      else if c == 37
      then (s_putchar 37 s, int n ∷ args)
      else (some s, int n ∷ args)
  s_convert rounds c (string t ∷ args) s =
      if c == 115
      then (s_puts t s, args)
      else if c == 100
      then (none, args)
      else if c == 117
      then (none, args)
      else if c == 120
      then (none, args)
      else if c == 99
      then (none, args)
      else if c == 37
      then (s_putchar 37 s, string t ∷ args)
      else (some s, string t ∷ args)
  s_convert rounds c (char ch ∷ args) s =
      if c == 99
      then (s_putchar ch s, args)
      else if c == 100
      then (none, args)
      else if c == 117
      then (none, args)
      else if c == 120
      then (none, args)
      else if c == 115
      then (none, args)
      else if c == 37
      then (s_putchar 37 s, char ch ∷ args)
      else (some s, char ch ∷ args)
  s_convert rounds c [] s =
      if c == 37
      then (s_putchar 37 s, [])
      else if c == 100
      then (none, [])
      else if c == 117
      then (none, [])
      else if c == 120
      then (none, [])
      else if c == 115
      then (none, [])
      else if c == 99
      then (none, [])
      else (some s, [])

  unfoldable pub s_printk : ℕ → List ℕ → List Arg → Serial → Option Serial
  unfolding s_convert s_putchar
  s_printk rounds [] args s = some s
  s_printk rounds (c ∷ []) args s = if c == 37 then some s else s_putchar c s
  s_printk rounds (c ∷ d ∷ fmt) args s =
      let (converted, left) = s_convert rounds d args s in
      if c == 37
      then then_do converted (s_printk rounds fmt left)
      else then_do (s_putchar c s) (s_printk rounds (d ∷ fmt) args)
