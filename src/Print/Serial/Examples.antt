-- ===== src/Print/Serial/Examples.antt =====
-- A transmitter that is busy at every other read; `n=7` is sent.
use neu_os.Prelude.{ℕ, ◌%◌, ◌*◌, ◌≡◌, refl, some, [], ◌∷◌, arith, inl, inr, ℕ-cases}
use neu_os.Print.{int, vsprintf, convert, sprintnum, digit_loop, reversed}
use neu_os.Print.Serial.{Serial, is_transmit_empty, s_printk}
use neu_os.Print.Serial.Text.{Ready, s_printk-vsprintf}

abbrev status : ℕ → ℕ
status n = n % 2 * 32

status-Ready : Ready status 2
unfolding is_transmit_empty
status-Ready n = elim (ℕ-cases (n % 2) 0) [
  | inl even ↦ (1, omega arith, ground arith)
  | inr odd ↦ (0, omega arith, ground arith)
]

abbrev idle : Serial
idle = record { polls = 0; sent = [] }

printed : vsprintf 5 (110 ∷ 61 ∷ 37 ∷ 100 ∷ []) (int 7 ∷ []) ≡ some (110 ∷ 61 ∷ 55 ∷ [])
unfolding vsprintf convert sprintnum digit_loop reversed
printed = refl

s_printk-vsprintf_example :
    (s' : Serial) × (s_printk status 2 5 (110 ∷ 61 ∷ 37 ∷ 100 ∷ []) (int 7 ∷ []) idle ≡ some s')
    × (s'.sent ≡ reversed (110 ∷ 61 ∷ 55 ∷ []) [])
s_printk-vsprintf_example =
    s_printk-vsprintf status 2 5 (110 ∷ 61 ∷ 37 ∷ 100 ∷ []) (int 7 ∷ []) (110 ∷ 61 ∷ 55 ∷ []) idle
      status-Ready printed
