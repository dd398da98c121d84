-- ===== src/Print/Serial/Text.antt =====
-- s_printk (kernel/serial_debug.c) sends the text that vsprintf (kernel/vsprintf.c) writes.
use neu_os.Prelude.{
  ℕ, zero, suc, ◌+◌, ◌-◌, ◌<◌, ◌≡◌, refl, ◌∙◌, sym, ap, fun_ext, true, Option, none, some, List, [],
  ◌∷◌, ◌++◌, arith, inl, inr, Bool-cases, eq_of_some, ◌==◌, ℕ-cases,
}
use neu_os.Print.{Arg, reversed, convert, with_text, vsprintf}
use neu_os.Print.Serial.{
  Serial, then_do, is_transmit_empty, wait, s_putchar, s_puts, s_convert, s_printk,
}
use neu_os.Print.Serial.Same.{puts, puts-append, puts-one, Sends, convert-Agrees}

with_text-some :
    (a b : Option (List ℕ)) (text : List ℕ)
    → with_text a b ≡ some text
    → (x : List ℕ) × (y : List ℕ) × (a ≡ some x) × (b ≡ some y) × (text ≡ x ++ y)
with_text-some none b text e = absurd (cc e)
with_text-some (some x) none text e = absurd (cc e)
with_text-some (some x) (some y) text e = (x, y, refl, refl, sym (eq_of_some e))

module _ (status : ℕ → ℕ) (patience : ℕ) where
  s_printk-Sends :
      (rounds : ℕ) (fmt : List ℕ) (args : List Arg) (text : List ℕ)
      → vsprintf rounds fmt args ≡ some text
      → Sends status patience text (s_printk status patience rounds fmt args)
  unfolding vsprintf s_printk s_puts
  s_printk-Sends rounds [] args text e s = ap (λ t. puts status patience t s) (eq_of_some e)
  s_printk-Sends rounds (c ∷ []) args text e s = elim (Bool-cases (c == 37)) [
    | inl percent ↦ rw percent (ap (λ t. puts status patience t s) (eq_of_some (rw percent at e)))
    | inr plain ↦ rw plain (
        sym (puts-one status patience c s)
        ∙ ap (λ t. puts status patience t s) (eq_of_some (rw plain at e)))
  ]
  s_printk-Sends rounds (c ∷ d ∷ fmt) args text e s =
      let agrees = convert-Agrees status patience rounds d args in
      let line : List ℕ → Serial → Option Serial = puts status patience in
      elim (Bool-cases (c == 37)) [
        | inl percent ↦
            let (x, y, first, second, same) =
              with_text-some (convert rounds d args).0
                (vsprintf rounds fmt (convert rounds d args).1) text (rw percent at e) in
            rw percent (
              ap
                (λ l.
                  then_do (s_convert status patience rounds d args s).0
                    (s_printk status patience rounds fmt l))
                (agrees.left s)
              ∙ ap (λ o. then_do o (s_printk status patience rounds fmt (convert rounds d args).1))
                  (agrees.sends x first s)
              ∙ ap (then_do (line x s))
                  (fun_ext (s_printk-Sends rounds fmt (convert rounds d args).1 y second))
              ∙ sym (puts-append status patience x y s)
              ∙ ap (λ t. line t s) (sym same))
        | inr plain ↦
            let (x, y, first, second, same) =
              with_text-some (some (c ∷ [])) (vsprintf rounds (d ∷ fmt) args) text
                (rw plain at e) in
            rw plain (
              ap (then_do (s_putchar status patience c s))
                (fun_ext (s_printk-Sends rounds (d ∷ fmt) args y second))
              ∙ ap (λ t. line t s) (ap (λ l. l ++ y) (eq_of_some first) ∙ sym same))
      ]

  -- Within `patience` reads of the status the transmitter is empty, at any time.
  abbrev pub Ready : Type 0
  Ready = (n : ℕ) → (k : ℕ) × (k < patience) × (is_transmit_empty status patience (n + k) ≡ true)

  wait-ends :
      (rounds n k : ℕ)
      → k < rounds
      → is_transmit_empty status patience (n + k) ≡ true
      → (m : ℕ) × (wait status patience rounds n ≡ some m)
  unfolding wait
  wait-ends zero n k lt empty = absurd (omega arith)
  wait-ends (suc rounds) n k lt empty = elim (Bool-cases (is_transmit_empty status patience n)) [
    | inl now ↦ (n + 1, rw now refl)
    | inr busy ↦
        let later : k ≡ suc (k - 1) = elim (ℕ-cases k 0) [
          | inl z ↦ absurd (
              cc (
                sym busy
                ∙ ap (is_transmit_empty status patience) {y = n + k} (omega arith)
                ∙ empty))
          | inr nz ↦ omega arith
        ] in
        let (m, run) =
          wait-ends rounds (n + 1) (k - 1) (omega arith)
            (ap (is_transmit_empty status patience) {y = n + k} (omega arith) ∙ empty) in
        (m, rw busy run)
  ]

  puts-sent :
      (text : List ℕ) (s : Serial)
      → Ready
      → (s' : Serial) × (puts status patience text s ≡ some s') × (s'.sent ≡ reversed text s.sent)
  unfolding s_puts reversed
  puts-sent [] s ready = (s, refl, refl)
  puts-sent (c ∷ cs) s ready =
      let (k, soon, empty) = ready s.polls in
      let (m, waited) = wait-ends patience s.polls k soon empty in
      let (s', run, sent) = puts-sent cs (record { polls = m; sent = c ∷ s.sent }) ready in
      let one : s_putchar status patience c s ≡ some (record { polls = m; sent = c ∷ s.sent }) =
        rw (s_putchar, waited) refl in
      (s', ap (λ o. then_do o (puts status patience cs)) one ∙ run, sent)

  -- s_printk returns and has sent, character by character, the text that vsprintf makes of the same format and
  -- arguments, where there is one, if the transmitter is empty within `patience` reads of its status at
  -- any time.
  pub s_printk-vsprintf :
      (rounds : ℕ) (fmt : List ℕ) (args : List Arg) (text : List ℕ) (s : Serial)
      → Ready
      → vsprintf rounds fmt args ≡ some text
      → (s' : Serial) × (s_printk status patience rounds fmt args s ≡ some s')
        × (s'.sent ≡ reversed text s.sent)
  s_printk-vsprintf rounds fmt args text s ready printed =
      let (s', run, sent) = puts-sent text s ready in
      (s', s_printk-Sends rounds fmt args text printed s ∙ run, sent)
