-- ===== src/Print/Serial/Same.antt =====
-- The serial line (kernel/serial_debug.c) shows what vsprintf (kernel/vsprintf.c) writes.
use neu_os.Prelude.{
  ℕ, ◌≡◌, refl, ◌∙◌, sym, ap, fun_ext, Bool, true, false, ◌&&◌, Option, none, some, List, [], ◌∷◌,
  ◌++◌, inl, inr, Bool-cases, Option-cases, eq_of_some, ◌==◌, if◌then◌else◌,
}
use neu_os.Prelude.Words.{sub32, slt}
use neu_os.Print.{Arg, int, char, string, digit_loop, reversed, sprintnum, convert}
use neu_os.Print.Serial.{
  Serial, then_do, s_putchar, s_puts, send_back, s_magnitude, s_printnum, s_convert,
}

module _ (status : ℕ → ℕ) (patience : ℕ) where
  abbrev pub puts : List ℕ → Serial → Option Serial
  puts = s_puts status patience

  pub puts-append :
      (xs ys : List ℕ) (s : Serial) → puts (xs ++ ys) s ≡ then_do (puts xs s) (puts ys)
  unfolding s_puts
  puts-append [] ys s = refl
  puts-append (x ∷ xs) ys s = elim (Option-cases (s_putchar status patience x s)) [
    | inl stuck ↦ rw stuck refl
    | inr (s', sent) ↦ rw sent (puts-append xs ys s')
  ]

  pub puts-one : (c : ℕ) (s : Serial) → puts (c ∷ []) s ≡ s_putchar status patience c s
  unfolding s_puts
  puts-one c s = elim (Option-cases (s_putchar status patience c s)) [
    | inl stuck ↦ rw stuck refl
    | inr (s', sent) ↦ rw sent refl
  ]

  puts-reversed :
      (ds out : List ℕ) (s : Serial)
      → puts (reversed ds out) s ≡ then_do (send_back status patience ds s) (puts out)
  unfolding send_back reversed s_puts
  puts-reversed [] out s = refl
  puts-reversed (d ∷ ds) out s =
      puts-reversed ds (d ∷ out) s ∙ elim (Option-cases (send_back status patience ds s)) [
        | inl stuck ↦ rw stuck refl
        | inr (s', sent) ↦ rw sent refl
      ]

  -- The text of a number without its sign, behind `head`.
  abbrev behind : List ℕ → Option (List ℕ) → Option (List ℕ)
  behind head none = none
  behind head (some ds) = some (head ++ reversed ds [])

  abbrev digits_text : ℕ → ℕ → ℕ → List ℕ → Option (List ℕ)
  digits_text rounds num base head =
      if num == 0 then some (head ++ 48 ∷ []) else behind head (digit_loop rounds base num)

  behind-some :
      (head text : List ℕ) (o : Option (List ℕ))
      → behind head o ≡ some text
      → (ds : List ℕ) × (o ≡ some ds) × (text ≡ head ++ reversed ds [])
  behind-some head text none e = absurd (cc e)
  behind-some head text (some ds) e = (ds, refl, sym (eq_of_some e))

  then_do-some : (o : Option Serial) → then_do o some ≡ o
  then_do-some none = refl
  then_do-some (some s) = refl

  send_back-puts :
      (ds : List ℕ) (s : Serial) → send_back status patience ds s ≡ puts (reversed ds []) s
  unfolding s_puts
  send_back-puts ds s =
      sym (then_do-some (send_back status patience ds s)) ∙ sym (puts-reversed ds [] s)

  abbrev pub Sends : List ℕ → (Serial → Option Serial) → Type 0
  Sends text act = (s : Serial) → act s ≡ puts text s

  digits_text-Sends :
      (rounds num base : ℕ) (head text : List ℕ)
      → digits_text rounds num base head ≡ some text
      → (body : List ℕ) × (text ≡ head ++ body)
        × Sends body (s_magnitude status patience rounds num base)
  unfolding s_magnitude
  digits_text-Sends rounds num base head text e = elim (Bool-cases (num == 0)) [
    | inl z ↦
        (48 ∷ [], sym (eq_of_some (rw z at e)), λ s. rw (s_magnitude, z) (sym (puts-one 48 s)))
    | inr more ↦
        let (ds, found, same) = behind-some head text (digit_loop rounds base num) (rw more at e) in
        (reversed ds [], same, λ s. rw (s_magnitude, more) (rw found (send_back-puts ds s)))
  ]

  s_printnum-Sends :
      (rounds num base : ℕ) (sign : Bool) (text : List ℕ)
      → sprintnum rounds num base sign ≡ some text
      → Sends text (s_printnum status patience rounds num base sign)
  unfolding sprintnum s_printnum s_puts
  s_printnum-Sends rounds num base sign text e s =
      let signed : Bool → Option (List ℕ) =
        λ b. digits_text rounds (if b then sub32 0 num else num) base (if b then 45 ∷ [] else []) in
      elim (Bool-cases (sign && slt num 0)) [
        | inl negative ↦
            let (body, same, sends) =
              digits_text-Sends rounds (sub32 0 num) base (45 ∷ []) text
                (sym (ap signed negative) ∙ e) in
            rw negative (
              ap (then_do (s_putchar status patience 45 s)) (fun_ext sends)
              ∙ ap (λ t. puts t s) (sym same))
        | inr positive ↦
            let (body, same, sends) =
              digits_text-Sends rounds num base [] text (sym (ap signed positive) ∙ e) in
            rw positive (sends s ∙ ap (λ t. puts t s) (sym same))
      ]

  -- One conversion on the line and in memory: the same arguments are left, and a text is sent.
  pub record Agrees (f : Serial → Option Serial × List Arg) (o : Option (List ℕ) × List Arg)
      : Type 0 where
    pub left : (s : Serial) → (f s).1 ≡ o.1
    pub sends : (text : List ℕ) → o.0 ≡ some text → (s : Serial) → (f s).0 ≡ puts text s

  if-Agrees :
      (b : Bool) {f g : Serial → Option Serial × List Arg} {o p : Option (List ℕ) × List Arg}
      → Agrees f o
      → Agrees g p
      → Agrees (λ s. if b then f s else g s) (if b then o else p)
  if-Agrees true x y = x
  if-Agrees false x y = y

  module _ (args : List Arg) where
    fails-Agrees : Agrees (λ s. (none, args)) (none, args)
    fails-Agrees = record { left = λ s. refl; sends = λ text e s. absurd (cc e) }

    nothing-Agrees : Agrees (λ s. (some s, args)) (some [], args)
    unfolding s_puts
    nothing-Agrees = record {
      left = λ s. refl;
      sends = λ text e s. ap (λ t. puts t s) (eq_of_some e);
    }

    one-Agrees : (c : ℕ) → Agrees (λ s. (s_putchar status patience c s, args)) (some (c ∷ []), args)
    one-Agrees c = record {
      left = λ s. refl;
      sends = λ text e s. sym (puts-one c s) ∙ ap (λ t. puts t s) (eq_of_some e);
    }

    text-Agrees : (t : List ℕ) → Agrees (λ s. (puts t s, args)) (some t, args)
    text-Agrees t = record {
      left = λ s. refl;
      sends = λ text e s. ap (λ u. puts u s) (eq_of_some e);
    }

    number-Agrees :
        (rounds num base : ℕ) (sign : Bool)
        → Agrees
            (λ s. (s_printnum status patience rounds num base sign s, args))
            (sprintnum rounds num base sign, args)
    number-Agrees rounds num base sign = record {
      left = λ s. refl;
      sends = s_printnum-Sends rounds num base sign;
    }

  pub convert-Agrees :
      (rounds c : ℕ) (args : List Arg)
      → Agrees (s_convert status patience rounds c args) (convert rounds c args)
  unfolding convert s_convert
  convert-Agrees rounds c [] = if-Agrees (c == 37) (one-Agrees [] 37) (
      if-Agrees (c == 100) (fails-Agrees []) (
        if-Agrees (c == 117) (fails-Agrees []) (
          if-Agrees (c == 120) (fails-Agrees []) (
            if-Agrees (c == 115) (fails-Agrees [])
              (if-Agrees (c == 99) (fails-Agrees []) (nothing-Agrees []))))))
  convert-Agrees rounds c (int n ∷ args) =
      if-Agrees (c == 100) (number-Agrees args rounds n 10 true) (
        if-Agrees (c == 117) (number-Agrees args rounds n 10 false) (
          if-Agrees (c == 120) (number-Agrees args rounds n 16 false) (
            if-Agrees (c == 115) (fails-Agrees args) (
              if-Agrees (c == 99) (fails-Agrees args) (
                if-Agrees (c == 37) (one-Agrees (int n ∷ args) 37)
                  (nothing-Agrees (int n ∷ args)))))))
  convert-Agrees rounds c (string t ∷ args) = if-Agrees (c == 115) (text-Agrees args t) (
      if-Agrees (c == 100) (fails-Agrees args) (
        if-Agrees (c == 117) (fails-Agrees args) (
          if-Agrees (c == 120) (fails-Agrees args) (
            if-Agrees (c == 99) (fails-Agrees args) (
              if-Agrees (c == 37) (one-Agrees (string t ∷ args) 37)
                (nothing-Agrees (string t ∷ args)))))))
  convert-Agrees rounds c (char ch ∷ args) = if-Agrees (c == 99) (one-Agrees args ch) (
      if-Agrees (c == 100) (fails-Agrees args) (
        if-Agrees (c == 117) (fails-Agrees args) (
          if-Agrees (c == 120) (fails-Agrees args) (
            if-Agrees (c == 115) (fails-Agrees args) (
              if-Agrees (c == 37) (one-Agrees (char ch ∷ args) 37)
                (nothing-Agrees (char ch ∷ args)))))))
