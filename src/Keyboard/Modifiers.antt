-- ===== src/Keyboard/Modifiers.antt =====
-- The modifier keys of kernel/chr_drv/do_keyboard.c.
use neu_os.Prelude.{
  List, [], ◌∷◌, ◌∙◌, length, Bool-cases, zero, suc, ap, sym, ℕ, ◌+◌, ◌≤◌, ◌<◌, ◌≡◌, refl, ◌⊎◌, inl,
  inr, Bool, true, false, Option, none, arith, if◌then◌else◌,
}
use neu_os.Keyboard.{
  Flags, lshift_code, lctrl_code, lalt_code, key_char, do_keyboard_interrupt, release_key, silent,
  beyond_table, byte_at, scancode_table, shift_scancode_table, type_key,
}

-- Pressing a modifier key while no modifier is held, and releasing it, restores the flags and gives no
-- character.
pub press_release :
    (code : ℕ) (f : Flags)
    → (code ≡ lshift_code) ⊎ (code ≡ lctrl_code) ⊎ (code ≡ lalt_code)
    → f.lshift ≡ false
    → f.lctrl ≡ false
    → f.lalt ≡ false
    → let (g, pressed) = do_keyboard_interrupt code f in
      let (h, released) = do_keyboard_interrupt (code + 128) g in
      (h ≡ f) × (pressed ≡ silent) × (released ≡ silent)
unfolding do_keyboard_interrupt release_key
press_release code f (inl e) s c a = rw e (ap (λ b. record f { lshift = b }) (sym s), refl, refl)
press_release code f (inr (inl e)) s c a =
    rw e (ap (λ b. record f { lctrl = b }) (sym c), refl, refl)
press_release code f (inr (inr e)) s c a =
    rw e (ap (λ b. record f { lalt = b }) (sym a), refl, refl)

byte_at-beyond : (bs : List ℕ) (i : ℕ) → length bs ≤ i → byte_at bs i ≡ none
unfolding byte_at
byte_at-beyond [] i h = refl
byte_at-beyond (b ∷ bs) zero h = absurd (omega arith)
byte_at-beyond (b ∷ bs) (suc i) h = byte_at-beyond bs i (omega arith)

either_same : (b : Bool) (o : Option ℕ) → (if b then o else o) ≡ o
either_same true o = refl
either_same false o = refl

key_char-beyond :
    (code : ℕ) (f : Flags) → 88 ≤ code → f.lctrl ≡ false → f.lalt ≡ false → key_char code f ≡ none
unfolding key_char
key_char-beyond code f h c a = elim (Bool-cases f.lshift) [
  | inl on ↦ rw (on, byte_at-beyond shift_scancode_table code h) (either_same _ none)
  | inr off ↦ rw (off, c, a, byte_at-beyond scancode_table code h) (either_same _ none)
]

typing :
    (code : ℕ) (f : Flags)
    → 88 ≤ code
    → code < 128
    → do_keyboard_interrupt code f ≡ (f, type_key (key_char code f))
unfolding do_keyboard_interrupt
typing code f lo hi = ground arith

-- A key whose scan code is 88 to 127, such as F12, makes the handler read beyond the end of its table,
-- unless control or alt is held.
pub reads_beyond_table :
    (code : ℕ) (f : Flags)
    → 88 ≤ code
    → code < 128
    → f.lctrl ≡ false
    → f.lalt ≡ false
    → do_keyboard_interrupt code f ≡ (f, beyond_table)
unfolding type_key
reads_beyond_table code f lo hi c a =
    typing code f lo hi ∙ ap (λ k. (f, type_key k)) (key_char-beyond code f lo c a)
