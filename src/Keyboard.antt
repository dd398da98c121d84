-- ===== src/Keyboard.antt =====
-- The keyboard interrupt, kernel/chr_drv/do_keyboard.c, with the terminal that gets its characters. `rshift`, `rctrl` and `ralt` of the code are never set and are left out.
pub mod Modifiers
mod Examples
use mathlib.Core.Option
use neu_os.Tty.Queue.{tty_push_q}
use neu_os.Tty.Line.{Terminal, copy_to_buffer}
use neu_os.Prelude.{
  ℕ, zero, suc, ◌+◌, ◌-◌, ◌/◌, ◌%◌, Bool, true, false, ◌&&◌, not, Option, none, some, List, [], ◌∷◌,
  leb, ◌==◌, if◌then◌else◌,
}

-- The static flags of do_keyboard_interrupt.
pub record Flags : Type 0 where
  pub caps : Bool
  pub lshift : Bool
  pub lctrl : Bool
  pub lalt : Bool

-- RELEASE_CHAR(a)
abbrev pub is_release : ℕ → Bool
is_release scancode = scancode / 128 % 2 == 1

abbrev pub caps_code : ℕ
caps_code = 0x3a

abbrev pub lctrl_code : ℕ
lctrl_code = 0x1d

abbrev pub lalt_code : ℕ
lalt_code = 0x38

abbrev pub lshift_code : ℕ
lshift_code = 0x2a

unfoldable pub toupper : ℕ → ℕ
toupper ch = if leb 97 ch && leb ch 122 then ch - 97 + 65 else ch

unfoldable pub release_key : ℕ → Flags → Flags
release_key scancode f = record f {
  lctrl = if scancode == lctrl_code + 128 then false else f.lctrl;
  lalt = if scancode == lalt_code + 128 then false else f.lalt;
  lshift = if scancode == lshift_code + 128 then false else f.lshift;
}

-- `caps?!(lshift || rshift):(lshift || rshift)`
unfoldable pub cap_out : Flags → Bool
cap_out f = if f.caps then not f.lshift else f.lshift

-- The bytes of the two strings, with the 0 at their ends.
abbrev pub scancode_table : List ℕ
scancode_table =
    46 ∷ 46 ∷ 49 ∷ 50 ∷ 51 ∷ 52 ∷ 53 ∷ 54 ∷ 55 ∷ 56 ∷ 57 ∷ 48 ∷ 45 ∷ 61 ∷ 8 ∷ 46 ∷ 113 ∷ 119 ∷ 101
    ∷ 114 ∷ 116 ∷ 121 ∷ 117 ∷ 105 ∷ 111 ∷ 112 ∷ 91 ∷ 93 ∷ 10 ∷ 46 ∷ 97 ∷ 115 ∷ 100 ∷ 102 ∷ 103 ∷ 104
    ∷ 106 ∷ 107 ∷ 108 ∷ 59 ∷ 39 ∷ 96 ∷ 46 ∷ 92 ∷ 122 ∷ 120 ∷ 99 ∷ 118 ∷ 98 ∷ 110 ∷ 109 ∷ 44 ∷ 46
    ∷ 47 ∷ 46 ∷ 42 ∷ 46 ∷ 32 ∷ 46 ∷ 46 ∷ 46 ∷ 46 ∷ 46 ∷ 46 ∷ 46 ∷ 46 ∷ 46 ∷ 46 ∷ 46 ∷ 46 ∷ 46 ∷ 55
    ∷ 56 ∷ 57 ∷ 52 ∷ 53 ∷ 54 ∷ 49 ∷ 50 ∷ 51 ∷ 48 ∷ 46 ∷ 46 ∷ 46 ∷ 46 ∷ 46 ∷ 46 ∷ 0 ∷ []

abbrev pub shift_scancode_table : List ℕ
shift_scancode_table =
    46 ∷ 46 ∷ 33 ∷ 64 ∷ 35 ∷ 36 ∷ 37 ∷ 94 ∷ 38 ∷ 42 ∷ 40 ∷ 41 ∷ 95 ∷ 43 ∷ 8 ∷ 46 ∷ 81 ∷ 87 ∷ 69 ∷ 82
    ∷ 84 ∷ 89 ∷ 85 ∷ 73 ∷ 79 ∷ 80 ∷ 123 ∷ 125 ∷ 10 ∷ 46 ∷ 65 ∷ 83 ∷ 68 ∷ 70 ∷ 71 ∷ 72 ∷ 74 ∷ 75 ∷ 76
    ∷ 58 ∷ 34 ∷ 126 ∷ 46 ∷ 124 ∷ 90 ∷ 88 ∷ 67 ∷ 86 ∷ 66 ∷ 78 ∷ 77 ∷ 60 ∷ 62 ∷ 63 ∷ 46 ∷ 42 ∷ 46 ∷ 32
    ∷ 46 ∷ 46 ∷ 46 ∷ 46 ∷ 46 ∷ 46 ∷ 46 ∷ 46 ∷ 46 ∷ 46 ∷ 46 ∷ 46 ∷ 46 ∷ 55 ∷ 56 ∷ 57 ∷ 52 ∷ 53 ∷ 54
    ∷ 49 ∷ 50 ∷ 51 ∷ 48 ∷ 46 ∷ 46 ∷ 46 ∷ 46 ∷ 46 ∷ 46 ∷ 0 ∷ []

-- `a[i]`; none beyond the array.
unfoldable pub byte_at : List ℕ → ℕ → Option ℕ
byte_at [] i = none
byte_at (b ∷ bs) zero = some b
byte_at (b ∷ bs) (suc i) = byte_at bs i

abbrev in_case : Flags → Option ℕ → Option ℕ
in_case f ch = if cap_out f then Option.map toupper ch else ch

-- The character of a key; it stays a blank under control and alt.
unfoldable pub key_char : ℕ → Flags → Option ℕ
key_char scancode f =
    if f.lshift
    then in_case f (byte_at shift_scancode_table scancode)
    else if f.lctrl
    then some 32
    else if f.lalt
    then some 32
    else in_case f (byte_at scancode_table scancode)

-- What a key passes to the read queue: nothing, a character, or a byte read beyond the table.
pub data Key : Type 0 where
  silent beyond_table : Key
  char : ℕ → Key

unfoldable pub type_key : Option ℕ → Key
type_key none = beyond_table
type_key (some ch) = char ch

unfoldable pub do_keyboard_interrupt : ℕ → Flags → Flags × Key
do_keyboard_interrupt scancode f =
    if is_release scancode
    then (release_key scancode f, silent)
    else if scancode == lctrl_code
    then (record f { lctrl = true }, silent)
    else if scancode == lalt_code
    then (record f { lalt = true }, silent)
    else if scancode == lshift_code
    then (record f { lshift = true }, silent)
    else if scancode == caps_code
    then (record f { caps = not f.caps }, silent)
    else (f, type_key (key_char scancode f))

-- The end of the handler: the character goes to the read queue, and copy_to_buffer runs, with the rounds
-- of its two loops. A byte from beyond the table is not known, and none is the result.
unfoldable pub pass_on : ℕ → ℕ → Key → Terminal → Option Terminal
pass_on inner rounds silent t = some t
pass_on inner rounds beyond_table t = none
pass_on inner rounds (char ch) t =
    copy_to_buffer inner rounds (record t { read_q = (tty_push_q t.read_q ch).1 })
