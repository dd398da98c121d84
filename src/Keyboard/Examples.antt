-- ===== src/Keyboard/Examples.antt =====
-- The left shift key, and F12 with Caps Lock on.
use neu_os.Prelude.{◌≡◌, refl, true, false, arith}
use neu_os.Keyboard.{Flags, beyond_table, do_keyboard_interrupt}
use neu_os.Keyboard.Modifiers.{reads_beyond_table}

abbrev caps_on : Flags
caps_on = record { caps = true; lshift = false; lctrl = false; lalt = false }

reads_beyond_table_example : do_keyboard_interrupt 0x58 caps_on ≡ (caps_on, beyond_table)
reads_beyond_table_example = reads_beyond_table 0x58 caps_on (omega arith) (omega arith) refl refl
