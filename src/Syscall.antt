-- ===== src/Syscall.antt =====
-- System calls: the table of include/linux/sys.h, the numbers and the wrappers of include/unistd.h, and
-- stub_syscall of kernel/sys.c.
pub mod Table
pub mod Return
pub mod Call
pub mod Self
pub mod Fork
pub mod Timer
pub mod First
mod Examples
pub mod Deliver
use neu_os.Prelude.{ℕ, zero, suc, Option, none, some, List, [], ◌∷◌, ◌++◌, if◌then◌else◌, not}
use neu_os.Prelude.Words.{slt, minus_one}

-- The functions whose addresses stand in sys_call_table.
pub data Handler : Type 0 where
  tty_read stub_syscall sys_fork user_tty_write sys_sleep sys_pause : Handler
  sys_kill sys_sigaction sys_sgetmask sys_ssetmask serial_debugstr : Handler

abbrev stubs : ℕ → List Handler
stubs zero = []
stubs (suc n) = stub_syscall ∷ stubs n

unfoldable pub sys_call_table : List Handler
sys_call_table =
    tty_read
    ∷ stub_syscall
    ∷ sys_fork
    ∷ user_tty_write
    ∷ (stubs 6
        ++ (sys_sleep
            ∷ (stubs 18
                ++ (sys_pause
                    ∷ (stubs 7
                        ++ (sys_kill
                            ∷ (stubs 29
                                ++ (sys_sigaction ∷ sys_sgetmask ∷ sys_ssetmask ∷ stub_syscall
                                    ∷ stub_syscall ∷ serial_debugstr ∷ []))))))))

-- `*sys_call_table(, %eax, 4)`
unfoldable pub entry : ℕ → List Handler → Option Handler
entry n [] = none
entry zero (h ∷ hs) = some h
entry (suc n) (h ∷ hs) = entry n hs

-- `nr_system_calls - 1`
abbrev pub last_call : ℕ
last_call = 72

abbrev pub nr_user_tty_read : ℕ
nr_user_tty_read = 0

abbrev pub nr_fork : ℕ
nr_fork = 2

abbrev pub nr_user_tty_write : ℕ
nr_user_tty_write = 3

abbrev pub nr_sleep : ℕ
nr_sleep = 10

abbrev pub nr_pause : ℕ
nr_pause = 29

abbrev pub nr_kill : ℕ
nr_kill = 37

abbrev pub nr_sigaction : ℕ
nr_sigaction = 67

abbrev pub nr_sgetmask : ℕ
nr_sgetmask = 68

abbrev pub nr_ssetmask : ℕ
nr_ssetmask = 69

abbrev pub nr_sys_debug : ℕ
nr_sys_debug = 72

-- What a wrapper of unistd.h makes of the result of `int $0x80`.
unfoldable pub wrapped : ℕ → ℕ
wrapped res = if not (slt res 0) then res else minus_one

unfoldable pub stub_result : ℕ
stub_result = 0
