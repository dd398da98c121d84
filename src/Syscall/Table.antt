-- ===== src/Syscall/Table.antt =====
-- sys_call_table (include/linux/sys.h) against the numbers of include/unistd.h.
use neu_os.Prelude.{
  ℕ, zero, suc, ◌+◌, ◌≤◌, ◌<◌, ◌≡◌, refl, ap, ◌∙◌, none, some, List, [], ◌∷◌, arith, ◌==◌,
  if◌then◌else◌,
}
use neu_os.Syscall.{
  Handler, sys_call_table, entry, last_call, nr_user_tty_read, nr_fork, nr_user_tty_write, nr_sleep,
  nr_pause, nr_kill, nr_sigaction, nr_sgetmask, nr_ssetmask, nr_sys_debug,
}

-- The handler that unistd.h means by a number: the function of its name, or the stub.
abbrev pub named : ℕ → Handler
named n =
    if n == nr_user_tty_read
    then Handler.tty_read
    else if n == nr_fork
    then Handler.sys_fork
    else if n == nr_user_tty_write
    then Handler.user_tty_write
    else if n == nr_sleep
    then Handler.sys_sleep
    else if n == nr_pause
    then Handler.sys_pause
    else if n == nr_kill
    then Handler.sys_kill
    else if n == nr_sigaction
    then Handler.sys_sigaction
    else if n == nr_sgetmask
    then Handler.sys_sgetmask
    else if n == nr_ssetmask
    then Handler.sys_ssetmask
    else if n == nr_sys_debug
    then Handler.serial_debugstr
    else Handler.stub_syscall

-- The handlers of `n` numbers from `i` on.
abbrev handlers : ℕ → ℕ → List Handler
handlers i zero = []
handlers i (suc n) = named i ∷ handlers (suc i) n

table_handlers : sys_call_table ≡ handlers 0 (suc last_call)
unfolding sys_call_table
table_handlers = refl

same_name : (a b : ℕ) → a ≡ b → some (named a) ≡ some (named b)
same_name a b = ap (λ k. some (named k))

entry-handlers : (n i m : ℕ) → n < m → entry n (handlers i m) ≡ some (named (n + i))
unfolding entry
entry-handlers n i zero lt = absurd (omega arith)
entry-handlers zero i (suc m) lt = same_name i (0 + i) (omega arith)
entry-handlers (suc n) i (suc m) lt =
    entry-handlers n (suc i) m (omega arith) ∙ same_name (n + suc i) (suc n + i) (omega arith)

entry-beyond : (n i m : ℕ) → m ≤ n → entry n (handlers i m) ≡ none
unfolding entry
entry-beyond n i zero le = refl
entry-beyond zero i (suc m) le = absurd (omega arith)
entry-beyond (suc n) i (suc m) le = entry-beyond n (suc i) m (omega arith)

-- For every number that system_call lets pass, sys_call_table holds the function that unistd.h gives the number to,
-- and the stub where it gives the number to none; and the table has no entry for any other number.
pub entry-named :
    (n : ℕ)
    → (n ≤ last_call → entry n sys_call_table ≡ some (named n))
      × (last_call < n → entry n sys_call_table ≡ none)
entry-named n = (
  λ le.
      ap (entry n) table_handlers
      ∙ entry-handlers n 0 (suc last_call) (omega arith)
      ∙ same_name (n + 0) n (omega arith),
  λ lt. ap (entry n) table_handlers ∙ entry-beyond n 0 (suc last_call) (omega arith),
)
