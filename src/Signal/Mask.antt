-- ===== src/Signal/Mask.antt =====
-- Signal masks and actions: sys_ssetmask, sys_signal and sys_sigaction of kernel/signal.c.
use Prim.Native.Nat.{bit_and, bit_or, bit_xor}
use neu_os.Prelude.{
  ℕ, ◌-◌, ◌^◌, ◌≤◌, ◌≡◌, refl, ◌≢◌, ◌∙◌, ap, Option, false, arith, update_self, update_ne,
}
use neu_os.Prelude.Words.{minus_one}
use neu_os.Prelude.Bits.{
  bit, bit-le_one, bit-bit_and, bit-bit_or, bit-bit_xor, bit-pow_self, bit-pow_ne,
}
use mathlib.Core.Option
use neu_os.Mm.State.{pure, ◌>>◌}
use neu_os.Task.{Task, Sigaction}
use neu_os.Signal.{
  sigkill, sa_nomask, bad_action, fix_mask, set_action, check_old, sys_sgetmask, sys_ssetmask,
  sys_signal, sys_sigaction,
}

-- sys_ssetmask returns the old mask and sets the new one as asked at every signal but SIGKILL, which
-- it never blocks.
pub sys_ssetmask_lem :
    (newmask : ℕ) (t : Task)
    → ((sys_ssetmask newmask t).0 ≡ sys_sgetmask t)
      × (bit 8 (sys_sgetmask (sys_ssetmask newmask t).1) ≡ 0)
      × ((k : ℕ)
          → k ≢ 8
          → bit k minus_one ≡ 1
          → bit k (sys_sgetmask (sys_ssetmask newmask t).1) ≡ bit k newmask)
unfolding sys_ssetmask sys_sgetmask
sys_ssetmask_lem newmask t = (
  refl,
  omega (arith, bit-bit_and 8 newmask (bit_xor (2 ^ 8) minus_one)),
  λ k ne inside. omega (
    arith,
    bit-bit_and k newmask (bit_xor (2 ^ 8) minus_one),
    bit-bit_xor k (2 ^ 8) minus_one,
    bit-pow_ne k 8 ne,
    bit-le_one k newmask,
  ),
)

abbrev pub GoodSignum : ℕ → Type 0
GoodSignum signum = (1 ≤ signum) × (signum ≤ 32) × (signum ≢ sigkill)

pub good-action : (signum : ℕ) → GoodSignum signum → bad_action signum ≡ false
good-action signum g = ground arith

-- A handler that sys_signal installs is the one that the next sys_signal for that signal returns, and
-- the actions of the other signals are as before.
pub sys_signal-sys_signal :
    (signum handler restorer handler' restorer' : ℕ) (t : Task)
    → GoodSignum signum
    → ((sys_signal signum handler' restorer' (sys_signal signum handler restorer t).1).0 ≡ handler)
      × ((k : ℕ)
          → k ≢ signum - 1
          → (sys_signal signum handler restorer t).1.sigaction k ≡ t.sigaction k)
unfolding sys_signal
sys_signal-sys_signal signum handler restorer handler' restorer' t g = rw (good-action signum g) (
  ap (λ a. a.sa_handler) (update_self t.sigaction (signum - 1) _),
  λ k ne. update_ne t.sigaction (signum - 1) k _ ne,
)

-- The action that sys_sigaction installs: the caller's, but that its mask has the signal itself, or
-- is empty under SA_NOMASK.
pub record Installed (signum : ℕ) (action : Sigaction) (t t' : Task) : Type 0 where
  pub handler : (t'.sigaction (signum - 1)).sa_handler ≡ action.sa_handler
  pub restorer : (t'.sigaction (signum - 1)).sa_restorer ≡ action.sa_restorer
  pub masked :
      bit_and action.sa_flags sa_nomask ≡ 0
      → bit (signum - 1) (t'.sigaction (signum - 1)).sa_mask ≡ 1
  pub open_mask : bit_and action.sa_flags sa_nomask ≢ 0 → (t'.sigaction (signum - 1)).sa_mask ≡ 0
  pub others : (k : ℕ) → k ≢ signum - 1 → t'.sigaction k ≡ t.sigaction k

fix_mask_lem :
    (signum : ℕ) (sa : Sigaction)
    → ((fix_mask signum sa).sa_handler ≡ sa.sa_handler)
      × ((fix_mask signum sa).sa_restorer ≡ sa.sa_restorer)
      × (bit_and sa.sa_flags sa_nomask ≡ 0
          → (fix_mask signum sa).sa_mask ≡ bit_or sa.sa_mask (2 ^ (signum - 1)))
      × (bit_and sa.sa_flags sa_nomask ≢ 0 → (fix_mask signum sa).sa_mask ≡ 0)
unfolding fix_mask
fix_mask_lem signum sa = ground arith

module _ {signum : ℕ} {action : Sigaction} {t : Task} where
  set_action-Installed :
      ((set_action signum (fix_mask signum action) t).sigaction (signum - 1)
        ≡ fix_mask signum action)
      → Installed signum action t (set_action signum (fix_mask signum action) t)
  unfolding set_action
  set_action-Installed here =
      let (handler, restorer, masked, open_mask) = fix_mask_lem signum action in
      record {
        handler = ap (λ a. a.sa_handler) here ∙ handler;
        restorer = ap (λ a. a.sa_restorer) here ∙ restorer;
        masked = λ off.
            ap (λ a. bit (signum - 1) a.sa_mask) here
            ∙ ap (bit (signum - 1)) (masked off)
            ∙ omega (
              arith,
              bit-bit_or (signum - 1) action.sa_mask (2 ^ (signum - 1)),
              bit-pow_self (signum - 1),
              bit-le_one (signum - 1) action.sa_mask,
            );
        open_mask = λ on. ap (λ a. a.sa_mask) here ∙ open_mask on;
        others = λ k ne. update_ne t.sigaction (signum - 1) k _ ne;
      }

-- On a good signal number sys_sigaction does what verify_area does to the place for the old action, if there is one,
-- and panics when that panics; otherwise it installs the action, blocking the signal in its own handler
-- unless SA_NOMASK is set, leaves the other actions alone, returns 0, and gives back the old action
-- to a caller that asks.
pub sys_sigaction-Installed :
    (signum : ℕ) (action : Sigaction) (old_action : Option ℕ) (t : Task)
    → GoodSignum signum
    → (t' : Task) × (sys_sigaction signum action old_action t ≡ (
        check_old old_action t
        >> pure (0, t', Option.map (λ to. (to, t.sigaction (signum - 1))) old_action)))
      × Installed signum action t t'
unfolding sys_sigaction set_action
sys_sigaction-Installed signum action old_action t g = (
  set_action signum (fix_mask signum action) t,
  rw (sys_sigaction, good-action signum g) refl,
  set_action-Installed (update_self t.sigaction (signum - 1) (fix_mask signum action)),
)
