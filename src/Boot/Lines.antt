-- ===== src/Boot/Lines.antt =====
-- The interrupt lines that the start of the kernel lets through the two 8259 controllers.
use neu_os.Prelude.{
  ℕ, zero, suc, ◌+◌, ◌*◌, ◌/◌, ◌%◌, ◌<◌, ◌≡◌, ◌≢◌, refl, ap, ◌∙◌, List, ◌∷◌, arith, some,
}
use neu_os.Console.{Vga, video_init, video_clear, update_cursor, cursor_writes}
use neu_os.Boot.{
  Handlers, Machine, without, reserve, exception_gates, set_trap_gate, set_intr_gate,
  set_system_gate, clear_task, clear_tasks, task_zero, unmask, trap_init, sched_init, acknowledge,
  con_init, start,
}
use neu_os.Boot.Gates.{prepared, start-con_init}

-- What the documents say of a mask register of the 8259, at `port`: it reads as the byte last written to it,
-- and other ports do not matter.
pub record Remembers (inb : List (ℕ × ℕ) → ℕ → ℕ) (port : ℕ) : Type 0 where
  pub byte : (log : List (ℕ × ℕ)) → inb log port < 256
  pub written : (v : ℕ) (log : List (ℕ × ℕ)) → v < 256 → inb ((port, v) ∷ log) port ≡ v
  pub other : (p v : ℕ) (log : List (ℕ × ℕ)) → p ≢ port → inb ((p, v) ∷ log) port ≡ inb log port

reserve-screen : (n i addr : ℕ) (m : Machine) → (reserve n i addr m).screen ≡ m.screen
unfolding reserve set_trap_gate
reserve-screen zero i addr m = refl
reserve-screen (suc n) i addr m = reserve-screen n (i + 1) addr (set_trap_gate i addr m)

clear_tasks-screen : (n i : ℕ) (m : Machine) → (clear_tasks n i m).screen ≡ m.screen
unfolding clear_tasks clear_task
clear_tasks-screen zero i m = refl
clear_tasks-screen (suc n) i m = clear_tasks-screen n (i + 1) (clear_task i m)

module _ (inb : List (ℕ × ℕ) → ℕ → ℕ) (port : ℕ) (pic : Remembers inb port) where
  video_init-ports : (v : Vga) → port < 256 → inb (video_init v).ports port ≡ inb v.ports port
  unfolding video_init video_clear update_cursor cursor_writes
  video_init-ports v lt =
      pic.other 0x3d5 _ _ (omega arith)
      ∙ pic.other 0x3d4 _ _ (omega arith)
      ∙ pic.other 0x3d5 _ _ (omega arith)
      ∙ pic.other 0x3d4 _ _ (omega arith)

  masked :
      (b : ℕ) (log : List (ℕ × ℕ))
      → inb ((port, without b (inb log port) % 256) ∷ log) port ≡ without b (inb log port)
  masked b log =
      pic.written (without b (inb log port) % 256) log (omega arith)
      ∙ (let small : inb log port < 256 = pic.byte log in omega arith)

module _ (inb : List (ℕ × ℕ) → ℕ → ℕ) (h : Handlers) where
  exceptions-screen : (m : Machine) → (exception_gates h m).screen ≡ m.screen
  unfolding exception_gates set_trap_gate set_system_gate
  exceptions-screen m = refl

  reserved-screen :
      (m : Machine) → (reserve 31 17 h.reserved (exception_gates h m)).screen ≡ m.screen
  reserved-screen m = reserve-screen 31 17 h.reserved (exception_gates h m) ∙ exceptions-screen m

  module _ (first : Remembers inb 0x21) where
    trap_init-first :
        (m : Machine)
        → inb (trap_init inb h m).screen.ports 0x21 ≡ without 4 (inb m.screen.ports 0x21)
    unfolding trap_init set_trap_gate unmask
    trap_init-first m =
        first.other 0xa1 _ _ (omega arith)
        ∙ masked inb 0x21 first 4 _
        ∙ ap (λ s. without 4 (inb s.ports 0x21)) (reserved-screen m)

    sched_init-first :
        (tss ldt : ℕ) (m : Machine)
        → inb (sched_init inb h tss ldt m).screen.ports 0x21 ≡ without 1 (inb m.screen.ports 0x21)
    unfolding sched_init unmask set_intr_gate set_system_gate task_zero
    sched_init-first tss ldt m =
        masked inb 0x21 first 1 _
        ∙ ap (without 1) (
            first.other 0x40 _ _ (omega arith)
            ∙ first.other 0x40 _ _ (omega arith)
            ∙ first.other 0x43 _ _ (omega arith)
            ∙ ap (λ s. inb s.ports 0x21) (clear_tasks-screen 63 1 (task_zero tss ldt m)))

    con_init-first :
        (m : Machine)
        → inb (con_init inb h m).screen.ports 0x21 ≡ without 2 (inb m.screen.ports 0x21)
    unfolding con_init unmask set_trap_gate acknowledge
    con_init-first m =
        first.other 0x61 _ _ (omega arith)
        ∙ first.other 0x61 _ _ (omega arith)
        ∙ masked inb 0x21 first 2 _
        ∙ ap (without 2) (video_init-ports inb 0x21 first m.screen (omega arith))

  module _ (second : Remembers inb 0xa1) where
    trap_init-second :
        (m : Machine)
        → inb (trap_init inb h m).screen.ports 0xa1 ≡ without 32 (inb m.screen.ports 0xa1)
    unfolding trap_init set_trap_gate unmask
    trap_init-second m =
        masked inb 0xa1 second 32 _
        ∙ ap (without 32)
            (second.other 0x21 _ _ (omega arith) ∙ ap (λ s. inb s.ports 0xa1) (reserved-screen m))

    sched_init-second :
        (tss ldt : ℕ) (m : Machine)
        → inb (sched_init inb h tss ldt m).screen.ports 0xa1 ≡ inb m.screen.ports 0xa1
    unfolding sched_init unmask set_intr_gate set_system_gate task_zero
    sched_init-second tss ldt m =
        second.other 0x21 _ _ (omega arith)
        ∙ second.other 0x40 _ _ (omega arith)
        ∙ second.other 0x40 _ _ (omega arith)
        ∙ second.other 0x43 _ _ (omega arith)
        ∙ ap (λ s. inb s.ports 0xa1) (clear_tasks-screen 63 1 (task_zero tss ldt m))

    con_init-second :
        (m : Machine) → inb (con_init inb h m).screen.ports 0xa1 ≡ inb m.screen.ports 0xa1
    unfolding con_init unmask set_trap_gate acknowledge
    con_init-second m =
        second.other 0x61 _ _ (omega arith)
        ∙ second.other 0x61 _ _ (omega arith)
        ∙ second.other 0x21 _ _ (omega arith)
        ∙ video_init-ports inb 0xa1 second m.screen (omega arith)

-- After the start the first controller lets the timer, the keyboard and the second controller through, and
-- the second one its line 5, IRQ 13; every other line is masked or not as it was before. That holds if the
-- mask registers read as what was last written to them.
pub start-unmasked :
    (inb : List (ℕ × ℕ) → ℕ → ℕ) (h : Handlers) (tss ldt : ℕ) (m : Machine)
    → Remembers inb 0x21
    → Remembers inb 0xa1
    → (m' : Machine) × (start inb h tss ldt m ≡ some m')
      × (inb m'.screen.ports 0x21 ≡ inb m.screen.ports 0x21 / 8 * 8)
      × (inb m'.screen.ports 0xa1
          ≡ inb m.screen.ports 0xa1 / 64 * 64 + inb m.screen.ports 0xa1 % 32)
start-unmasked inb h tss ldt m first second =
    let (mm, run) = start-con_init inb h tss ldt m in
    let shown : Machine = record m { screen = video_init m.screen } in
    let traps : Machine = trap_init inb h shown in
    let ready : Machine = record (prepared inb h tss ldt m) { mm = mm } in
    (
      con_init inb h ready,
      run,
      con_init-first inb h first ready
          ∙ ap (without 2) (
              sched_init-first inb h first tss ldt traps
              ∙ ap (without 1) (
                  trap_init-first inb h first shown
                  ∙ ap (without 4) (video_init-ports inb 0x21 first m.screen (omega arith))))
          ∙ omega arith,
      con_init-second inb h second ready
          ∙ sched_init-second inb h second tss ldt traps
          ∙ trap_init-second inb h second shown
          ∙ ap (without 32) (video_init-ports inb 0xa1 second m.screen (omega arith))
          ∙ omega arith,
    )
