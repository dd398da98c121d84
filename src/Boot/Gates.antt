-- ===== src/Boot/Gates.antt =====
-- The interrupt vectors that the start of the kernel sets.
use neu_os.Prelude.{
  ℕ, zero, suc, ◌+◌, ◌*◌, ◌/◌, ◌%◌, ◌^◌, ◌≤◌, ◌<◌, ◌≡◌, refl, ◌≢◌, ap, ◌∙◌, inl, inr, ◌&&◌, some,
  List, [], ◌∷◌, arith, ltb, leb, ◌==◌, if◌then◌else◌, lt-cases, ℕ-cases, length,
}
use neu_os.Task.{Desc}
use neu_os.Kernel.Segment.{set_gate}
use neu_os.Console.{video_init}
use neu_os.Mm.State.{Mm}
use neu_os.Mm.Page.Init.{mem_init-initial}
use neu_os.Boot.{
  Handlers, Machine, set_trap_gate, set_intr_gate, set_system_gate, reserve, exception_gates,
  clear_tasks, task_zero, unmask, trap_init, sched_init, acknowledge, con_init, with_memory, start,
}

-- A descriptor is a present gate into the kernel's code segment.
pub record Gate (type dpl addr : ℕ) (d : Desc) : Type 0 where
  pub target : d.b / 2 ^ 16 * 2 ^ 16 + d.a % 2 ^ 16 ≡ addr
  pub segment : d.a / 2 ^ 16 ≡ 8
  pub present : d.b / 2 ^ 15 % 2 ≡ 1
  pub level : d.b / 2 ^ 13 % 4 ≡ dpl
  pub kind : d.b / 2 ^ 8 % 32 ≡ type

set_gate-Gate :
    (type dpl addr : ℕ) → type < 32 → dpl < 4 → Gate type dpl addr (set_gate type dpl addr)
unfolding set_gate
set_gate-Gate type dpl addr ht hd = record {
  target = omega arith;
  segment = omega arith;
  present = omega arith;
  level = omega arith;
  kind = omega arith;
}

-- The handlers of the exceptions, by their vectors.
abbrev pub exceptions : Handlers → List ℕ
exceptions h =
    h.divide_error ∷ h.debug ∷ h.nmi ∷ h.int3 ∷ h.overflow ∷ h.bounds ∷ h.double_fault
    ∷ h.device_not_available ∷ h.double_fault ∷ h.coprocessor_segment_overrun ∷ h.invalid_tss
    ∷ h.segment_not_present ∷ h.stack_segment ∷ h.general_protection ∷ h.page_fault ∷ h.reserved
    ∷ h.coprocessor_error ∷ []

abbrev pub nth : ℕ → List ℕ → ℕ → ℕ
nth default [] n = default
nth default (x ∷ xs) zero = x
nth default (x ∷ xs) (suc n) = nth default xs n

-- Which handler serves a vector, with which privilege level and type.
abbrev pub served : Handlers → ℕ → ℕ
served h v =
    if v == 32
    then h.timer_interrupt
    else if v == 33
    then h.keyboard_interrupt
    else if v == 39
    then h.parallel_interrupt
    else if v == 45
    then h.irq13
    else nth h.reserved (exceptions h) v

abbrev pub level_of : ℕ → ℕ
level_of v = if leb 3 v && leb v 5 then 3 else 0

abbrev pub type_of : ℕ → ℕ
type_of v = if v == 32 then 0xe else 0xf

reserve-idt :
    (n i addr : ℕ) (m : Machine) (v : ℕ)
    → (reserve n i addr m).idt v
      ≡ (if leb i v && ltb v (i + n) then set_gate 0xf 0 addr else m.idt v)
unfolding reserve set_trap_gate
reserve-idt zero i addr m v = ground arith
reserve-idt (suc n) i addr m v =
    ground (arith, reserve-idt n (i + 1) addr (set_trap_gate i addr m) v)

-- A statement on each of the `n` numbers from `i` on holds of each.
abbrev Each : (ℕ → Type 0) → ℕ → ℕ → Type 0
Each P zero i = Unit
Each P (suc n) i = P i × Each P n (i + 1)

each : (P : ℕ → Type 0) (n i : ℕ) → Each P n i → (v : ℕ) → i ≤ v → v < i + n → P v
each P zero i all v lo hi = absurd (omega arith)
each P (suc n) i all v lo hi = elim (ℕ-cases v i) [
  | inl here ↦ rw here (all.0)
  | inr ne ↦ each P n (i + 1) all.1 v (omega arith) (omega arith)
]

abbrev wanted : Handlers → ℕ → Desc
wanted h v = set_gate (type_of v) (level_of v) (served h v)

exceptions-idt :
    (h : Handlers) (m : Machine) (v : ℕ) → v < 17 → (exception_gates h m).idt v ≡ wanted h v
unfolding exception_gates set_trap_gate set_system_gate
exceptions-idt h m v lt =
    each (λ v. (exception_gates h m).idt v ≡ wanted h v) 17 0
      (
        refl,
        (
          refl,
          (
            refl,
            (
              refl,
              (
                refl,
                (
                  refl,
                  (
                    refl,
                    (
                      refl,
                      (refl, (refl, (refl, (refl, (refl, (refl, (refl, (refl, (refl, tt))))))))),
                    ),
                  ),
                ),
              ),
            ),
          ),
        ),
      )
      v (omega arith) (omega arith)

clear_tasks-idt : (n i : ℕ) (m : Machine) → (clear_tasks n i m).idt ≡ m.idt
unfolding clear_tasks
clear_tasks-idt zero i m = refl
clear_tasks-idt (suc n) i m = clear_tasks-idt n (i + 1) _

nth-default : (default : ℕ) (xs : List ℕ) (n : ℕ) → length xs ≤ n → nth default xs n ≡ default
nth-default default [] n le = refl
nth-default default (x ∷ xs) zero le = absurd (omega arith)
nth-default default (x ∷ xs) (suc n) le = nth-default default xs n (omega arith)

nth-reserved : (h : Handlers) (v : ℕ) → 17 ≤ v → nth h.reserved (exceptions h) v ≡ h.reserved
nth-reserved h v le = nth-default h.reserved (exceptions h) v le

module _ (inb : List (ℕ × ℕ) → ℕ → ℕ) (h : Handlers) (tss ldt : ℕ) where
  trap_init-idt :
      (m : Machine) (v : ℕ) → v < 48 → v ≢ 32 → v ≢ 33 → (trap_init inb h m).idt v ≡ wanted h v
  unfolding trap_init set_trap_gate unmask
  trap_init-idt m v lt timer keyboard = elim (lt-cases v 17) [
    | inl low ↦
        ground
          (arith, exceptions-idt h m v low, reserve-idt 31 17 h.reserved (exception_gates h m) v)
    | inr high ↦
        ground (arith, nth-reserved h v high, reserve-idt 31 17 h.reserved (exception_gates h m) v)
  ]

  sched_init-idt :
      (m : Machine) (v : ℕ)
      → v < 48
      → (sched_init inb h tss ldt m).idt v
        ≡ (if v == 32 then set_gate 0xe 0 h.timer_interrupt else m.idt v)
  unfolding sched_init set_intr_gate set_system_gate unmask task_zero
  sched_init-idt m v lt = ground (arith, ap (λ f. f v) (clear_tasks-idt 63 1 (task_zero tss ldt m)))

  sched_init-call :
      (m : Machine) → (sched_init inb h tss ldt m).idt 0x80 ≡ set_gate 0xf 3 h.system_call
  unfolding sched_init set_intr_gate set_system_gate unmask task_zero
  sched_init-call m = refl

  con_init-idt :
      (m : Machine) (v : ℕ)
      → (con_init inb h m).idt v
        ≡ (if v == 33 then set_gate 0xf 0 h.keyboard_interrupt else m.idt v)
  unfolding con_init set_trap_gate unmask acknowledge
  con_init-idt m v = refl

  -- The machine before mem_init, and after the rest.
  abbrev pub prepared : Machine → Machine
  prepared m =
      sched_init inb h tss ldt (trap_init inb h (record m { screen = video_init m.screen }))

  pub start-con_init :
      (m : Machine)
      → (mm : Mm) × (start inb h tss ldt m
          ≡ some (con_init inb h (record (prepared m) { mm = mm })))
  unfolding start with_memory
  start-con_init m =
      let (mm, run, map, high, phys) =
        mem_init-initial 0x100000 0x300000 (prepared m).mm (omega arith) (omega arith) (omega arith)
          (omega arith) (omega arith) in
      (mm, rw (start, run) refl)

  wanted-prepared : (m : Machine) (v : ℕ) → v < 48 → v ≢ 33 → (prepared m).idt v ≡ wanted h v
  wanted-prepared m v lt ne =
      sched_init-idt (trap_init inb h (record m { screen = video_init m.screen })) v lt
      ∙ elim (ℕ-cases v 32) [
        | inl timer ↦ ground arith
        | inr other ↦
            ground (arith, trap_init-idt (record m { screen = video_init m.screen }) v lt other ne)
      ]

  start-idt :
      (m : Machine) (mm : Mm) (v : ℕ)
      → v < 48
      → (con_init inb h (record (prepared m) { mm = mm })).idt v ≡ wanted h v
  start-idt m mm v lt = con_init-idt (record (prepared m) { mm = mm }) v ∙ elim (ℕ-cases v 33) [
    | inl keyboard ↦ ground arith
    | inr ne ↦ ground (arith, wanted-prepared m v lt ne)
  ]

  -- The start of the kernel succeeds. Each of the vectors below 48 then is a present gate to the code
  -- segment: the timer, the keyboard, the parallel port and IRQ 13 have their handlers, an exception the one
  -- of the list `exceptions`, in which that of an invalid operand does not occur, and every other vector has
  -- `reserved`; user code may call the vectors 3, 4 and 5, and only the timer's gate masks interrupts. The
  -- vector 0x80 is the system call, for user code.
  pub start-Gate :
      (m : Machine)
      → (m' : Machine) × (start inb h tss ldt m ≡ some m')
        × ((v : ℕ) → v < 48 → Gate (type_of v) (level_of v) (served h v) (m'.idt v))
        × Gate 0xf 3 h.system_call (m'.idt 0x80)
  start-Gate m =
      let (mm, run) = start-con_init m in
      (
        con_init inb h (record (prepared m) { mm = mm }),
        run,
        λ v lt.
            rw (start-idt m mm v lt)
              (set_gate-Gate (type_of v) (level_of v) (served h v) (ground arith) (ground arith)),
        rw (con_init-idt (record (prepared m) { mm = mm }) 0x80 ∙ sched_init-call _)
            (set_gate-Gate 0xf 3 h.system_call (omega arith) (omega arith)),
      )
