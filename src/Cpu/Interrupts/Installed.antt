-- ===== src/Cpu/Interrupts/Installed.antt =====
-- What isr_install leaves behind: the gates and the handlers.
use lxos.Base.{
  chars_of, [], ℕ, zero, suc, ◌+◌, ◌*◌, ◌/◌, ◌%◌, ◌≡◌, ◌<◌, refl, ◌∙◌, ap, Bool, true, false, ◌&&◌,
  ◌||◌, Option, some, leb, ltb, ◌==◌, if◌then◌else◌, arith, Bool-cases, inl, inr,
}
use lxos.Drivers.Screen.Controller.{Crt}
use lxos.Drivers.Screen.{Screen}
use lxos.Drivers.Screen.Numbers.{kprintf, format_chars}
use lxos.Cpu.Interrupts.{
  Gate, gate, Handler, Interrupts, set_idt_gate, set_gates, set_idt, register_interrupt_handler,
  init_timer, ide_register, screeninit, await_ack, init_keyboard, init_syscall, irq_install,
  remap_pic, isr_install,
}

-- the address that a gate leads to, and the privilege level that may name its vector
abbrev pub address : Gate → ℕ
address g = g.low_offset + 65536 * g.high_offset

abbrev pub privilege : Gate → ℕ
privilege g = g.flags / 32 % 4

-- the vectors that isr_install sets
abbrev pub is_vector : ℕ → Bool
is_vector n = ltb n 48 || n == 64

-- the handler of a vector, `old` where none is installed
abbrev pub handler_of : ℕ → Option Handler → Option Handler
handler_of n old =
    if n == 64
    then some Handler.syscall
    else if n == 33
    then some Handler.keyboard_callback
    else if n == 46
    then some Handler.ideint_callback
    else if n == 32
    then some Handler.timer_callback
    else old

gate-address : (n handler : ℕ) → handler < 4294967296 → address (gate n handler) ≡ handler
unfolding gate
gate-address n handler h = omega (arith, h)

gate-privilege : (n handler : ℕ) → privilege (gate n handler) ≡ (if n == 64 then 3 else 0)
unfolding gate
gate-privilege n handler = elim (Bool-cases (n == 64)) [ inl e ↦ rw (e) refl | inr e ↦ rw (e) refl ]

module _ (D : Crt) where
  open D use {State, inb, outb}

  -- the state of the ports after some reads of the keyboard's
  unfoldable pub after_reads : ℕ → State → State
  after_reads zero st = st
  after_reads (suc k) st = after_reads k (inb 0x60 st).1

  -- After the command 0xED, the keyboard answers 0xfa to one of the first `fuel` reads.
  pub record IsKeyboard (fuel : ℕ) : Type 0 where
    pub reads : State → ℕ
    pub in_time : (st : State) → reads st < fuel
    pub answer : (st : State) → (inb 0x60 (after_reads (reads st) (outb 0x60 0xED st))).0 ≡ 0xfa

  await_ack-returns :
      (fuel k : ℕ) (st : State)
      → k < fuel
      → (inb 0x60 (after_reads k st)).0 ≡ 0xfa
      → (st' : State) × (await_ack D fuel st ≡ some st')
  unfolding await_ack after_reads
  await_ack-returns zero k st h e = absurd (omega (arith, h))
  await_ack-returns (suc fuel) zero st h e = ((inb 0x60 st).1, rw (e) refl)
  await_ack-returns (suc fuel) (suc k) st h e =
      let (st', run) = await_ack-returns fuel k (inb 0x60 st).1 (omega (arith, h)) e in
      elim (Bool-cases ((inb 0x60 st).0 == 0xfa)) [
        | inl b ↦ ((inb 0x60 st).1, rw (b) refl)
        | inr b ↦ (st', rw (b) run)
      ]

  set_gates-idt :
      (count n : ℕ) (stub : ℕ → ℕ) (s : Interrupts D) (i : ℕ)
      → (set_gates D count n stub s).idt i
        ≡ (if leb n i && ltb i (n + count) then gate i (stub i) else s.idt i)
  unfolding set_gates set_idt_gate
  set_gates-idt zero n stub s i = ground arith
  set_gates-idt (suc count) n stub s i =
      rw (set_gates-idt count (n + 1) stub (set_idt_gate D n (stub n) s) i) ground arith

  set_gates-handlers :
      (count n : ℕ) (stub : ℕ → ℕ) (s : Interrupts D)
      → (set_gates D count n stub s).interrupt_handlers ≡ s.interrupt_handlers
  unfolding set_gates set_idt_gate
  set_gates-handlers zero n stub s = refl
  set_gates-handlers (suc count) n stub s =
      set_gates-handlers count (n + 1) stub (set_idt_gate D n (stub n) s)

  abbrev with_gates : (stub : ℕ → ℕ) → Interrupts D → Interrupts D
  with_gates stub s =
      let s1 = set_gates D 30 2 stub (set_idt_gate D 0 (stub 0) (set_idt_gate D 1 (stub 1) s)) in
      set_idt_gate D 64 (stub 64) (set_gates D 16 32 stub (remap_pic D s1))

  with_gates-idt :
      (stub : ℕ → ℕ) (s : Interrupts D) (i : ℕ)
      → (with_gates stub s).idt i ≡ (if is_vector i then gate i (stub i) else s.idt i)
  unfolding set_idt_gate remap_pic
  with_gates-idt stub s i =
      let s0 = set_idt_gate D 0 (stub 0) (set_idt_gate D 1 (stub 1) s) in
      rw
        (
          set_gates-idt 16 32 stub (remap_pic D (set_gates D 30 2 stub s0)) i,
          set_gates-idt 30 2 stub s0 i,
        )
        ground arith

  with_gates-handlers :
      (stub : ℕ → ℕ) (s : Interrupts D)
      → (with_gates stub s).interrupt_handlers ≡ s.interrupt_handlers
  unfolding set_idt_gate remap_pic
  with_gates-handlers stub s =
      let s0 = set_idt_gate D 0 (stub 0) (set_idt_gate D 1 (stub 1) s) in
      set_gates-handlers 16 32 stub (remap_pic D (set_gates D 30 2 stub s0))
      ∙ set_gates-handlers 30 2 stub s0

  -- what irq_install returns for the screen `scr` behind the keyboard's answer
  abbrev with_handlers : Screen D → Interrupts D → Interrupts D
  with_handlers scr s =
      let s1 = ide_register D (init_timer D 50 (record s { interrupts_on = false })) in
      init_syscall D (
        register_interrupt_handler D 33 Handler.keyboard_callback
          (screeninit D (record s1 { vid = scr.vid; ports = scr.crt })))

  greeting :
      (scr : Screen D)
      → (scr' : Screen D) × (kprintf D (chars_of "kern:capslock:disable!\n") [] scr ≡ some scr')
  unfolding kprintf format_chars
  greeting scr = (_, refl)

  irq_install-run :
      (fuel : ℕ) (s : Interrupts D) (st : State) (scr : Screen D)
      → await_ack D fuel (
          outb 0x60 0xED
            (ide_register D (init_timer D 50 (record s { interrupts_on = false }))).ports)
        ≡ some st
      → kprintf D (chars_of "kern:capslock:disable!\n") [] (record {
        vid = (ide_register D (init_timer D 50 (record s { interrupts_on = false }))).vid;
        crt = outb 0x60 0 st;
      })
        ≡ some scr
      → irq_install D fuel s ≡ some (with_handlers scr s)
  unfolding irq_install init_keyboard
  irq_install-run fuel s st scr run shown = rw (irq_install, init_keyboard, run, shown) refl

  isr_install-run :
      (fuel : ℕ) (stub : ℕ → ℕ) (s s' : Interrupts D)
      → irq_install D fuel (with_gates stub s) ≡ some s'
      → isr_install D fuel stub s ≡ some (set_idt D s')
  unfolding isr_install
  isr_install-run fuel stub s s' run = rw (isr_install, run) refl

  irq_install-returns :
      (fuel : ℕ) (s : Interrupts D)
      → IsKeyboard fuel
      → (scr : Screen D) × (irq_install D fuel s ≡ some (with_handlers scr s))
  irq_install-returns fuel s h =
      let s1 = ide_register D (init_timer D 50 (record s { interrupts_on = false })) in
      let (st, run) =
        await_ack-returns fuel (h.reads s1.ports) (outb 0x60 0xED s1.ports) (h.in_time s1.ports)
          (h.answer s1.ports) in
      let (scr, shown) = greeting (record { vid = s1.vid; crt = outb 0x60 0 st }) in
      (scr, irq_install-run fuel s st scr run shown)

  with_handlers-idt :
      (scr : Screen D) (s : Interrupts D)
      → ((with_handlers scr s).idt ≡ s.idt) × ((with_handlers scr s).interrupts_on ≡ false)
  unfolding ide_register init_timer init_syscall screeninit register_interrupt_handler
  with_handlers-idt scr s = (refl, refl)

  with_handlers-handlers :
      (scr : Screen D) (s : Interrupts D) (n : ℕ)
      → (with_handlers scr s).interrupt_handlers n ≡ handler_of n (s.interrupt_handlers n)
  unfolding ide_register init_timer init_syscall screeninit register_interrupt_handler
  with_handlers-handlers scr s n = refl

  pub record Installed (stub : ℕ → ℕ) (s s' : Interrupts D) : Type 0 where
    pub gates :
        (n : ℕ)
        → is_vector n ≡ true
        → (address (s'.idt n) ≡ stub n) × (privilege (s'.idt n) ≡ (if n == 64 then 3 else 0))
    pub others : (n : ℕ) → is_vector n ≡ false → s'.idt n ≡ s.idt n
    pub handlers : (n : ℕ) → s'.interrupt_handlers n ≡ handler_of n (s.interrupt_handlers n)
    pub off : s'.interrupts_on ≡ false

  -- isr_install returns if the keyboard answers in time. Of the 49 vectors it then has set, each leads to
  -- its entry point, and only that of system calls may be named from user mode; the timer, the keyboard,
  -- the disk and the system calls have their handlers, and no other vector's gate or handler changes.
  pub isr_install-Installed :
      (fuel : ℕ) (stub : ℕ → ℕ) (s : Interrupts D)
      → IsKeyboard fuel
      → ((n : ℕ) → stub n < 4294967296)
      → (s' : Interrupts D) × (isr_install D fuel stub s ≡ some s') × Installed stub s s'
  unfolding set_idt
  isr_install-Installed fuel stub s h low =
      let s2 = with_gates stub s in
      let (st, run) = irq_install-returns fuel s2 h in
      let idt_at : (n : ℕ)
          → (with_handlers st s2).idt n ≡ (if is_vector n then gate n (stub n) else s.idt n) =
        λ n. ap (λ f. f n) (with_handlers-idt st s2).0 ∙ with_gates-idt stub s n in
      (
        set_idt D (with_handlers st s2),
        isr_install-run fuel stub s (with_handlers st s2) run,
        record {
          gates = λ n v.
              let at : (with_handlers st s2).idt n ≡ gate n (stub n) = rw (idt_at n, v) refl in
              (
                ap address at ∙ gate-address n (stub n) (low n),
                ap privilege at ∙ gate-privilege n (stub n),
              );
          others = λ n v. rw (idt_at n, v) refl;
          handlers = λ n.
              with_handlers-handlers st s2 n
              ∙ ap (λ f. handler_of n (f n)) (with_gates-handlers stub s);
          off = (with_handlers-idt st s2).1;
        },
      )
