-- ===== src/Cpu/Interrupts.antt =====
-- The interrupt table of cpu/idt.c and cpu/isr.c, with what irq_install sets up in cpu/timer.c,
-- drivers/ide.c, drivers/keyboard.c, drivers/screen.c and kernel/syscall.c. The hardware behind the ports is
-- a parameter, which Drivers/Screen prints through, too; so are the addresses of the entry points of
-- interrupt.asm.
pub mod Installed
pub mod Dispatch
use lxos.Base.{
  ℕ, zero, suc, ◌+◌, ◌-◌, ◌*◌, ◌/◌, ◌%◌, ◌^◌, Bool, true, false, not, ◌&&◌, ◌||◌, Option, none,
  some, List, [], ◌∷◌, leb, ◌==◌, if◌then◌else◌, get_elem?, chars_of,
}
use Prim.Native.String.{String}
use lxos.Libc.Memory.{Memory}
use lxos.Drivers.Screen.Controller.{Crt}
use lxos.Drivers.Screen.{Screen, kprint}
use lxos.Drivers.Screen.Numbers.{number, backwards, int_chars, kprintf}

pub record Gate : Type 0 where
  pub low_offset : ℕ
  pub sel : ℕ
  pub always0 : ℕ
  pub flags : ℕ
  pub high_offset : ℕ

abbrev pub kernel_cs : ℕ
kernel_cs = 8

abbrev pub idt_entries : ℕ
idt_entries = 256

abbrev pub low_16 : ℕ → ℕ
low_16 address = address % 65536

abbrev pub high_16 : ℕ → ℕ
high_16 address = address / 65536 % 65536

-- the functions of type isr_t
pub data Handler : Type 0 where
  timer_callback : Handler
  ideint_callback : Handler
  keyboard_callback : Handler
  syscall : Handler

-- the functions in devsw
pub data DeviceOperation : Type 0 where
  screenewrite : DeviceOperation

pub record Registers : Type 0 where
  pub int_no : ℕ
  pub err_code : ℕ

abbrev pub exception_messages : List String
exception_messages =
    "Division By Zero" ∷ "Debug" ∷ "Non Maslable Interrupt" ∷ "Breakpoint"
    ∷ "Into Detected Overflow" ∷ "Out of Bounds" ∷ "Invalid Opcode" ∷ "No Coprovessor"
    ∷ "Double Fault" ∷ "Coprocessor Segment Overrun" ∷ "Bad TSS" ∷ "Segment Not Present"
    ∷ "Stack Fault" ∷ "General Protection Fault" ∷ "Page Fault" ∷ "Unknown Interrupt"
    ∷ "Coprocessor Fault" ∷ "Alignment Check" ∷ "Machine Check" ∷ "Reserved" ∷ "Reserved"
    ∷ "Reserved" ∷ "Reserved" ∷ "Reserved" ∷ "Reserved" ∷ "Reserved" ∷ "Reserved" ∷ "Reserved"
    ∷ "Reserved" ∷ "Reserved" ∷ "Reserved" ∷ "Reserved" ∷ []

unfoldable pub gate : (n handler : ℕ) → Gate
gate n handler = record {
  low_offset = low_16 handler;
  sel = kernel_cs;
  always0 = 0;
  flags = if n == 64 then 0xEF else 0x8E;
  high_offset = high_16 handler;
}

-- the interrupts that irq_handler returns from
abbrev pub is_ignored : ℕ → Bool
is_ignored int_no = int_no == 130 || int_no == 14 || int_no == 160

module _ (D : Crt) where
  open D use {State, inb, outb}

  pub record Interrupts : Type 0 where
    pub idt : ℕ → Gate
    pub idt_limit : ℕ
    pub interrupt_handlers : ℕ → Option Handler
    pub devsw_write : ℕ → Option DeviceOperation
    pub devsw_read : ℕ → Option DeviceOperation
    pub vid : Memory
    pub ports : State
    pub interrupts_on : Bool
    pub tick : ℕ

  unfoldable pub set_idt_gate : (n handler : ℕ) → Interrupts → Interrupts
  set_idt_gate n handler s = record s { idt = λ i. if i == n then gate n handler else s.idt i }

  unfoldable pub set_idt : Interrupts → Interrupts
  set_idt s = record s { idt_limit = idt_entries * 8 - 1 }

  unfoldable pub register_interrupt_handler : ℕ → Handler → Interrupts → Interrupts
  register_interrupt_handler n handler s = record s {
    interrupt_handlers = λ i. if i == n % 256 then some handler else s.interrupt_handlers i;
  }

  abbrev pub port_byte_out : (port byte : ℕ) → Interrupts → Interrupts
  port_byte_out port byte s = record s { ports = outb port byte s.ports }

  -- the screen as drivers/screen.c sees it
  abbrev pub screen : Interrupts → Screen D
  screen s = record { vid = s.vid; crt = s.ports }

  abbrev pub with_screen : Screen D → Interrupts → Interrupts
  with_screen scr s = record s { vid = scr.vid; ports = scr.crt }

  abbrev pub say : String → Interrupts → Interrupts
  say text s = with_screen (kprint D (chars_of text) (screen s)) s

  -- int_to_ascii into a buffer, and kprint of it
  abbrev pub say_number : ℕ → Interrupts → Interrupts
  say_number n s = with_screen (kprint D (backwards (int_chars 97 n 10 true)) (screen s)) s

  unfoldable pub init_timer : (freq : ℕ) → Interrupts → Interrupts
  init_timer freq s =
      let divisor = 1193180 / freq in
      port_byte_out 0x40 (divisor / 256 % 256) (
        port_byte_out 0x40 (divisor % 256)
          (port_byte_out 0x43 0x36 (register_interrupt_handler 32 timer_callback s)))

  unfoldable pub ide_register : Interrupts → Interrupts
  ide_register s = register_interrupt_handler 46 ideint_callback s

  unfoldable pub screeninit : Interrupts → Interrupts
  screeninit s = record s {
    devsw_write = λ i. if i == 1 then some screenewrite else s.devsw_write i;
    devsw_read = λ i. if i == 1 then none else s.devsw_read i;
  }

  -- `while(port_byte_in(0x60)!=0xfa)`
  unfoldable pub await_ack : ℕ → State → Option State
  await_ack zero st = none
  await_ack (suc fuel) st =
      let (r, st') = inb 0x60 st in
      let rest = await_ack fuel st' in if r == 0xfa then some st' else rest

  unfoldable pub init_keyboard : ℕ → Interrupts → Option Interrupts
  init_keyboard fuel s = elim (await_ack fuel (outb 0x60 0xED s.ports)) [
    | none ↦ none
    | some st ↦
        let s1 = port_byte_out 0x60 0 (record s { ports = st }) in
        elim (kprintf D (chars_of "kern:capslock:disable!\n") [] (screen s1)) [
          | none ↦ none
          | some scr ↦
              some
                (register_interrupt_handler 33 keyboard_callback (screeninit (with_screen scr s1)))
        ]
  ]

  unfoldable pub init_syscall : Interrupts → Interrupts
  init_syscall s = register_interrupt_handler 64 syscall s

  unfoldable pub irq_install : ℕ → Interrupts → Option Interrupts
  irq_install fuel s =
      elim (init_keyboard fuel
        (ide_register (init_timer 50 (record s { interrupts_on = false })))) [
          | none ↦ none
          | some s' ↦ some (init_syscall s')
        ]

  -- `set_idt_gate(n, stub n)` for `count` numbers from `n` on
  unfoldable pub set_gates : (count n : ℕ) → (stub : ℕ → ℕ) → Interrupts → Interrupts
  set_gates zero n stub s = s
  set_gates (suc count) n stub s = set_gates count (n + 1) stub (set_idt_gate n (stub n) s)

  -- the interrupt controllers: their vectors start at 32 and 40
  unfoldable pub remap_pic : Interrupts → Interrupts
  remap_pic s = port_byte_out 0xA1 0x0 (
      port_byte_out 0x21 0x0 (
        port_byte_out 0xA1 0x01 (
          port_byte_out 0x21 0x01 (
            port_byte_out 0xA1 0x02 (
              port_byte_out 0x21 0x04 (
                port_byte_out 0xA1 0x28 (
                  port_byte_out 0x21 0x20
                    (port_byte_out 0xA0 0x11 (port_byte_out 0x20 0x11 s)))))))))

  -- The gates are set in the order 1, 0, 2 and on to 31; `stub n` is the address of isr `n` or irq `n - 32`,
  -- and `stub 64` that of irq64.
  unfoldable pub isr_install : ℕ → (stub : ℕ → ℕ) → Interrupts → Option Interrupts
  isr_install fuel stub s =
      let s1 = set_gates 30 2 stub (set_idt_gate 0 (stub 0) (set_idt_gate 1 (stub 1) s)) in
      let s2 = set_idt_gate 64 (stub 64) (set_gates 16 32 stub (remap_pic s1)) in
      elim (irq_install fuel s2) [ none ↦ none | some s3 ↦ some (set_idt s3) ]

  -- what irq_handler prints; `cr2` is the address of the last page fault
  unfoldable pub report :
      (message : String) → (cr2 : ℕ) → Registers → Interrupts → Option Interrupts
  report message cr2 r s =
      let s1 = say "\n" (say_number r.int_no (say "received interrupt:" s)) in
      let s2 = say "\n" (say message s1) in
      elim (kprintf D (chars_of "error code is:%x\n") (number r.err_code ∷ []) (screen s2)) [
        | none ↦ none
        | some scr ↦ elim (kprintf D (chars_of "cr2 addr is:%x\n") (number cr2 ∷ []) scr) [
          | none ↦ none
          | some scr' ↦ some (with_screen scr' s2)
        ]
      ]

  -- irq_handler up to its last loop; `none` where the message is read behind the table
  unfoldable pub irq_handler : (cr2 : ℕ) → Registers → Interrupts → Option Interrupts
  irq_handler cr2 r s =
      if is_ignored r.int_no then some s else elim (get_elem? exception_messages r.int_no) [
        | none ↦ none
        | some message ↦ report message cr2 r s
      ]

  -- the end-of-interrupt commands of trap_handler
  unfoldable pub acknowledge : (int_no : ℕ) → Interrupts → Interrupts
  acknowledge int_no s = record s {
    ports = outb 0x20 0x20 (if leb 40 int_no then outb 0xA0 0x20 s.ports else s.ports);
  }

  unfoldable pub count_tick : Interrupts → Interrupts
  count_tick s = record s { tick = (s.tick + 1) % 2 ^ 32 }

  -- How trap_handler ends: with the call of a handler other than the timer's, by returning, or in the
  -- loop of irq_handler.
  pub data End : Type 0 where
    calls : Handler → End
    returns : End
    stops : End

  unfoldable pub call_handler : Handler → Interrupts → End × Interrupts
  call_handler timer_callback s = (returns, count_tick s)
  call_handler ideint_callback s = (calls ideint_callback, s)
  call_handler keyboard_callback s = (calls keyboard_callback, s)
  call_handler syscall s = (calls syscall, s)

  unfoldable pub trap_handler : (cr2 : ℕ) → Registers → Interrupts → Option (End × Interrupts)
  trap_handler cr2 r s =
      let s1 = acknowledge r.int_no s in
      elim (s1.interrupt_handlers r.int_no) [
        | some handler ↦ some (call_handler handler s1)
        | none ↦ elim (irq_handler cr2 r s1) [
          | none ↦ none
          | some s2 ↦ some (if is_ignored r.int_no then returns else stops, s2)
        ]
      ]
