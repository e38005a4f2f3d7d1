-- ===== src/Tests/Processor.antt =====
-- A keyboard that answers at the second read, and the interrupt table that starts empty.
use lxos.Base.{ℕ, ◌+◌, ◌*◌, ◌%◌, ◌≡◌, refl, true, none, some, ◌==◌, if◌then◌else◌, arith}
use lxos.Drivers.Screen.Controller.{Crt}
use lxos.Cpu.Interrupts.{Gate, Handler, Registers, Interrupts, End, isr_install, exception_messages}
use lxos.Cpu.Interrupts.Installed.{IsKeyboard, Installed, isr_install-Installed}

-- The state counts the reads since the last write: the first one gives 0, the next ones 0xfa.
abbrev answering : Crt
answering = record {
  State = ℕ;
  inb = (λ port st. ((if st == 0 then 0 else 0xfa), st + 1));
  outb = (λ port byte st. 0);
  cursor = (λ st. 0);
}

answering-IsKeyboard : IsKeyboard answering 5
unfolding lxos.Cpu.Interrupts.Installed.after_reads
answering-IsKeyboard = record { reads = λ st. 1; in_time = λ st. omega arith; answer = λ st. refl }

abbrev empty : Interrupts answering
empty = record {
  idt = λ i. record { low_offset = 0; sel = 0; always0 = 0; flags = 0; high_offset = 0 };
  idt_limit = 0;
  interrupt_handlers = λ i. none;
  devsw_write = λ i. none;
  devsw_read = λ i. none;
  vid = λ a. 0;
  ports = 0;
  interrupts_on = true;
  tick = 6;
}

abbrev entry : ℕ → ℕ
entry n = 0x100000 + n % 256 * 16

isr_install-Installed_example :
    (s' : Interrupts answering) × (isr_install answering 5 entry empty ≡ some s')
    × Installed answering entry empty s'
isr_install-Installed_example =
    isr_install-Installed answering 5 entry empty answering-IsKeyboard (λ n. omega arith)

abbrev installed : Interrupts answering
installed =
    (isr_install-Installed answering 5 entry empty answering-IsKeyboard (λ n. omega arith)).0

abbrev timer_interrupt : Registers
timer_interrupt = record { int_no = 32; err_code = 0 }
