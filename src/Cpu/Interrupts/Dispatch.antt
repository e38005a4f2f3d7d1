-- ===== src/Cpu/Interrupts/Dispatch.antt =====
-- Where trap_handler leads once isr_install has run.
use lxos.Base.{ℕ, ◌+◌, ◌%◌, Option, none, some, leb, ltb, ◌==◌, if◌then◌else◌}
use Prim.Native.String.{String}
use lxos.Drivers.Screen.Controller.{Crt}
use lxos.Drivers.Screen.{Screen}
use lxos.Cpu.Interrupts.{say, say_number, Handler, Registers, Interrupts, End}
use lxos.Cpu.Interrupts.Installed.{Installed}

module _ (D : Crt) where
  open D use {State, inb, outb}

  -- What is seen of a call of trap_handler: its end, the ports and the ticks. One that stops has printed
  -- through the ports of the display, which are left out.
  abbrev pub Seen : Type 0
  Seen = Option (End D × Option State × ℕ)

  abbrev pub seen : Option (End D × Interrupts D) → Seen
  seen none = none
  seen (some (End.calls h, s)) = some (End.calls h, some s.ports, s.tick)
  seen (some (End.returns, s)) = some (End.returns, some s.ports, s.tick)
  seen (some (End.stops, s)) = some (End.stops, none, s.tick)

  -- the ports after the end-of-interrupt commands
  abbrev pub acknowledged : ℕ → State → State
  acknowledged n st = outb 0x20 0x20 (if leb 40 n then outb 0xA0 0x20 st else st)

  -- what is seen for a vector that isr_install sets, from the ports after the commands and the ticks
  -- before; `none` where the message of an interrupt without a handler is read behind the table
  abbrev pub outcome_of : (n : ℕ) → State → (tick : ℕ) → Seen
  outcome_of n st tick =
      if n == 64
      then some (End.calls Handler.syscall, some st, tick)
      else if n == 33
      then some (End.calls Handler.keyboard_callback, some st, tick)
      else if n == 46
      then some (End.calls Handler.ideint_callback, some st, tick)
      else if n == 32
      then some (End.returns, some st, (tick + 1) % 4294967296)
      else if n == 14
      then some (End.returns, some st, tick)
      else if ltb n 32
      then some (End.stops, none, tick)
      else none

  -- the state that report prints its last two lines from
  abbrev named : (message : String) → Registers → Interrupts D → Interrupts D
  named message r s =
      say D "\n"
        (say D message (say D "\n" (say_number D r.int_no (say D "received interrupt:" s))))

  abbrev ticks : Handler → ℕ → ℕ
  ticks Handler.timer_callback n = (n + 1) % 4294967296
  ticks Handler.ideint_callback n = n
  ticks Handler.keyboard_callback n = n
  ticks Handler.syscall n = n

  abbrev end_with : Handler → End D
  end_with Handler.timer_callback = End.returns
  end_with Handler.ideint_callback = End.calls Handler.ideint_callback
  end_with Handler.keyboard_callback = End.calls Handler.keyboard_callback
  end_with Handler.syscall = End.calls Handler.syscall
