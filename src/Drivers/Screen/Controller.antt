-- ===== src/Drivers/Screen/Controller.antt =====
-- The display controller, which drivers/screen.c drives and does not implement: a parameter of the
-- model. Its register 14 holds the high byte of the cursor's cell, and register 15 the low one.
use lxos.Base.{ℕ, ◌+◌, ◌*◌, ◌≡◌, ◌<◌}

pub record Crt : Type 1 where
  pub State : Type 0
  pub inb : ℕ → State → ℕ × State
  pub outb : ℕ → ℕ → State → State
  pub cursor : State → ℕ

module _ (D : Crt) where
  open D use {State, inb, outb, cursor}

  -- the state behind the reads of the two registers, and the bytes read
  abbrev pub read_high : State → ℕ × State
  read_high st = inb 0x3d5 (outb 0x3d4 14 st)

  abbrev pub read_low : State → ℕ × State
  read_low st = inb 0x3d5 (outb 0x3d4 15 (read_high st).1)

  pub record IsCrt : Type 0 where
    pub read : (st : State) → (read_high st).0 * 256 + (read_low st).0 ≡ cursor st
    pub kept : (st : State) → cursor (read_low st).1 ≡ cursor st
    pub written :
        (st : State) (hi lo : ℕ)
        → hi < 256
        → lo < 256
        → cursor (outb 0x3d5 lo (outb 0x3d4 15 (outb 0x3d5 hi (outb 0x3d4 14 st)))) ≡ hi * 256 + lo
