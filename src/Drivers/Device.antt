-- ===== src/Drivers/Device.antt =====
-- The disk controller, which the program drives and does not implement: a parameter of the model.
-- A state of the device answers port reads and takes port writes; `sector` is what its medium holds.
-- The laws are those of a drive that works: it becomes ready after `patience` polls at most, a
-- write command stores the words that follow it, and a read command delivers the sector.
use lxos.Base.{ℕ, zero, suc, ◌+◌, ◌*◌, ◌≡◌, Bool, Option, none, some, ◌==◌, if◌then◌else◌, ◌&&◌}
use Prim.Native.Nat.{bit_and}

-- the 512 bytes of a block, by their offsets
abbrev pub Data : Type 0
Data = ℕ → ℕ

pub record Device : Type 1 where
  pub State : Type 0
  pub inb : ℕ → State → ℕ × State
  pub outb : ℕ → ℕ → State → State
  pub outsl : ℕ → Data → State → State
  pub insl : ℕ → State → Data × State
  pub sector : State → (drive lba : ℕ) → Data

-- one command of idestart: the registers, and the command byte
pub record Command : Type 0 where
  pub count : ℕ
  pub lba_low : ℕ
  pub lba_mid : ℕ
  pub lba_high : ℕ
  pub drive : ℕ
  pub code : ℕ

-- the drive and the sector number that the registers name
unfoldable pub command_drive : Command → ℕ
command_drive c = elim (bit_and c.drive 16 == 0) [ Bool.true ↦ 0 | Bool.false ↦ 1 ]

unfoldable pub command_lba : Command → ℕ
command_lba c = c.lba_low + 256 * c.lba_mid + 65536 * c.lba_high + 16777216 * bit_and c.drive 15

module _ (D : Device) where
  open D use {State, inb, outb, outsl, insl, sector}

  -- the loop of idewait: the status that ends it
  unfoldable pub poll : ℕ → State → Option (ℕ × State)
  poll zero st = none
  poll (suc fuel) st =
      let (r, st') = inb 0x1f7 st in
      let rest = poll fuel st' in if bit_and r 0xc0 == 0x40 then some (r, st') else rest

  unfoldable pub issue : Command → State → State
  issue c st = outb 0x1f7 c.code (
      outb 0x1f6 c.drive (
        outb 0x1f5 c.lba_high
          (outb 0x1f4 c.lba_mid (outb 0x1f3 c.lba_low (outb 0x1f2 c.count (outb 0x3f6 0 st))))))

  pub record IsDisk : Type 0 where
    pub patience : ℕ
    -- the status of a drive that is ready has neither the fault bit nor the error bit
    pub ready :
        (st : State)
        → (r : ℕ) × (st' : State) × (poll patience st ≡ some (r, st'))
          × (bit_and r 0x21 ≡ 0)
          × ((d l : ℕ) → sector st' d l ≡ sector st d l)
    pub write :
        (st : State) (c : Command) (x : Data) (d l : ℕ)
        → c.count ≡ 1
        → c.code ≡ 0x30
        → sector (outsl 0x1f0 x (issue c st)) d l
          ≡ (if d == command_drive c && l == command_lba c then x else sector st d l)
    -- between the command and the data the driver polls the status
    pub read :
        (st st' : State) (c : Command) (r fuel : ℕ)
        → c.count ≡ 1
        → c.code ≡ 0x20
        → poll fuel (issue c st) ≡ some (r, st')
        → ((insl 0x1f0 st').0 ≡ sector st (command_drive c) (command_lba c))
          × ((d l : ℕ) → sector (insl 0x1f0 st').1 d l ≡ sector st d l)
