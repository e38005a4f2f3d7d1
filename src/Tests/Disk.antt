-- ===== src/Tests/Disk.antt =====
-- A disk that works: a device that meets the laws, and the transfer theorems on it.
use lxos.Base.{
  ℕ, zero, suc, ◌%◌, ◌≡◌, refl, sym, ◌∙◌, arith, ◌==◌, ◌&&◌, if◌then◌else◌, true, false, some, [],
}
use lxos.Drivers.Device.{Device, IsDisk, Data, Command, command_drive, command_lba, poll, issue}
use lxos.Drivers.Ide.{Buf, Machine, iderw}
use lxos.Drivers.Ide.Transfer.{Transferred, iderw-Transferred}

-- the registers of the command, and the medium
pub record DiskState : Type 0 where
  pub regs : Command
  pub medium : (drive lba : ℕ) → Data

abbrev pub out : ℕ → ℕ → DiskState → DiskState
out port v st =
    let c = st.regs in
    record st {
      regs = record {
        count = if port == 0x1f2 then v else c.count;
        lba_low = if port == 0x1f3 then v else c.lba_low;
        lba_mid = if port == 0x1f4 then v else c.lba_mid;
        lba_high = if port == 0x1f5 then v else c.lba_high;
        drive = if port == 0x1f6 then v else c.drive;
        code = if port == 0x1f7 then v else c.code;
      };
    }

abbrev pub disk : Device
disk = record {
  State = DiskState;
  inb = λ port st. (0x40, st);
  outb = out;
  outsl = λ port x st. record st {
    medium =
        λ d l. if d == command_drive st.regs && l == command_lba st.regs then x else st.medium d l;
  };
  insl = λ port st. (st.medium (command_drive st.regs) (command_lba st.regs), st);
  sector = λ st. st.medium;
}

pub issued :
    (st : DiskState) (c : Command) → issue disk c st ≡ record { regs = c; medium = st.medium }
unfolding issue
issued st c = refl

pub polled : (fuel r : ℕ) (st st' : DiskState) → poll disk fuel st ≡ some (r, st') → st ≡ st'
unfolding poll
polled zero r st st' e = absurd (cc)
polled (suc fuel) r st st' e = cc

unfoldable pub disk-IsDisk : IsDisk disk
unfolding poll
disk-IsDisk = record {
  patience = 1;
  ready = λ st. (0x40, st, refl, refl, λ d l. refl);
  write = λ st c x d l ec ek. rw issued refl;
  read = λ st st' c r fuel ec ek run.
      let e : st' ≡ record { regs = c; medium = st.medium } =
        sym (polled fuel r _ st' run) ∙ issued st c in
      rw e (refl, λ d l. refl);
}

abbrev pub no_command : Command
no_command = record { count = 0; lba_low = 0; lba_mid = 0; lba_high = 0; drive = 0; code = 0 }

abbrev pub zeroed : Buf
zeroed = record {
  valid = false;
  dirty = false;
  dev = 0;
  blockno = 0;
  refcnt = 0;
  prev = 0;
  next = 0;
  qnext = 0;
  content = λ o. 0;
}

-- a machine after a reset, with a disk whose block `l` is filled with `l % 256`
abbrev pub reset : Machine disk
reset = record {
  buf = λ p. zeroed;
  idequeue = 0;
  havedisk1 = true;
  device = record { regs = no_command; medium = λ d l o. l % 256 };
  log = [];
}

abbrev one_dirty : Machine disk
one_dirty = record reset {
  buf = λ p. record zeroed { dirty = true; dev = 1; blockno = 70; content = λ o. 9 };
}

iderw-Transferred_example :
    (s' : Machine disk) × (iderw 2 5 one_dirty ≡ some s') × Transferred 5 one_dirty s'
unfolding disk-IsDisk
iderw-Transferred_example =
    iderw-Transferred disk-IsDisk 2 (omega arith) 5 one_dirty (omega arith) (omega arith)
      (omega arith) refl refl
