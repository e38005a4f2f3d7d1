-- ===== src/Tests/Startup.antt =====
-- A disk for the boot loader, and the read of a range that begins and ends inside a sector.
use lxos.Base.{ℕ, zero, suc, ◌+◌, ◌-◌, ◌*◌, ◌/◌, ◌%◌, ◌≡◌, ◌<◌, refl, sym, ap, arith, some}
use lxos.Drivers.Device.{Device, poll}
use lxos.Boot.{BootState, IsBootDisk, read_command, readseg}
use lxos.Boot.Reading.{readseg-delivered}
use lxos.Tests.Disk.{DiskState, out, no_command}

abbrev chosen : DiskState → ℕ
chosen st =
    st.regs.lba_low
    + 256 * st.regs.lba_mid
    + 65536 * st.regs.lba_high
    + 16777216 * (st.regs.drive - 0xE0)

abbrev first_disk : Device
first_disk = record {
  State = DiskState;
  inb = λ port st. (0x40, st);
  outb = out;
  outsl = λ port x st. st;
  insl = λ port st. (st.medium 0 (chosen st), st);
  sector = λ st. st.medium;
}

polled : (fuel r : ℕ) (st st' : DiskState) → poll first_disk fuel st ≡ some (r, st') → st ≡ st'
unfolding poll
polled zero r st st' e = absurd (cc)
polled (suc fuel) r st st' e = cc

chosen-read_command :
    (offset : ℕ) (st : DiskState)
    → offset < 268435456
    → chosen (read_command first_disk offset st) ≡ offset
unfolding read_command
chosen-read_command offset st h = omega (arith, h)

first_disk-IsBootDisk : IsBootDisk first_disk
unfolding poll read_command
first_disk-IsBootDisk = record {
  patience = 1;
  ready = λ st. (0x40, st, refl, λ d l. refl);
  read = λ st st' offset r small run.
      let e : st' ≡ read_command first_disk offset st = sym (polled 1 r _ st' run) in
      rw e (ap (st.medium 0) (chosen-read_command offset st small), λ d l. refl);
}

abbrev powered_on : BootState first_disk
powered_on = record {
  mem = λ a. 0;
  device = record { regs = no_command; medium = λ d l i. (l + i) % 256 };
}

readseg-delivered_example :
    (s' : BootState first_disk) × (readseg first_disk first_disk-IsBootDisk.patience 65536 700 100
        powered_on
      ≡ some s')
    × ((d l : ℕ) → s'.device.medium d l ≡ powered_on.device.medium d l)
    × ((i : ℕ)
        → i < 700
        → s'.mem (65536 + i) ≡ powered_on.device.medium 0 ((100 + i) / 512 + 1) ((100 + i) % 512))
    × ((a : ℕ) → a + 100 % 512 < 65536 → s'.mem a ≡ 0)
readseg-delivered_example =
    readseg-delivered first_disk first_disk-IsBootDisk 65536 700 100 powered_on (omega arith)
      (omega arith)
