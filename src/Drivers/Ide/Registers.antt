-- ===== src/Drivers/Ide/Registers.antt =====
-- The registers that idestart of drivers/ide.c loads.
use lxos.Base.{◌+◌, ◌*◌, ◌/◌, ◌%◌, ◌^◌, ◌<◌, ◌≡◌, arith}
use lxos.Base.Tables.{bit_and_15, bit_and_16}
use lxos.Drivers.Device.{command_drive, command_lba}
use lxos.Drivers.Ide.{Buf, command}

-- For a sector number of 28 bits the registers spell the buffer's block number and the low bit of
-- its device number.
pub command_lem :
    (b : Buf)
    → b.blockno < 2 ^ 28
    → (command_lba (command b) ≡ b.blockno) × (command_drive (command b) ≡ b.dev % 2)
unfolding command command_lba command_drive
command_lem b h =
    let x = 0xe0 + b.dev % 2 * 16 + b.blockno / 16777216 % 16 in
    let small : x < 256 = omega arith in
    (omega (arith, bit_and_15 x small), ground (arith, bit_and_16 x small))
