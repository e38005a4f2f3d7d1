-- ===== src/Boot.antt =====
-- The boot loader, boot/start.c: the kernel's file begins at sector 1 of the disk. The disk controller is
-- that of Drivers/Device; only the commands are other ones. Pointers do not wrap around: the ranges end below
-- 2 ^ 32 and begin above the bytes that come before them in their sector.
pub mod Reading
use lxos.Base.{
  ℕ, zero, suc, ◌+◌, ◌-◌, ◌*◌, ◌/◌, ◌%◌, ◌≡◌, ◌<◌, Bool, true, false, ◌&&◌, Option, none, some, ltb,
  leb, ◌==◌, if◌then◌else◌,
}
use lxos.Libc.Memory.{Ptr, Memory, get32, stosb}
use lxos.Drivers.Device.{Data, Device, poll}
use lxos.Fs.Inodes.{get16}
use lxos.Kernel.Loader.{elf_magic, proghdr_size}

abbrev pub sectsize : ℕ
sectsize = 512

-- `elf`
abbrev pub elf_at : Ptr
elf_at = 0x10000

-- the store of insl
unfoldable pub put_sector : Ptr → Data → Memory → Memory
put_sector dst x m a = if leb dst a && ltb a (dst + sectsize) then x (a - dst) else m a

module _ (D : Device) where
  open D use {State, outb, insl, sector}

  -- the writes of readsect between its two waits; 0xE0 and the top of the number, which is a sector's and
  -- thus below 2 ^ 24, do not overlap
  unfoldable pub read_command : (offset : ℕ) → State → State
  read_command offset st = outb 0x1F7 0x20 (
      outb 0x1F6 (0xE0 + offset / 16777216 % 16) (
        outb 0x1F5 (offset / 65536 % 256)
          (outb 0x1F4 (offset / 256 % 256) (outb 0x1F3 (offset % 256) (outb 0x1F2 1 st)))))

  pub record BootState : Type 0 where
    pub mem : Memory
    pub device : State

  -- waitdisk is `poll`
  unfoldable pub readsect : (fuel : ℕ) → (dst : Ptr) → (offset : ℕ) → BootState → Option BootState
  readsect fuel dst offset s = elim (poll D fuel s.device) [
    | none ↦ none
    | some (_, st1) ↦ elim (poll D fuel (read_command offset st1)) [
      | none ↦ none
      | some (_, st2) ↦
          let (x, st3) = insl 0x1F0 st2 in
          some (record { mem = put_sector dst x s.mem; device = st3 })
    ]
  ]

  unfoldable pub readseg_loop :
      ℕ → (fuel : ℕ) → (pa epa : Ptr) → (offset : ℕ) → BootState → Option BootState
  readseg_loop zero fuel pa epa offset s = none
  readseg_loop (suc rounds) fuel pa epa offset s = elim (ltb pa epa) [
    | false ↦ some s
    | true ↦ elim (readsect fuel pa offset s) [
      | none ↦ none
      | some s1 ↦ readseg_loop rounds fuel (pa + sectsize) epa (offset + 1) s1
    ]
  ]

  -- a round for each sector, and the test that ends the loop
  unfoldable pub readseg :
      (fuel : ℕ) → (pa : Ptr) → (count offset : ℕ) → BootState → Option BootState
  readseg fuel pa count offset s =
      readseg_loop (suc (count / sectsize + 2)) fuel (pa - offset % sectsize) (pa + count)
        (offset / sectsize + 1) s

  -- the loop over the program headers, from `ph` on
  unfoldable pub load_segments : ℕ → (fuel : ℕ) → (ph : Ptr) → BootState → Option BootState
  load_segments zero fuel ph s = some s
  load_segments (suc rounds) fuel ph s =
      let pa = get32 s.mem (ph + 12) in
      elim (readseg fuel pa (get32 s.mem (ph + 16)) (get32 s.mem (ph + 4)) s) [
        | none ↦ none
        | some s1 ↦
            let filesz = get32 s1.mem (ph + 16) in
            let memsz = get32 s1.mem (ph + 20) in
            let m =
              if ltb filesz memsz then stosb (memsz - filesz) (pa + filesz) 0 s1.mem else s1.mem in
            load_segments rounds fuel (ph + proghdr_size) (record s1 { mem = m })
      ]

  -- the entry point that is called at the end, if the file is one in ELF format
  unfoldable pub bootmain : (fuel : ℕ) → BootState → Option (Option Ptr × BootState)
  bootmain fuel s = elim (readseg fuel elf_at 4096 0 s) [
    | none ↦ none
    | some s1 ↦ elim (get32 s1.mem elf_at == elf_magic) [
      | false ↦ some (none, s1)
      | true ↦
          let phoff = get32 s1.mem (elf_at + 28) in
          elim (load_segments (get16 s1.mem (elf_at + 44)) fuel (elf_at + phoff) s1) [
            | none ↦ none
            | some s2 ↦ some (some (get32 s2.mem (elf_at + 24)), s2)
          ]
    ]
  ]

  -- The disk that the firmware has started from: each state becomes ready, and a command of readsect
  -- delivers its sector of drive 0.
  pub record IsBootDisk : Type 0 where
    pub patience : ℕ
    pub ready :
        (st : State)
        → (r : ℕ) × (st' : State) × (poll D patience st ≡ some (r, st'))
          × ((d l : ℕ) → sector st' d l ≡ sector st d l)
    pub read :
        (st st' : State) (offset r : ℕ)
        → offset < 268435456
        → poll D patience (read_command offset st) ≡ some (r, st')
        → ((insl 0x1F0 st').0 ≡ sector st 0 offset)
          × ((d l : ℕ) → sector (insl 0x1F0 st').1 d l ≡ sector st d l)
