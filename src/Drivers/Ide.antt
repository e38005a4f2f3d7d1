-- ===== src/Drivers/Ide.antt =====
-- drivers/ide.c: the queue of buffers that wait for the disk, the command that starts a transfer,
-- the interrupt that ends one, and iderw, which waits for it. The buffers are those of
-- include/buf.h, at their addresses; the flags B_VALID and B_DIRTY are two Booleans.
pub mod Commands
pub mod Transfer
pub mod Registers
use lxos.Base.{
  ℕ, zero, suc, ◌+◌, ◌*◌, ◌/◌, ◌%◌, ◌^◌, Bool, true, false, not, ◌&&◌, ◌||◌, Option, none, some,
  List, [], ◌∷◌, ltb, leb, ◌==◌, if◌then◌else◌,
}
use Prim.Native.Nat.{bit_and}
use Prim.Native.String.{String}
use lxos.Drivers.Device.{Data, Device, Command, poll, issue}
use lxos.Libc.Memory.{Ptr}

pub record Buf : Type 0 where
  pub valid : Bool
  pub dirty : Bool
  pub dev : ℕ
  pub blockno : ℕ
  pub refcnt : ℕ
  pub prev : Ptr
  pub next : Ptr
  pub qnext : Ptr
  pub content : Data

abbrev pub fssize : ℕ
fssize = 1000

-- `b->field = ...` for a buffer in the store
unfoldable pub update : (Ptr → Buf) → Ptr → Buf → Ptr → Buf
update buf b v q = if q == b then v else buf q

pub record Machine (D : Device) : Type 0 where
  pub buf : Ptr → Buf
  pub idequeue : Ptr
  pub havedisk1 : Bool
  pub device : D.State
  pub log : List String

-- the registers for one sector; 0xe0, the drive's bit and the top of the number do not overlap
unfoldable pub command : Buf → Command
command b = record {
  count = 1;
  lba_low = b.blockno % 256;
  lba_mid = b.blockno / 256 % 256;
  lba_high = b.blockno / 65536 % 256;
  drive = 0xe0 + b.dev % 2 * 16 + b.blockno / 16777216 % 16;
  code = if b.dirty then 0x30 else 0x20;
}

module _ {D : Device} where
  abbrev pub set_buf : Ptr → Buf → Machine D → Machine D
  set_buf b v s = record s { buf = update s.buf b v }

  -- `true` for the result 0, `false` for -1
  unfoldable pub idewait : ℕ → Bool → Machine D → Option (Bool × Machine D)
  idewait fuel checkerr s = elim (poll D fuel s.device) [
    | none ↦ none
    | some (r, st) ↦ some (not (checkerr && not (bit_and r 0x21 == 0)), record s { device = st })
  ]

  -- `if(test) kprint(text)`
  unfoldable pub warn : Bool → String → Machine D → Machine D
  warn test text s = record s { log = if test then text ∷ s.log else s.log }

  unfoldable pub idestart_warnings : Ptr → Machine D → Machine D
  idestart_warnings b s =
      warn (leb fssize (s.buf b).blockno) "incorrect blockno" (warn (b == 0) "idestart" s)

  unfoldable pub idestart : ℕ → Ptr → Machine D → Option (Machine D)
  idestart fuel b s = elim (idewait fuel false (idestart_warnings b s)) [
    | none ↦ none
    | some (_, s2) ↦
        let c = command (s.buf b) in
        let st = issue D c s2.device in
        some (record s2 {
          device = if (s.buf b).dirty then D.outsl 0x1f0 (s.buf b).content st else st;
        })
  ]

  -- the read of ideint_callback, if the buffer wants one and the disk reports no error
  unfoldable pub transfer_in : ℕ → Ptr → Machine D → Option (Machine D)
  transfer_in fuel b s = if (s.buf b).dirty then some s else elim (idewait fuel true s) [
    | none ↦ none
    | some (false, s1) ↦ some s1
    | some (true, s1) ↦
        let (x, st) = D.insl 0x1f0 s1.device in
        some (record s1 { device = st; buf = update s1.buf b (record (s1.buf b) { content = x }) })
  ]

  unfoldable pub ideint_callback : ℕ → Machine D → Option (Machine D)
  ideint_callback fuel s =
      let b = s.idequeue in
      if b == 0
      then some s
      else elim (transfer_in fuel b (record s { idequeue = (s.buf b).qnext })) [
        | none ↦ none
        | some s1 ↦
            let s2 = set_buf b (record (s1.buf b) { valid = true; dirty = false }) s1 in
            if s2.idequeue == 0 then some s2 else idestart fuel s2.idequeue s2
      ]

  -- the walk of iderw to the end of the queue, from a buffer that is in it
  unfoldable pub enqueue_behind : ℕ → (q b : Ptr) → Machine D → Option (Machine D)
  enqueue_behind zero q b s = none
  enqueue_behind (suc fuel) q b s =
      let rest = enqueue_behind fuel (s.buf q).qnext b s in
      if (s.buf q).qnext == 0 then some (set_buf q (record (s.buf q) { qnext = b }) s) else rest

  unfoldable pub enqueue : ℕ → Ptr → Machine D → Option (Machine D)
  enqueue fuel b s =
      if s.idequeue == 0
      then some (record s { idequeue = b })
      else enqueue_behind fuel s.idequeue b s

  -- The loop that waits for the buffer: its body is empty, and between two tests of the flags the
  -- interrupt of the transfer in progress comes in, at most `rounds` times.
  unfoldable pub wait_buf : (rounds fuel : ℕ) → Ptr → Machine D → Option (Machine D)
  wait_buf zero fuel b s = none
  wait_buf (suc rounds) fuel b s =
      let rest : Option (Machine D) = elim (ideint_callback fuel s) [
        | none ↦ none
        | some s1 ↦ wait_buf rounds fuel b s1
      ] in
      if (s.buf b).valid && not (s.buf b).dirty then some s else rest

  unfoldable pub iderw_warnings : Ptr → Machine D → Machine D
  iderw_warnings b s =
      warn (not ((s.buf b).dev == 0) && not s.havedisk1) "iderw: ide disk 1 not present"
        (warn ((s.buf b).valid && not (s.buf b).dirty) "iderw: nothing to do" s)

  unfoldable pub iderw : ℕ → Ptr → Machine D → Option (Machine D)
  iderw fuel b s =
      let s0 = iderw_warnings b s in
      elim (enqueue fuel b (set_buf b (record (s0.buf b) { qnext = 0 }) s0)) [
        | none ↦ none
        | some s1 ↦ elim (if s1.idequeue == b then idestart fuel b s1 else some s1) [
          | none ↦ none
          | some s2 ↦ wait_buf fuel fuel b s2
        ]
      ]
