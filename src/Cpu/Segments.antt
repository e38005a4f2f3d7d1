-- ===== src/Cpu/Segments.antt =====
-- Segment descriptors of include/mmu.h, and seginit and switchuvm of kernel/vm.c, which fill them in.
-- The fields of a descriptor are numbers of their widths.
use lxos.Base.{
  ℕ, ◌+◌, ◌-◌, ◌*◌, ◌/◌, ◌%◌, ◌^◌, ◌≡◌, ◌<◌, Bool, true, ◌==◌, if◌then◌else◌, arith, List, ◌∷◌,
}
use Prim.Native.String.{String}
use lxos.Libc.Memory.{Ptr}
use lxos.Kernel.Process.{Proc, kstacksize}
use lxos.Kernel.Vm.{v2p}

pub record Segdesc : Type 0 where
  pub lim_15_0 : ℕ
  pub base_15_0 : ℕ
  pub base_23_16 : ℕ
  pub stype : ℕ
  pub s : ℕ
  pub dpl : ℕ
  pub present : ℕ
  pub lim_19_16 : ℕ
  pub avl : ℕ
  pub rsv1 : ℕ
  pub db : ℕ
  pub g : ℕ
  pub base_31_24 : ℕ

-- SEG: the limit in pages of 4096 bytes; a value is cut at the width of its field
unfoldable pub seg : (stype base lim dpl : ℕ) → Segdesc
seg stype base lim dpl = record {
  lim_15_0 = lim / 4096 % 65536;
  base_15_0 = base % 65536;
  base_23_16 = base / 65536 % 65536 % 256;
  stype = stype % 16;
  s = 1;
  dpl = dpl % 4;
  present = 1;
  lim_19_16 = lim / 268435456 % 16;
  avl = 0;
  rsv1 = 0;
  db = 1;
  g = 1;
  base_31_24 = base / 16777216 % 256;
}

-- SEG16: the limit in bytes
unfoldable pub seg16 : (stype base lim dpl : ℕ) → Segdesc
seg16 stype base lim dpl = record {
  lim_15_0 = lim % 65536;
  base_15_0 = base % 65536;
  base_23_16 = base / 65536 % 65536 % 256;
  stype = stype % 16;
  s = 1;
  dpl = dpl % 4;
  present = 1;
  lim_19_16 = lim / 65536 % 16;
  avl = 0;
  rsv1 = 0;
  db = 1;
  g = 0;
  base_31_24 = base / 16777216 % 256;
}

abbrev pub dpl_user : ℕ
dpl_user = 3

-- `STA_X|STA_R` and `STA_W`
abbrev pub sta_xr : ℕ
sta_xr = 10

abbrev pub sta_w : ℕ
sta_w = 2

abbrev pub nsegs : ℕ
nsegs = 6

abbrev pub sts_t32a : ℕ
sts_t32a = 9

abbrev pub seg_kdata : ℕ
seg_kdata = 2

abbrev pub seg_tss : ℕ
seg_tss = 5

-- The processor as the kernel loads it: the descriptor table, the stack that an interrupt from user
-- mode takes, the task register, and the page directory.
pub record Loaded : Type 0 where
  pub gdt : ℕ → Segdesc
  pub gdt_limit : ℕ
  pub ss0 : ℕ
  pub esp0 : ℕ
  pub iomb : ℕ
  pub tr : ℕ
  pub cr3 : ℕ
  pub interrupts_on : Bool
  pub log : List String

abbrev pub set_segment : ℕ → Segdesc → Loaded → Loaded
set_segment n d c = record c { gdt = λ i. if i == n then d else c.gdt i }

unfoldable pub seginit : Loaded → Loaded
seginit c =
    let filled = set_segment 4 (seg sta_w 0 0xffffffff dpl_user) (
      set_segment 3 (seg sta_xr 0 0xffffffff dpl_user)
        (set_segment 2 (seg sta_w 0 0xffffffff 0) (set_segment 1 (seg sta_xr 0 0xffffffff 0) c))) in
    record filled { gdt_limit = nsegs * 8 - 1 }

abbrev pub complain : Bool → String → Loaded → Loaded
complain test text c = if test then record c { log = text ∷ c.log } else c

-- `sizeof(ts)`
abbrev pub taskstate_size : ℕ
taskstate_size = 104

-- `ts` is the address of the task state.
unfoldable pub switchuvm : (ts : Ptr) → (p : Ptr) → Proc → Loaded → Loaded
switchuvm ts p v c0 =
    let c1 = complain (v.pgdir == 0) "switchuvm: no pgdir" (
      complain (v.kstack == 0) "switchuvm: no kstack"
        (complain (p == 0) "switchuvm: no process" c0)) in
    record (set_segment seg_tss (record (seg16 sts_t32a ts (taskstate_size - 1) 0) { s = 0 }) c1) {
      ss0 = seg_kdata * 8;
      esp0 = (v.kstack + kstacksize) % 2 ^ 32;
      iomb = 0xffff;
      tr = seg_tss * 8;
      cr3 = v2p v.pgdir;
      interrupts_on = true;
    }

-- switchkvm, for the directory `kpgdir`
unfoldable pub switchkvm : (kpgdir : Ptr) → Loaded → Loaded
switchkvm kpgdir c = record c { cr3 = v2p kpgdir }

-- the base and the limit that the processor takes from a descriptor
abbrev pub base_of : Segdesc → ℕ
base_of d = d.base_15_0 + 65536 * d.base_23_16 + 16777216 * d.base_31_24

abbrev pub limit_of : Segdesc → ℕ
limit_of d =
    if d.g == 1
    then (d.lim_15_0 + 65536 * d.lim_19_16) * 4096 + 4095
    else d.lim_15_0 + 65536 * d.lim_19_16

-- A descriptor of SEG gives back the base, and the limit up to the end of its last page; one of SEG16
-- gives back the base and a limit below 2 ^ 20. Both keep the type and the privilege level, for
-- values of the widths of these fields.
seg-fields :
    (stype base lim dpl : ℕ)
    → stype < 16
    → dpl < 4
    → base < 4294967296
    → lim < 4294967296
    → (base_of (seg stype base lim dpl) ≡ base)
      × (limit_of (seg stype base lim dpl) ≡ lim / 4096 * 4096 + 4095)
      × ((seg stype base lim dpl).dpl ≡ dpl)
      × ((seg stype base lim dpl).stype ≡ stype)
      × (base_of (seg16 stype base lim dpl) ≡ base)
      × (limit_of (seg16 stype base lim dpl) ≡ lim % 1048576)
unfolding seg seg16
seg-fields stype base lim dpl h1 h2 h3 h4 = (
  omega (arith, h3),
  omega (arith, h4),
  omega (arith, h2),
  omega (arith, h1),
  omega (arith, h3),
  omega (arith, h4),
)
