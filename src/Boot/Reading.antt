-- ===== src/Boot/Reading.antt =====
-- readseg of boot/start.c.
use lxos.Base.{
  ℕ, zero, suc, ◌+◌, ◌-◌, ◌*◌, ◌/◌, ◌%◌, ◌≡◌, ◌<◌, ◌≤◌, refl, ◌∙◌, ap, true, false, some, ltb,
  arith, Bool-cases, inl, inr,
}
use lxos.Libc.Memory.{Ptr}
use lxos.Drivers.Device.{Data, Device, poll}
use lxos.Boot.{BootState, IsBootDisk, put_sector, read_command, readsect, readseg_loop, readseg}

put_sector-in :
    (dst : Ptr) (x : Data) (m : ℕ → ℕ) (a : Ptr)
    → dst ≤ a
    → a < dst + 512
    → put_sector dst x m a ≡ x (a - dst)
unfolding put_sector
put_sector-in dst x m a h1 h2 = ground arith

put_sector-below :
    (dst : Ptr) (x : Data) (m : ℕ → ℕ) (a : Ptr) → a < dst → put_sector dst x m a ≡ m a
unfolding put_sector
put_sector-below dst x m a h = ground arith

module _ (D : Device) (disk : IsBootDisk D) where
  -- The sectors from `offset` on are in the memory from `pa` to `epa`; the memory below is as before.
  record Filled (pa epa offset : ℕ) (s s' : BootState D) : Type 0 where
    sectors : (d l : ℕ) → D.sector s'.device d l ≡ D.sector s.device d l
    filled :
        (a : Ptr)
        → pa ≤ a
        → a < epa
        → s'.mem a ≡ D.sector s.device 0 (offset + (a - pa) / 512) ((a - pa) % 512)
    below : (a : Ptr) → a < pa → s'.mem a ≡ s.mem a

  readsect-run :
      (dst offset : ℕ) (s : BootState D) (r r' : ℕ) (st1 st2 : D.State)
      → poll D disk.patience s.device ≡ some (r, st1)
      → poll D disk.patience (read_command D offset st1) ≡ some (r', st2)
      → readsect D disk.patience dst offset s
        ≡ some (record {
          mem = put_sector dst (D.insl 0x1F0 st2).0 s.mem;
          device = (D.insl 0x1F0 st2).1;
        })
  unfolding readsect
  readsect-run dst offset s r r' st1 st2 e1 e2 = rw (readsect, e1, e2) refl

  readsect-Filled :
      (dst offset : ℕ) (s : BootState D)
      → offset < 268435456
      → (s' : BootState D) × (readsect D disk.patience dst offset s ≡ some s')
        × Filled dst (dst + 512) offset s s'
  readsect-Filled dst offset s h =
      let (r, st1, e1, same1) = disk.ready s.device in
      let (r', st2, e2, same2) = disk.ready (read_command D offset st1) in
      let (content, same) = disk.read st1 st2 offset r' h e2 in
      (
        _,
        readsect-run dst offset s r r' st1 st2 e1 e2,
        record {
          sectors = λ d l. same d l ∙ same1 d l;
          filled = λ a low high.
              let sector_at : a - dst ≡ (a - dst) % 512 = omega (arith, low, high) in
              let offset_at : offset ≡ offset + (a - dst) / 512 = omega (arith, low, high) in
              put_sector-in dst (D.insl 0x1F0 st2).0 s.mem a low high
              ∙ ap (λ x. x (a - dst)) (content ∙ same1 0 offset)
              ∙ ap (D.sector s.device 0 offset) sector_at
              ∙ ap (λ n. D.sector s.device 0 n ((a - dst) % 512)) offset_at;
          below = λ a low. put_sector-below dst (D.insl 0x1F0 st2).0 s.mem a low;
        },
      )

  -- a sector and what follows it
  Filled-step :
      (pa epa offset : ℕ) (s s1 s2 : BootState D)
      → Filled pa (pa + 512) offset s s1
      → Filled (pa + 512) epa (offset + 1) s1 s2
      → Filled pa epa offset s s2
  Filled-step pa epa offset s s1 s2 one rest = record {
    sectors = λ d l. rest.sectors d l ∙ one.sectors d l;
    filled = λ a low high. elim (Bool-cases (ltb a (pa + 512))) [
      | inl near ↦ rest.below a (ground (arith, near)) ∙ one.filled a low (ground (arith, near))
      | inr far ↦
          let high1 : pa + 512 ≤ a = ground (arith, far) in
          let sector_at : (a - (pa + 512)) % 512 ≡ (a - pa) % 512 = omega (arith, high1) in
          let offset_at : offset + 1 + (a - (pa + 512)) / 512 ≡ offset + (a - pa) / 512 =
            omega (arith, high1) in
          rest.filled a high1 high
          ∙ ap (λ x. x ((a - (pa + 512)) % 512))
              (one.sectors 0 (offset + 1 + (a - (pa + 512)) / 512))
          ∙ ap (λ n. D.sector s.device 0 n ((a - (pa + 512)) % 512)) offset_at
          ∙ ap (D.sector s.device 0 (offset + (a - pa) / 512)) sector_at
    ];
    below = λ a low. rest.below a (omega (arith, low)) ∙ one.below a low;
  }

  run_step :
      (k pa epa offset : ℕ) (s s1 s2 : BootState D)
      → ltb pa epa ≡ true
      → readsect D disk.patience pa offset s ≡ some s1
      → readseg_loop D (suc k) disk.patience (pa + 512) epa (offset + 1) s1 ≡ some s2
      → readseg_loop D (suc (suc k)) disk.patience pa epa offset s ≡ some s2
  unfolding readseg_loop
  run_step k pa epa offset s s1 s2 more run1 run2 = rw (readseg_loop, more, run1) run2

  readseg_loop-Filled :
      (k pa epa offset : ℕ) (s : BootState D)
      → epa ≤ pa + 512 * k
      → offset + k < 268435456
      → (s' : BootState D) × (readseg_loop D (suc k) disk.patience pa epa offset s ≡ some s')
        × Filled pa epa offset s s'
  unfolding readseg_loop
  readseg_loop-Filled zero pa epa offset s enough small =
      let stop : ltb pa epa ≡ false = ground (arith, enough) in
      (
        s,
        rw (readseg_loop, stop) refl,
        record {
          sectors = λ d l. refl;
          filled = λ a low high. absurd (omega (arith, enough, low, high));
          below = λ a low. refl;
        },
      )
  readseg_loop-Filled (suc k) pa epa offset s enough small = elim (Bool-cases (ltb pa epa)) [
    | inr stop ↦
        let stop' : epa ≤ pa = ground (arith, stop) in
        (
          s,
          rw (readseg_loop, stop) refl,
          record {
            sectors = λ d l. refl;
            filled = λ a low high. absurd (omega (arith, stop', low, high));
            below = λ a low. refl;
          },
        )
    | inl more ↦
        let (s1, run1, one) = readsect-Filled pa offset s (omega (arith, small)) in
        let (s2, run2, rest) =
          readseg_loop-Filled k (pa + 512) epa (offset + 1) s1 (omega (arith, enough))
            (omega (arith, small)) in
        (
          s2,
          run_step k pa epa offset s s1 s2 more run1 run2,
          Filled-step pa epa offset s s1 s2 one rest,
        )
  ]

  -- readseg ends, and the bytes of the kernel's file from `offset` on are then in the memory from `pa` on; the
  -- file begins at sector 1. The range ends below 4 GB in the file, and its start is so far up in the
  -- memory that the bytes before it in its first sector fit.
  pub readseg-delivered :
      (pa count offset : ℕ) (s : BootState D)
      → offset % 512 ≤ pa
      → offset + count < 4294967296
      → (s' : BootState D) × (readseg D disk.patience pa count offset s ≡ some s')
        × ((d l : ℕ) → D.sector s'.device d l ≡ D.sector s.device d l)
        × ((i : ℕ)
            → i < count
            → s'.mem (pa + i) ≡ D.sector s.device 0 ((offset + i) / 512 + 1) ((offset + i) % 512))
        × ((a : Ptr) → a + offset % 512 < pa → s'.mem a ≡ s.mem a)
  unfolding readseg
  readseg-delivered pa count offset s room small =
      let start = pa - offset % 512 in
      let (s', run, done) =
        readseg_loop-Filled (count / 512 + 2) start (pa + count) (offset / 512 + 1) s
          (omega (arith, room)) (omega (arith, small)) in
      (
        s',
        run,
        done.sectors,
        λ i lt.
            let sector_at : (pa + i - start) % 512 ≡ (offset + i) % 512 = omega (arith, room) in
            let offset_at : offset / 512 + 1 + (pa + i - start) / 512 ≡ (offset + i) / 512 + 1 =
              omega (arith, room) in
            done.filled (pa + i) (omega (arith, room)) (omega (arith, lt))
            ∙ ap (λ n. D.sector s.device 0 n ((pa + i - start) % 512)) offset_at
            ∙ ap (D.sector s.device 0 ((offset + i) / 512 + 1)) sector_at,
        λ a low. done.below a (omega (arith, low)),
      )
