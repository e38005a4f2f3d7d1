-- ===== src/Drivers/Ide/Commands.antt =====
-- The command that idestart issues, and the disk that is ready for it: drivers/ide.c.
use lxos.Base.{
  ℕ, zero, suc, ◌≤◌, ◌≡◌, ◌≢◌, refl, Bool, true, false, not, Option, some, arith, ◌==◌, ◌&&◌,
  fun_ext, if◌then◌else◌, Bool-cases, inl, inr,
}
use Prim.Native.Nat.{bit_and}
use Prim.Native.String.{String}
use mathlib.Core.List.{List}
use lxos.Libc.Memory.{Ptr}
use lxos.Drivers.Device.{Device, IsDisk, poll, issue}
use lxos.Drivers.Ide.{
  Buf, Machine, update, command, warn, idewait, idestart, idestart_warnings, transfer_in,
  ideint_callback,
}

pub update_self : (f : Ptr → Buf) (b : Ptr) (v : Buf) → update f b v b ≡ v
unfolding update
update_self f b v = ground arith

pub update-update : (f : Ptr → Buf) (b : Ptr) (v w : Buf) → update (update f b v) b w ≡ update f b w
unfolding update
update-update f b v w = fun_ext λ q. ground arith

poll_mono :
    (D : Device) (f g : ℕ) (st : D.State) {x : ℕ × D.State}
    → poll D f st ≡ some x
    → f ≤ g
    → poll D g st ≡ some x
unfolding poll
poll_mono D zero g st h le = absurd (cc)
poll_mono D (suc f) zero st h le = absurd (omega arith)
poll_mono D (suc f) (suc g) st h le = elim (Bool-cases (bit_and (D.inb 0x1f7 st).0 0xc0 == 0x40)) [
  | inl done ↦ rw done (rw done at h)
  | inr more ↦ rw more (poll_mono D f g (D.inb 0x1f7 st).1 (rw more at h) (omega arith))
]

module _ {D : Device} (K : IsDisk D) (fuel : ℕ) (big : K.patience ≤ fuel) where
  -- the device becomes ready, and its sectors are the same
  idewait_lem :
      (check : Bool) (s : Machine D)
      → (r : ℕ) × (st : D.State) × (poll D fuel s.device ≡ some (r, st))
        × (idewait fuel check s ≡ some (true, record s { device = st }))
        × ((d l : ℕ) → D.sector st d l ≡ D.sector s.device d l)
  unfolding idewait
  idewait_lem check s =
      let (r, st, run, good, same) = K.ready s.device in
      let polled : poll D fuel s.device ≡ some (r, st) =
        poll_mono D K.patience fuel s.device run big in
      (r, st, polled, rw (polled, idewait) (rw good (settled check st)), same)
    where
      settled :
          (check : Bool) (st : D.State)
          → ◌≡◌ {A = Option (Bool × Machine D)}
              (some (not (check && not (0 == 0)), record s { device = st }))
              (some (true, record s { device = st }))
      settled true st = refl
      settled false st = refl

  -- the device after idestart, from one that is ready
  abbrev pub started : Ptr → Machine D → D.State → D.State
  started b s st =
      if (s.buf b).dirty
      then D.outsl 0x1f0 (s.buf b).content (issue D (command (s.buf b)) st)
      else issue D (command (s.buf b)) st

  pub idestart_lem :
      (b : Ptr) (s : Machine D)
      → (st : D.State) × (log' : List String) × (idestart fuel b s
          ≡ some (record s { device = started b s st; log = log' }))
        × ((d l : ℕ) → D.sector st d l ≡ D.sector s.device d l)
  unfolding idestart idestart_warnings warn
  idestart_lem b s =
      let (r, st, polled, run, same) = idewait_lem false (idestart_warnings b s) in
      (st, (idestart_warnings b s).log, rw (run, idestart), same)

  module _ (b : Ptr) (s : Machine D) (ne : b ≢ 0) (last : (s.buf b).qnext ≡ 0) where
    here : (b == 0) ≡ false
    here = ground arith

    -- The interrupt that ends a write of the only buffer in the queue.
    pub callback_write :
        (s.buf b).dirty ≡ true
        → ideint_callback fuel (record s { idequeue = b })
          ≡ some (record s {
            idequeue = 0;
            buf = update s.buf b (record (s.buf b) { valid = true; dirty = false; qnext = 0 });
          })
    unfolding ideint_callback transfer_in
    callback_write dirty = rw (here, dirty, last)

    -- The interrupt that ends a read of the only buffer in the queue.
    pub callback_read :
        (s.buf b).dirty ≡ false
        → (r : ℕ) × (st : D.State) × (poll D fuel s.device ≡ some (r, st))
          × (ideint_callback fuel (record s { idequeue = b })
              ≡ some (record s {
                idequeue = 0;
                device = (D.insl 0x1f0 st).1;
                buf = update s.buf b (record (s.buf b) {
                  content = (D.insl 0x1f0 st).0;
                  valid = true;
                  dirty = false;
                  qnext = 0;
                });
              }))
    unfolding ideint_callback transfer_in
    callback_read clean =
        let (r, st, polled, run, same) =
          idewait_lem true (record s { idequeue = (s.buf b).qnext }) in
        (r, st, polled, rw (here, clean, run, update_self, last, update-update) refl)
