-- ===== src/Drivers/Ide/Transfer.antt =====
-- What iderw leaves behind when the queue is empty, as it is between two calls.
use lxos.Base.{
  ℕ, zero, suc, ◌%◌, ◌^◌, ◌<◌, ◌≤◌, ◌≡◌, ◌≢◌, refl, true, false, not, some, arith, ◌==◌, ◌&&◌, ap,
  ◌∙◌, if◌then◌else◌, Bool-cases, inl, inr,
}
use Prim.Native.String.{String}
use mathlib.Core.List.{List}
use lxos.Libc.Memory.{Ptr}
use lxos.Drivers.Device.{Data, Device, IsDisk, poll, issue}
use lxos.Drivers.Ide.{
  Buf, Machine, update, command, warn, idestart, ideint_callback, enqueue, wait_buf, iderw,
  iderw_warnings, set_buf,
}
use lxos.Drivers.Ide.Registers.{command_lem}
use lxos.Drivers.Ide.Commands.{
  callback_write, callback_read, update_self, update-update, started, idestart_lem,
}

command_count : (v : Buf) → (command v).count ≡ 1
unfolding command
command_count v = refl

command_write : (v : Buf) → v.dirty ≡ true → (command v).code ≡ 0x30
unfolding command
command_write v h = ground arith

command_read : (v : Buf) → v.dirty ≡ false → (command v).code ≡ 0x20
unfolding command
command_read v h = ground arith

module _ {D : Device} (K : IsDisk D) (v : Buf) (st : D.State) (small : v.blockno < 2 ^ 28) where
  -- the disk behind the write command for a dirty buffer
  sector_written :
      (d l : ℕ)
      → v.dirty ≡ true
      → D.sector (D.outsl 0x1f0 v.content (issue D (command v) st)) d l
        ≡ (if d == v.dev % 2 && l == v.blockno then v.content else D.sector st d l)
  sector_written d l dirty =
      let (lba, drive) = command_lem v small in
      K.write st (command v) v.content d l (command_count v) (command_write v dirty)
      ∙ rw (lba, drive)

  -- what the read command for a clean buffer brings
  sector_read :
      (r fuel : ℕ) (st' : D.State)
      → v.dirty ≡ false
      → poll D fuel (issue D (command v) st) ≡ some (r, st')
      → ((D.insl 0x1f0 st').0 ≡ D.sector st (v.dev % 2) v.blockno)
        × ((d l : ℕ) → D.sector (D.insl 0x1f0 st').1 d l ≡ D.sector st d l)
  sector_read r fuel st' clean run =
      let (lba, drive) = command_lem v small in
      let (x, same) =
        K.read st st' (command v) r fuel (command_count v) (command_read v clean) run in
      (x ∙ rw (lba, drive), same)

-- What a completed iderw has done: the queue is empty again, the buffer is valid and clean, and the
-- disk and the buffer agree on the block. A dirty buffer was written to the disk; one that was
-- not valid took over what the disk held. No other buffer and no other sector has changed.
pub record Transferred {D : Device} (b : Ptr) (s s' : Machine D) : Type 0 where
  pub queue : s'.idequeue ≡ 0
  pub disks : s'.havedisk1 ≡ s.havedisk1
  pub store :
      s'.buf
      ≡ update s.buf b (record (s.buf b) {
        valid = true;
        dirty = false;
        qnext = 0;
        content =
            if (s.buf b).dirty
            then (s.buf b).content
            else D.sector s.device ((s.buf b).dev % 2) (s.buf b).blockno;
      })
  pub sectors :
      (d l : ℕ)
      → D.sector s'.device d l ≡ (
          if (s.buf b).dirty && (d == (s.buf b).dev % 2 && l == (s.buf b).blockno)
          then (s.buf b).content
          else D.sector s.device d l)

module _ {D : Device} (K : IsDisk D) (fuel : ℕ) (big : K.patience ≤ fuel) where
  module _ (b : Ptr) (s : Machine D) (ne : b ≢ 0) (small : (s.buf b).blockno < 2 ^ 28) where
    -- the buffer in the queue, before the interrupt
    abbrev waiting : D.State → List String → Machine D
    waiting st log' = record s {
      buf = update s.buf b (record (s.buf b) { qnext = 0 });
      idequeue = b;
      device = st;
      log = log';
    }

    -- iderw from its parts
    iderw_parts :
        {s1 s2 : Machine D}
        → enqueue fuel b
            (set_buf b (record ((iderw_warnings b s).buf b) { qnext = 0 }) (iderw_warnings b s))
          ≡ some s1
        → s1.idequeue ≡ b
        → idestart fuel b s1 ≡ some s2
        → iderw fuel b s ≡ wait_buf fuel fuel b s2
    unfolding iderw
    iderw_parts e h f = ground arith

    -- the loop of iderw, when the first interrupt brings what it waits for
    wait_once :
        (w w' : Machine D) (rounds : ℕ)
        → 2 ≤ rounds
        → ((w.buf b).valid && not (w.buf b).dirty) ≡ false
        → ideint_callback fuel w ≡ some w'
        → (w'.buf b).valid ≡ true
        → (w'.buf b).dirty ≡ false
        → wait_buf rounds fuel b w ≡ some w'
    unfolding wait_buf
    wait_once w w' zero two more run valid clean = absurd (omega arith)
    wait_once w w' (suc zero) two more run valid clean = absurd (omega arith)
    wait_once w w' (suc (suc rounds)) two more run valid clean = ground arith

    enqueue_first :
        (w : Machine D) → w.idequeue ≡ 0 → enqueue fuel b w ≡ some (record w { idequeue = b })
    unfolding enqueue
    enqueue_first w empty = ground arith

    -- the queue with `b` alone in it, and the command given
    queue_alone :
        s.idequeue ≡ 0
        → (st : D.State) × (l0 : List String) × (l1 : List String) × (iderw fuel b s
            ≡ wait_buf fuel fuel b (waiting (started K fuel big b (waiting s.device l0) st) l1))
          × ((d l : ℕ) → D.sector st d l ≡ D.sector s.device d l)
    unfolding iderw_warnings warn
    queue_alone empty =
        let l0 = (iderw_warnings b s).log in
        let (st, l1, run, same) = idestart_lem K fuel big b (waiting s.device l0) in
        (st, l0, l1, iderw_parts (enqueue_first _ empty) refl run, same)

    -- the buffer in the queue
    abbrev queued : Buf
    queued = record (s.buf b) { qnext = 0 }

    -- the loop of iderw for a dirty buffer
    finish_write :
        (st : D.State) (l1 : List String)
        → 2 ≤ fuel
        → (s.buf b).dirty ≡ true
        → ((d l : ℕ)
            → D.sector st d l ≡ (
                if d == (s.buf b).dev % 2 && l == (s.buf b).blockno
                then (s.buf b).content
                else D.sector s.device d l))
        → (s' : Machine D) × (wait_buf fuel fuel b (waiting st l1) ≡ some s') × Transferred b s s'
    finish_write st l1 two dirty written =
        let w = waiting st l1 in
        let at : w.buf b ≡ queued = update_self s.buf b _ in
        let dirty' : (w.buf b).dirty ≡ true = rw at dirty in
        let done = callback_write K fuel big b w ne (ap (λ v. v.qnext) at) dirty' in
        (
          _,
          wait_once w _ fuel two (ground arith) done (ap (λ v. v.valid) (update_self _ b _))
              (ap (λ v. v.dirty) (update_self _ b _)),
          record {
            queue = refl;
            disks = refl;
            store = rw (update-update, update_self, dirty);
            sectors = λ d l. rw dirty (written d l);
          },
        )

    -- the loop of iderw for a buffer that is neither valid nor dirty
    finish_read :
        (st : D.State) (l1 : List String)
        → 2 ≤ fuel
        → (s.buf b).dirty ≡ false
        → (s.buf b).valid ≡ false
        → ((r : ℕ) (st' : D.State)
            → poll D fuel st ≡ some (r, st')
            → ((D.insl 0x1f0 st').0 ≡ D.sector s.device ((s.buf b).dev % 2) (s.buf b).blockno)
              × ((d l : ℕ) → D.sector (D.insl 0x1f0 st').1 d l ≡ D.sector s.device d l))
        → (s' : Machine D) × (wait_buf fuel fuel b (waiting st l1) ≡ some s') × Transferred b s s'
    finish_read st l1 two clean invalid brings =
        let w = waiting st l1 in
        let at : w.buf b ≡ queued = update_self s.buf b _ in
        let clean' : (w.buf b).dirty ≡ false = rw at clean in
        let invalid' : (w.buf b).valid ≡ false = rw at invalid in
        let (r, st', polled, done) =
          callback_read K fuel big b w ne (ap (λ v. v.qnext) at) clean' in
        let (x, kept) = brings r st' polled in
        (
          _,
          wait_once w _ fuel two (ground arith) done (ap (λ v. v.valid) (update_self _ b _))
              (ap (λ v. v.dirty) (update_self _ b _)),
          record {
            queue = refl;
            disks = refl;
            store = read_store (D.insl 0x1f0 st').0 clean x;
            sectors = λ d l. rw clean (kept d l);
          },
        )
      where
        read_store :
            (x : Data)
            → (s.buf b).dirty ≡ false
            → x ≡ D.sector s.device ((s.buf b).dev % 2) (s.buf b).blockno
            → update (update s.buf b queued) b (record (update s.buf b queued b) {
              content = x;
              valid = true;
              dirty = false;
              qnext = 0;
            })
              ≡ update s.buf b (record (s.buf b) {
                valid = true;
                dirty = false;
                qnext = 0;
                content =
                    if (s.buf b).dirty
                    then (s.buf b).content
                    else D.sector s.device ((s.buf b).dev % 2) (s.buf b).blockno;
              })
        read_store x clean e = rw (update-update, update_self, clean, e)

    started_write :
        (l0 : List String) (st : D.State)
        → (s.buf b).dirty ≡ true
        → started K fuel big b (waiting s.device l0) st
          ≡ D.outsl 0x1f0 queued.content (issue D (command queued) st)
    started_write l0 st dirty = rw update_self (ground arith)

    started_read :
        (l0 : List String) (st : D.State)
        → (s.buf b).dirty ≡ false
        → started K fuel big b (waiting s.device l0) st ≡ issue D (command queued) st
    started_read l0 st clean = rw update_self (ground arith)

    -- On an empty queue iderw returns, for a buffer that is dirty or is not valid, and it has moved
    -- the block: `Transferred` says how.
    pub iderw-Transferred :
        2 ≤ fuel
        → s.idequeue ≡ 0
        → (not (s.buf b).dirty && (s.buf b).valid) ≡ false
        → (s' : Machine D) × (iderw fuel b s ≡ some s') × Transferred b s s'
    iderw-Transferred two empty work = elim (Bool-cases (s.buf b).dirty) [
      | inl dirty ↦
          let (st, l0, l1, run, same) = queue_alone empty in
          let (s', waited, t) =
            finish_write (started K fuel big b (waiting s.device l0) st) l1 two dirty λ d l.
              ap (λ x. D.sector x d l) (started_write l0 st dirty)
              ∙ sector_written K queued st small d l dirty
              ∙ rw (same d l) in
          (s', run ∙ waited, t)
      | inr clean ↦
          let (st, l0, l1, run, same) = queue_alone empty in
          let (s', waited, t) =
            finish_read (started K fuel big b (waiting s.device l0) st) l1 two clean (ground arith)
              λ r st' polled.
                let got =
                  sector_read K queued st small r fuel st' clean
                    (rw (started_read l0 st clean) at polled) in
                (got.0 ∙ same _ _, λ d l. got.1 d l ∙ same d l) in
          (s', run ∙ waited, t)
    ]
