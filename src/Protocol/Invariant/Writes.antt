-- ===== src/Protocol/Invariant/Writes.antt =====
-- Steps of a writer keep the invariant: make, free, exchange and compare-exchange.
use atomsnap.Common.{ℕ, ◌^◌, ◌<◌, ◌≡◌, ◌⊎◌, true, false, none, some, arith, ◌==◌, if◌then◌else◌}
use atomsnap.Common.Family.{update}
use atomsnap.Word.Pair.{handle_null, handle_of, refs_of}
use atomsnap.Protocol.Machine.{Mem, ready, comparing, Thread, after_swap, recheck}
use atomsnap.Protocol.Invariant.Defs.{Phase, free, owned, live, leaving, Inv}
use atomsnap.Protocol.Invariant.Count.{recount}

module _ {n : ℕ} {m : Mem} {thr : ℕ → Thread} (few : n < 2 ^ 32) (inv : Inv n m thr) (i : ℕ)
    (lt : i < n) where
  open inv use {phase, handles, made, stands, slots}

  pub make-Inv :
      (h : ℕ)
      → (thr i).pc ≡ ready
      → (thr i).fresh ≡ none
      → m.avail h ≡ true
      → h < handle_null
      → Inv n
          (record m { inner = update m.inner h 0; avail = update m.avail h false })
          (update thr i (record (thr i) { fresh = some h }))
  make-Inv h at none_made is_free small = record {
    phase = update phase h (owned i);
    handles = λ g.
        ground
          (arith, handles g, handles h, recount thr i lt (record (thr i) { fresh = some h }) g);
    made = λ j g e. ground (arith, made j g, handles h);
    stands = λ j. ground (arith, stands j, handles h);
    slots = λ j ne. ground (arith, slots j, handles h);
  }

  pub discard-Inv :
      (h : ℕ)
      → (thr i).pc ≡ ready
      → (thr i).fresh ≡ some h
      → Inv n
          (record m { avail = update m.avail h true })
          (update thr i (record (thr i) { fresh = none }))
  discard-Inv h at made_h = record {
    phase = update phase h free;
    handles = λ g. ground (
      arith,
      handles g,
      handles h,
      made i h,
      recount thr i lt (record (thr i) { fresh = none }) g,
    );
    made = λ j g e. ground (arith, made j g, made i h, handles h);
    stands = λ j. ground (arith, stands j, made i h, handles h);
    slots = λ j ne. ground (arith, slots j, made i h, handles h);
  }

  -- The version that a swap of slot `k` takes out is left to thread `i`, and `new_handle` is live.
  abbrev swapped_phase : (k new_handle : ℕ) → ℕ → Phase
  swapped_phase k new_handle h =
      if new_handle == handle_null then taken h else (if new_handle == h then live k else taken h)
    where
      taken : ℕ → Phase
      taken h =
          if handle_of (m.cb k) == handle_null
          then phase h
          else (if handle_of (m.cb k) == h then leaving i (refs_of (m.cb k)) else phase h)

  -- Thread `i` behind a swap of slot `k`.
  abbrev swapper : (k new_handle : ℕ) → Thread
  swapper k new_handle = record (thr i) {
    fresh = if new_handle == handle_null then (thr i).fresh else none;
    pc = after_swap (handle_of (m.cb k)) (refs_of (m.cb k));
  }

  pub swap-Inv :
      (k new_handle : ℕ)
      → ((thr i).pc ≡ ready) ⊎ ((e c : ℕ) × ((thr i).pc ≡ comparing k e new_handle c))
      → (new_handle ≡ handle_null) ⊎ ((thr i).fresh ≡ some new_handle)
      → Inv n (record m { cb = update m.cb k new_handle }) (update thr i (swapper k new_handle))
  swap-Inv k new_handle at own = record {
    phase = swapped_phase k new_handle;
    handles = λ g. ground (
      arith,
      handles g,
      handles (handle_of (m.cb k)),
      handles new_handle,
      made i new_handle,
      slots k,
      recount thr i lt (swapper k new_handle) g,
    );
    made =
        λ j g e. ground (arith, made j g, made i new_handle, slots k, handles (handle_of (m.cb k)));
    stands = λ j. ground (arith, stands j, stands i, made i new_handle, slots k);
    slots = λ j ne. ground (arith, slots j, slots k, made i new_handle, handles new_handle);
  }

  pub recheck-Inv :
      (k exp_handle new_handle : ℕ)
      → ((thr i).pc ≡ ready) ⊎ ((c : ℕ) × ((thr i).pc ≡ comparing k exp_handle new_handle c))
      → (new_handle ≡ handle_null) ⊎ ((thr i).fresh ≡ some new_handle)
      → Inv n m (update thr i (record (thr i) { pc = recheck k exp_handle new_handle (m.cb k) }))
  recheck-Inv k exp_handle new_handle at own = record {
    phase = phase;
    handles = λ g. ground (
      arith,
      handles g,
      recount thr i lt (record (thr i) { pc = recheck k exp_handle new_handle (m.cb k) }) g,
    );
    made = λ j g e. ground (arith, made j g);
    stands = λ j. ground (arith, stands j, stands i);
    slots = slots;
  }
