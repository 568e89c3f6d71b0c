-- ===== src/Protocol/Invariant/Defs.antt =====
-- What every reachable state satisfies, handle by handle, thread by thread and slot by slot.
use atomsnap.Common.{
  ℕ, ◌+◌, ◌%◌, ◌^◌, ◌<◌, ◌≡◌, ◌≢◌, ◌⊎◌, true, false, none, some, ◌==◌, if◌then◌else◌,
}
use atomsnap.Common.Family.{total}
use atomsnap.Word.Pair.{handle_null, inner_cnt, inner_flags, has_detached, handle_of, refs_of}
use atomsnap.Protocol.Machine.{
  Mem, Pc, ready, comparing, swapped, adjusting, checking, claiming, reclaiming, aborted, Thread,
}

-- Where a version is in its life; a thread is named by its index.
pub data Phase : Type 0 where
  -- in the pool
  free : Phase
  -- made by a thread, not yet published
  owned : (i : ℕ) → Phase
  -- published in a slot of the gate
  live : (k : ℕ) → Phase
  -- taken out by a thread that has not detached it yet, with the outer count found there
  leaving : (i refs : ℕ) → Phase
  -- detached, and still held
  dying : Phase
  -- detached and no longer held; one thread finishes it
  claimed : (i : ℕ) → Phase

-- 1 if the thread holds the version.
abbrev pub holds : ℕ → Thread → ℕ
holds h t = elim t.held [ none ↦ 0 | some v ↦ if v == h then 1 else 0 ]

abbrev pub Detaches : Pc → ℕ → ℕ → Type 0
Detaches (swapped v r) h refs = (v ≡ h) × (r ≡ refs)
Detaches (adjusting v r _) h refs = (v ≡ h) × (r ≡ refs)
Detaches _ h refs = ⊥

-- A thread that finishes `h`, and the inner state that it leaves or finds.
abbrev pub Finishes : Pc → ℕ → ℕ → Type 0
Finishes (checking v st) h word = (v ≡ h) × (st ≡ 1) × (word ≡ 1)
Finishes (claiming v) h word = (v ≡ h) × (word ≡ 1)
Finishes (reclaiming v) h word = (v ≡ h) × (word ≡ 3)
Finishes _ h word = ⊥

-- What is true of the handle `h` in each phase; `held` counts the threads that hold it.
abbrev pub About : Mem → (ℕ → Thread) → (h held : ℕ) → Phase → Type 0
About m thr h held free = (m.avail h ≡ true) × (held ≡ 0)
About m thr h held (owned i) =
    (m.avail h ≡ false)
    × (held ≡ 0)
    × (h < handle_null)
    × (m.inner h ≡ 0)
    × ((thr i).fresh ≡ some h)
About m thr h held (live k) =
    (m.avail h ≡ false)
    × (handle_of (m.cb k) ≡ h)
    × (h < handle_null)
    × (m.inner h < 2 ^ 64)
    × (inner_flags (m.inner h) ≡ 0)
    × (refs_of (m.cb k) ≡ (inner_cnt (m.inner h) + held) % 2 ^ 32)
About m thr h held (leaving i refs) =
    (m.avail h ≡ false)
    × (h < handle_null)
    × (m.inner h < 2 ^ 64)
    × (inner_flags (m.inner h) ≡ 0)
    × (refs ≡ (inner_cnt (m.inner h) + held) % 2 ^ 32)
    × Detaches (thr i).pc h refs
About m thr h held dying =
    (m.avail h ≡ false)
    × (h < handle_null)
    × (m.inner h < 2 ^ 64)
    × (inner_flags (m.inner h) ≡ 1)
    × ((inner_cnt (m.inner h) + held) % 2 ^ 32 ≡ 0)
    × (0 < held)
About m thr h held (claimed i) =
    (m.avail h ≡ false) × (h < handle_null) × (held ≡ 0) × Finishes (thr i).pc h (m.inner h)

-- What is true of the thread `i` that stands at a point of the code.
abbrev pub Stands : (ℕ → Phase) → ℕ → Thread → Pc → Type 0
Stands phase i t ready = Unit {0}
Stands phase i t (comparing k exp_handle new_handle cur) =
    (handle_of cur ≡ exp_handle) × ((new_handle ≡ handle_null) ⊎ (t.fresh ≡ some new_handle))
Stands phase i t (swapped v r) = phase v ≡ leaving i r
Stands phase i t (adjusting v r _) = phase v ≡ leaving i r
Stands phase i t (checking v st) =
    has_detached (inner_flags st) ≡ true → inner_cnt st ≡ 0 → phase v ≡ claimed i
Stands phase i t (claiming v) = phase v ≡ claimed i
Stands phase i t (reclaiming v) = phase v ≡ claimed i
Stands phase i t aborted = ⊥

pub record Inv (n : ℕ) (m : Mem) (thr : ℕ → Thread) : Type 0 where
  pub phase : ℕ → Phase
  pub handles : (h : ℕ) → About m thr h (total (holds h) n thr) (phase h)
  pub made : (i h : ℕ) → (thr i).fresh ≡ some h → phase h ≡ owned i
  pub stands : (i : ℕ) → Stands phase i (thr i) (thr i).pc
  pub slots : (k : ℕ) → handle_of (m.cb k) ≢ handle_null → phase (handle_of (m.cb k)) ≡ live k
