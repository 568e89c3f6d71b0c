-- ===== src/Load/Snap/Machine.antt =====
-- microbench/bench2/bench_all.cpp: `init`, `reader_loop`, `writer_loop` of `AtomSnapBackend` and
-- `atomsnap_free_cb`, under every interleaving. A call of the pool is one step, and `alloc` gives a block
-- that is not taken, but in the steps of `Fault`.
use atomsnap.Common.{Bool, inl, refl, ℕ, ◌%◌, ◌<◌, ◌≡◌, ◌≢◌, ◌⊎◌, inr, sym, true, false, none, some}
use atomsnap.Common.Family.{update}
use atomsnap.Protocol.Machine as Library
use atomsnap.Protocol.Machine.{Mem, Pc, reclaiming, Thread}
use atomsnap.Word.Pair.{handle_null}
use atomsnap.Load.Snap.Code.{
  AtomObj, Round, first_of, update_of, User, w_top, w_made, w_got, w_half, w_full, w_set, w_swap,
  r_top, r_got, r_one, r_done, running, System, gate_of, next_round, store_v1, store_v2, read_ver,
  check_ver, freed, free_user, after, go,
}

-- A step of thread `i`.
pub data Move (shards i : ℕ) (s : System) : System → Type 0 where
  -- an operation of the library inside a call
  inside :
      {m : Mem} {t : Thread} (mv : Library.Move s.lib.mem (s.lib.thr i) m t)
      → (s.lib.thr i).pc ≢ Pc.ready
      → ((v : ℕ) → (s.lib.thr i).pc ≢ reclaiming v)
      → Move shards i s (after s i mv (s.user i))
  -- the callback, and the rest of the call
  callback :
      (v : ℕ) (at : (s.lib.thr i).pc ≡ reclaiming v)
      → Move shards i s
          (record (after s i (Library.reclaim v at) (free_user s.taken (s.object v) (s.user i))) {
            taken = freed s.taken (s.object v);
          })
  -- `atomsnap_make_version`, whose version has no object yet
  make_version :
      (h : ℕ) (at : (s.lib.thr i).pc ≡ Pc.ready) (none_made : (s.lib.thr i).fresh ≡ none)
      (is_free : s.lib.mem.avail h ≡ true) (small : h < handle_null) (r : Round)
      → s.user i ≡ w_top r
      → Move shards i s (record (after s i (Library.make h at none_made is_free small) (w_made r)) {
        object = update s.object h none;
      })
  -- `pool->alloc()`
  alloc :
      (a : ℕ) (raw : AtomObj) (r : Round)
      → (s.lib.thr i).pc ≡ Pc.ready
      → s.user i ≡ w_made r
      → s.taken a ≡ false
      → Move shards i s (record s {
        taken = update s.taken a true;
        heap = update s.heap a raw;
        user = update s.user i (w_got r a);
      })
  write_v1 :
      (r : Round) (a : ℕ)
      → (s.lib.thr i).pc ≡ Pc.ready
      → s.user i ≡ w_got r a
      → Move shards i s (store_v1 s i r a)
  write_v2 :
      (r : Round) (a : ℕ)
      → (s.lib.thr i).pc ≡ Pc.ready
      → s.user i ≡ w_half r a
      → Move shards i s (store_v2 s i r a)
  set_object :
      (h : ℕ) (r : Round) (a : ℕ)
      → (s.lib.thr i).pc ≡ Pc.ready
      → s.user i ≡ w_full r a
      → (s.lib.thr i).fresh ≡ some h
      → Move shards i s
          (record s { object = update s.object h (some a); user = update s.user i (w_set r) })
  -- `atomsnap_exchange_version_slot`
  exchange_version :
      (h : ℕ) (r : Round) (at : (s.lib.thr i).pc ≡ Pc.ready) (made_h : (s.lib.thr i).fresh ≡ some h)
      → s.user i ≡ w_set r
      → Move shards i s
          (after s i (Library.exchange (gate_of r) (some h) at (inr (sym made_h))) (w_swap r))
  next :
      (r : Round)
      → (s.lib.thr i).pc ≡ Pc.ready
      → s.user i ≡ w_swap r
      → Move shards i s (go s i (next_round shards r))
  -- `atomsnap_acquire_version_slot`
  acquire_version :
      (shard : ℕ) (at : (s.lib.thr i).pc ≡ Pc.ready) (none_held : (s.lib.thr i).held ≡ none)
      → s.user i ≡ r_top shard
      → Move shards i s (after s i (Library.acquire shard at none_held) (r_got shard))
  read_v1 :
      (shard : ℕ)
      → (s.lib.thr i).pc ≡ Pc.ready
      → s.user i ≡ r_got shard
      → Move shards i s (go s i (read_ver s shard (s.lib.thr i).held))
  read_v2 :
      (shard v1 : ℕ)
      → (s.lib.thr i).pc ≡ Pc.ready
      → s.user i ≡ r_one shard v1
      → Move shards i s (go s i (check_ver s shard v1 (s.lib.thr i).held))
  -- `atomsnap_release_version`
  release_version :
      (h shard : ℕ) (at : (s.lib.thr i).pc ≡ Pc.ready) (held_h : (s.lib.thr i).held ≡ some h)
      → s.user i ≡ r_done shard
      → Move shards i s (after s i (Library.release h at held_h) (r_top shard))

-- A step of a thread whose `atomsnap_make_version` returns NULL, or that is given a block which is taken.
-- Without a version `atomsnap_set_object` does nothing, and the exchange empties the gate. (`alloc` does not
-- return NULL: it throws, which ends the program.)
pub data Fault (i : ℕ) (s : System) : System → Type 0 where
  make_null :
      (r : Round)
      → (s.lib.thr i).pc ≡ Pc.ready
      → (s.lib.thr i).fresh ≡ none
      → s.user i ≡ w_top r
      → Fault i s (go s i (w_made r))
  alloc_taken :
      (a : ℕ) (raw : AtomObj) (r : Round)
      → (s.lib.thr i).pc ≡ Pc.ready
      → s.user i ≡ w_made r
      → s.taken a ≡ true
      → Fault i s (record s { heap = update s.heap a raw; user = update s.user i (w_got r a) })
  set_null :
      (r : Round) (a : ℕ)
      → (s.lib.thr i).pc ≡ Pc.ready
      → s.user i ≡ w_full r a
      → (s.lib.thr i).fresh ≡ none
      → Fault i s (go s i (w_set r))
  exchange_null :
      (r : Round) (at : (s.lib.thr i).pc ≡ Pc.ready)
      → (s.lib.thr i).fresh ≡ none
      → s.user i ≡ w_set r
      → Fault i s (after s i (Library.exchange (gate_of r) none at (inl refl)) (w_swap r))

-- A step of one of `n` threads: thread 0 runs `init`, and the others start when it has returned. `faults`
-- is whether `atomsnap_make_version` may return NULL and the pool may give out a block twice.
pub data Step (faults : Bool) (n shards : ℕ) (s : System) : System → Type 0 where
  pick :
      (i : ℕ) {t : System}
      → i < n
      → (i ≡ 0) ⊎ (s.user 0 ≡ running)
      → Move shards i s t
      → Step faults n shards s t
  pick_fault :
      (i : ℕ) {t : System}
      → i < n
      → (i ≡ 0) ⊎ (s.user 0 ≡ running)
      → faults ≡ true
      → Fault i s t
      → Step faults n shards s t

-- The arguments of a thread.
pub data Role : Type 0 where
  reader : (rid : ℕ) → Role
  writer : (wid : ℕ) → Role

abbrev pub started : (shards : ℕ) → Role → User
started shards (reader rid) = r_top (rid % shards)
started shards (writer wid) = w_top (update_of 0 (wid % shards))

-- The library is new, no block is taken, and thread 0 is at the start of `init`.
abbrev pub init : (shards : ℕ) → (role : ℕ → Role) → System
init shards role = record {
  lib = Library.init;
  object = λ _. none;
  taken = λ _. false;
  heap = λ _. record { v1 = 0; v2 = 0 };
  user = update (λ i. started shards (role i)) 0 (w_top (first_of 0));
}

pub data Reach (faults : Bool) (n shards : ℕ) (role : ℕ → Role) : System → Type 0 where
  start : Reach faults n shards role (init shards role)
  later :
      {s t : System}
      → Reach faults n shards role s
      → Step faults n shards s t
      → Reach faults n shards role t
