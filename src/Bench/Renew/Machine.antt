-- ===== src/Bench/Renew/Machine.antt =====
-- microbench/bench1/exchange/atomsnap_example.cpp: `writer`, `reader` and `atomsnap_free_impl` under every
-- interleaving with the steps of the library.
use atomsnap.Common.{
  inl, refl, ℕ, ◌<◌, ◌≡◌, ◌≢◌, ◌⊎◌, inr, sym, Bool, true, false, none, some, if◌then◌else◌,
}
use atomsnap.Common.Family.{update}
use atomsnap.Word.Pair.{handle_null}
use atomsnap.Protocol.Machine as Library
use atomsnap.Protocol.Machine.{Mem, Pc, reclaiming, Thread}
use atomsnap.Protocol.Client.{first_published}
use atomsnap.Protocol.Objects.{moved, dropped}
use atomsnap.Bench.Renew.Code.{
  User, w_top, w_got, w_one, w_two, w_made, w_set, w_swap, r_top, r_got, r_one, r_done, joining,
  System, object_of, value_one, value_two, read_one, read_two, delete_once,
}

-- The state after a thread's operation in the library, and after one of its own.
abbrev pub after :
    (s : System) (i : ℕ) {m : Mem} {t : Thread}
    → Library.Move s.lib.mem (s.lib.thr i) m t
    → User
    → System
after s i mv u = record s { lib = moved s.lib i mv; user = update s.user i u }

abbrev pub go : System → ℕ → User → System
go s i u = record s { user = update s.user i u }

-- A step of thread `i`.
pub data Move (i : ℕ) (s : System) : System → Type 0 where
  inside :
      {m : Mem} {t : Thread} (mv : Library.Move s.lib.mem (s.lib.thr i) m t)
      → (s.lib.thr i).pc ≢ Pc.ready
      → ((v : ℕ) → (s.lib.thr i).pc ≢ reclaiming v)
      → Move i s (after s i mv (s.user i))
  -- `atomsnap_free_impl`, and the rest of the call
  callback :
      (v : ℕ) (at : (s.lib.thr i).pc ≡ reclaiming v)
      → Move i s
          (record (after s i (Library.reclaim v at) (delete_once s.alive (s.object v) (s.user i))) {
            alive = dropped s.alive (s.object v);
          })
  -- `atomsnap_acquire_version`
  acquire_version :
      (u : User) (at : (s.lib.thr i).pc ≡ Pc.ready) (none_held : (s.lib.thr i).held ≡ none)
      → ((s.user i ≡ w_top) × (u ≡ w_got)) ⊎ ((s.user i ≡ r_top) × (u ≡ r_got))
      → Move i s (after s i (Library.acquire 0 at none_held) u)
  get_value1 :
      (s.lib.thr i).pc ≡ Pc.ready
      → s.user i ≡ w_got
      → Move i s (go s i (value_one s.heap (object_of s (s.lib.thr i).held)))
  get_value2 :
      (v : ℕ)
      → (s.lib.thr i).pc ≡ Pc.ready
      → s.user i ≡ w_one v
      → Move i s (go s i (value_two s.heap v (object_of s (s.lib.thr i).held)))
  -- `atomsnap_make_version`, whose version has no object yet
  make_version :
      (v v' h : ℕ) (at : (s.lib.thr i).pc ≡ Pc.ready) (none_made : (s.lib.thr i).fresh ≡ none)
      (is_free : s.lib.mem.avail h ≡ true) (small : h < handle_null)
      → s.user i ≡ w_two v v'
      → Move i s (record (after s i (Library.make h at none_made is_free small) (w_made v v')) {
        object = update s.object h none;
      })
  -- `new Data{values[0], values[1]}`, at an address that is not in use, and `atomsnap_set_object`
  set_object :
      (v v' h a : ℕ)
      → (s.lib.thr i).pc ≡ Pc.ready
      → (s.lib.thr i).fresh ≡ some h
      → s.alive a ≡ false
      → s.user i ≡ w_made v v'
      → Move i s (record s {
        object = update s.object h (some a);
        alive = update s.alive a true;
        heap = update s.heap a (record { value1 = v; value2 = v' });
        user = update s.user i w_set;
      })
  -- `atomsnap_exchange_version`
  exchange_version :
      (h : ℕ) (at : (s.lib.thr i).pc ≡ Pc.ready) (made_h : (s.lib.thr i).fresh ≡ some h)
      → s.user i ≡ w_set
      → Move i s (after s i (Library.exchange 0 (some h) at (inr (sym made_h))) w_swap)
  -- `atomsnap_release_version`
  release_version :
      (h : ℕ) (u : User) (at : (s.lib.thr i).pc ≡ Pc.ready) (held_h : (s.lib.thr i).held ≡ some h)
      → ((s.user i ≡ w_swap) × (u ≡ w_top)) ⊎ ((s.user i ≡ r_done) × (u ≡ r_top))
      → Move i s (after s i (Library.release h at held_h) u)
  read_value1 :
      (s.lib.thr i).pc ≡ Pc.ready
      → s.user i ≡ r_got
      → Move i s (go s i (read_one s.heap (object_of s (s.lib.thr i).held)))
  read_value2 :
      (v : ℕ)
      → (s.lib.thr i).pc ≡ Pc.ready
      → s.user i ≡ r_one v
      → Move i s (go s i (read_two s.heap v (object_of s (s.lib.thr i).held)))

-- A step of a thread whose `atomsnap_make_version` returns NULL: `atomsnap_set_object` then does nothing,
-- so that no version has the new object, and `atomsnap_exchange_version` empties the gate.
pub data Refused (i : ℕ) (s : System) : System → Type 0 where
  make_null :
      (v v' : ℕ)
      → (s.lib.thr i).pc ≡ Pc.ready
      → (s.lib.thr i).fresh ≡ none
      → s.user i ≡ w_two v v'
      → Refused i s (go s i (w_made v v'))
  set_null :
      (v v' a : ℕ)
      → (s.lib.thr i).pc ≡ Pc.ready
      → (s.lib.thr i).fresh ≡ none
      → s.alive a ≡ false
      → s.user i ≡ w_made v v'
      → Refused i s (record s {
        alive = update s.alive a true;
        heap = update s.heap a (record { value1 = v; value2 = v' });
        user = update s.user i w_set;
      })
  exchange_null :
      (at : (s.lib.thr i).pc ≡ Pc.ready)
      → (s.lib.thr i).fresh ≡ none
      → s.user i ≡ w_set
      → Refused i s (after s i (Library.exchange 0 none at (inl refl)) w_swap)

-- A step of one of `n` threads; `refuses` is whether `atomsnap_make_version` may return NULL.
pub data Step (refuses : Bool) (n : ℕ) (s : System) : System → Type 0 where
  pick : (i : ℕ) {t : System} → i < n → Move i s t → Step refuses n s t
  pick_null : (i : ℕ) {t : System} → i < n → refuses ≡ true → Refused i s t → Step refuses n s t

-- After `main` has published the version `h` with `Data{0, 0}` at `a`, as thread 0.
abbrev pub init : (is_writer : ℕ → Bool) (h a : ℕ) → System
init is_writer h a = record {
  lib = first_published h;
  object = update (λ _. none) h (some a);
  alive = update (λ _. false) a true;
  heap = λ _. record { value1 = 0; value2 = 0 };
  user = update (λ i. if is_writer i then w_top else r_top) 0 joining;
}

pub data Reach (refuses : Bool) (n : ℕ) (is_writer : ℕ → Bool) (h a : ℕ) : System → Type 0 where
  start : Reach refuses n is_writer h a (init is_writer h a)
  later :
      {s t : System}
      → Reach refuses n is_writer h a s
      → Step refuses n s t
      → Reach refuses n is_writer h a t
