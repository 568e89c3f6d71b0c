-- ===== src/Bench/Snap/Machine.antt =====
-- microbench/bench1/cmp_exchange/atomsnap_example.cpp: writers that publish a pair one greater than the
-- one they hold, and readers that check the pair they hold. The library is the machine of `Protocol`:
-- a thread is in a call of it while its program counter there is not `ready`. One access to memory
-- that threads share is one step; the values stay below 2^63.
use atomsnap.Common.{
  inl, ◌⊎◌, ℕ, ◌+◌, ◌<◌, ◌≡◌, ◌≢◌, refl, inr, Bool, true, false, Option, none, some, ◌==◌, ltb,
  if◌then◌else◌,
}
use atomsnap.Common.Family.{update}
use atomsnap.Protocol.Machine
use atomsnap.Protocol.Machine.{
  Mem, Pc, reclaiming, Thread, Move, make, acquire, release, compare, reclaim, idle_thread,
}
use atomsnap.Protocol.Client.{first_published}
use atomsnap.Word.Pair.{handle_null}
pub mod Code
pub use atomsnap.Bench.Snap.Machine.Code.{
  Bare, w_bare, b_first, b_again, b_top, b_got, b_half, b_full, b_cas, b_won, b_done, bare_inside,
  bare_store1, bare_store2, bare_new, Data, User, System, counted, made_from, set_from,
  acquired_from, released_from, usable, object_data, held_data, fresh_data, after, go, store1,
  store2, load1, load2, load3, load4, deleted, delete_user, w_start, w_first, w_top, w_got, w_half,
  w_full, w_cas, w_again, w_done, r_top, r_got, r_one, r_two, r_three, r_done, joining, exited,
  crashed,
}

-- A step of a writer whose `atomsnap_make_version` returns NULL: no version has its object then, and what
-- it publishes is NULL.
pub data Refused (i : ℕ) (s : System) : System → Type 0 where
  make_null_first :
      (s.lib.thr i).pc ≡ Pc.ready
      → (s.lib.thr i).fresh ≡ none
      → s.user i ≡ w_start
      → Refused i s (go s i (w_bare b_first))
  -- after a compare-exchange that succeeded, with a version or with NULL
  make_null_again :
      (s.lib.thr i).pc ≡ Pc.ready
      → (s.lib.thr i).fresh ≡ none
      → (s.user i ≡ w_cas) ⊎ (s.user i ≡ w_bare b_won)
      → Refused i s
          (record s { user = update s.user i (w_bare b_again); ops = update s.ops i (s.ops i + 1) })
  make_after_null :
      (h : ℕ) (at : (s.lib.thr i).pc ≡ Pc.ready) (none_made : (s.lib.thr i).fresh ≡ none)
      (is_free : s.lib.mem.avail h ≡ true) (small : h < handle_null)
      → s.user i ≡ w_bare b_won
      → Refused i s (record (after s i (make h at none_made is_free small) w_again) {
        object = update s.object h none;
        ops = update s.ops i (s.ops i + 1);
      })
  new_data :
      (a : ℕ) (raw : Data) (b : Bare) (u : User)
      → (s.lib.thr i).pc ≡ Pc.ready
      → s.user i ≡ w_bare b
      → s.alive a ≡ false
      → bare_new b a ≡ some u
      → Refused i s (record s {
        alive = update s.alive a true;
        heap = update s.heap a raw;
        user = update s.user i u;
      })
  acquire_bare :
      (a : ℕ) (at : (s.lib.thr i).pc ≡ Pc.ready) (none_held : (s.lib.thr i).held ≡ none)
      → s.user i ≡ w_bare (b_top a)
      → Refused i s (after s i (acquire 0 at none_held) (w_bare (b_got a)))
  write1_bare :
      (a : ℕ)
      → (s.lib.thr i).pc ≡ Pc.ready
      → s.user i ≡ w_bare (b_got a)
      → Refused i s (bare_store1 s i (held_data s i) a)
  write2_bare :
      (a : ℕ)
      → (s.lib.thr i).pc ≡ Pc.ready
      → s.user i ≡ w_bare (b_half a)
      → Refused i s (bare_store2 s i (held_data s i) a)
  compare_bare :
      (a : ℕ) (at : (s.lib.thr i).pc ≡ Pc.ready)
      → s.user i ≡ w_bare (b_full a)
      → Refused i s (
          after s i (compare 0 (s.lib.thr i).held none at (inr refl) (inl refl)) (w_bare (b_cas a)))
  inside_bare :
      {m : Mem} {t : Thread} (mv : Move s.lib.mem (s.lib.thr i) m t) (b : Bare)
      → (s.lib.thr i).pc ≢ Pc.ready
      → ((v : ℕ) → (s.lib.thr i).pc ≢ reclaiming v)
      → s.user i ≡ w_bare b
      → Refused i s (after s i mv (w_bare (bare_inside b t.pc)))
  not_swapped_bare :
      (a : ℕ)
      → (s.lib.thr i).pc ≡ Pc.ready
      → s.user i ≡ w_bare (b_cas a)
      → Refused i s (go s i (w_bare (b_done a)))
  release_bare :
      (a h : ℕ) (at : (s.lib.thr i).pc ≡ Pc.ready) (held_h : (s.lib.thr i).held ≡ some h)
      → s.user i ≡ w_bare (b_done a)
      → Refused i s (after s i (release h at held_h) (w_bare (b_top a)))

-- A step of thread `i` of `n` threads; `refuses` is whether `atomsnap_make_version` may return NULL.
pub data Step (refuses : Bool) (n : ℕ) (s : System) : System → Type 0 where
  -- an operation of the library inside a call
  inside :
      (i : ℕ) {m : Mem} {t : Thread} (mv : Move s.lib.mem (s.lib.thr i) m t)
      → i < n
      → (s.lib.thr i).pc ≢ Pc.ready
      → ((v : ℕ) → (s.lib.thr i).pc ≢ reclaiming v)
      → ((b : Bare) → s.user i ≢ w_bare b)
      → Step refuses n s (after s i mv (s.user i))
  -- the callback, and the rest of the call
  callback :
      (i v : ℕ) (at : (s.lib.thr i).pc ≡ reclaiming v)
      → i < n
      → Step refuses n s
          (record (after s i (reclaim v at) (delete_user s.alive (s.object v) (s.user i))) {
            alive = deleted s.alive (s.object v);
          })
  -- `atomsnap_make_version`, whose version has no object yet, after the `ops++` of a writer
  make_version :
      (i h : ℕ) (at : (s.lib.thr i).pc ≡ Pc.ready) (none_made : (s.lib.thr i).fresh ≡ none)
      (is_free : s.lib.mem.avail h ≡ true) (small : h < handle_null) (u : User)
      → i < n
      → made_from (s.user i) ≡ some u
      → Step refuses n s (record (after s i (make h at none_made is_free small) u) {
        object = update s.object h none;
        ops = update s.ops i (counted (s.user i) (s.ops i));
      })
  -- `new Data`, at an address that is not in use, and `atomsnap_set_object`
  set_object :
      (i h a : ℕ) (raw : Data) (u : User)
      → i < n
      → (s.lib.thr i).pc ≡ Pc.ready
      → (s.lib.thr i).fresh ≡ some h
      → s.alive a ≡ false
      → set_from (s.user i) ≡ some u
      → Step refuses n s (record s {
        object = update s.object h (some a);
        alive = update s.alive a true;
        heap = update s.heap a raw;
        user = update s.user i u;
      })
  -- `atomsnap_acquire_version`
  acquire_version :
      (i : ℕ) (at : (s.lib.thr i).pc ≡ Pc.ready) (none_held : (s.lib.thr i).held ≡ none) (u : User)
      → i < n
      → acquired_from (s.user i) ≡ some u
      → Step refuses n s (after s i (acquire 0 at none_held) u)
  write1 :
      (i : ℕ)
      → i < n
      → (s.lib.thr i).pc ≡ Pc.ready
      → s.user i ≡ w_got
      → Step refuses n s (store1 s i (held_data s i) (fresh_data s i))
  write2 :
      (i : ℕ)
      → i < n
      → (s.lib.thr i).pc ≡ Pc.ready
      → s.user i ≡ w_half
      → Step refuses n s (store2 s i (held_data s i) (fresh_data s i))
  -- `atomsnap_compare_exchange_version(gate, old_version, new_version)`
  compare_exchange :
      (i : ℕ) (at : (s.lib.thr i).pc ≡ Pc.ready)
      → i < n
      → s.user i ≡ w_full
      → Step refuses n s (
          after s i
            (compare 0 (s.lib.thr i).held (s.lib.thr i).fresh at (inr refl) (inr refl))
            w_cas)
  -- it returned false: the version is still the thread's own
  not_swapped :
      (i h : ℕ)
      → i < n
      → (s.lib.thr i).pc ≡ Pc.ready
      → s.user i ≡ w_cas
      → (s.lib.thr i).fresh ≡ some h
      → Step refuses n s (go s i w_done)
  -- `atomsnap_release_version`
  release_version :
      (i h : ℕ) (at : (s.lib.thr i).pc ≡ Pc.ready) (held_h : (s.lib.thr i).held ≡ some h) (u : User)
      → i < n
      → released_from (s.user i) ≡ some u
      → Step refuses n s (after s i (release h at held_h) u)
  read1 :
      (i prev : ℕ)
      → i < n
      → (s.lib.thr i).pc ≡ Pc.ready
      → s.user i ≡ r_got prev
      → Step refuses n s (go s i (load1 s.heap prev (held_data s i)))
  read2 :
      (i prev v1 : ℕ)
      → i < n
      → (s.lib.thr i).pc ≡ Pc.ready
      → s.user i ≡ r_one prev v1
      → Step refuses n s (go s i (load2 s.heap prev v1 (held_data s i)))
  read3 :
      (i prev : ℕ)
      → i < n
      → (s.lib.thr i).pc ≡ Pc.ready
      → s.user i ≡ r_two prev
      → Step refuses n s (go s i (load3 s.heap prev (held_data s i)))
  read4 :
      (i : ℕ)
      → i < n
      → (s.lib.thr i).pc ≡ Pc.ready
      → s.user i ≡ r_three
      → Step refuses n s (go s i (load4 s.heap (held_data s i)))
  refused : (i : ℕ) {t : System} → i < n → refuses ≡ true → Refused i s t → Step refuses n s t

-- After `main` has published the version `h` with `Data{0, 0}` at `a`, as thread 0.
abbrev pub init : (is_writer : ℕ → Bool) (h a : ℕ) → System
init is_writer h a = record {
  lib = first_published h;
  object = update (λ _. none) h (some a);
  alive = update (λ _. false) a true;
  heap = λ _. record { value1 = 0; value2 = 0 };
  user = update (λ i. if is_writer i then w_start else r_top 0) 0 joining;
  ops = λ _. 0;
}

pub data Reach (refuses : Bool) (n : ℕ) (is_writer : ℕ → Bool) (h a : ℕ) : System → Type 0 where
  start : Reach refuses n is_writer h a (init is_writer h a)
  later :
      {s t : System}
      → Reach refuses n is_writer h a s
      → Step refuses n s t
      → Reach refuses n is_writer h a t
