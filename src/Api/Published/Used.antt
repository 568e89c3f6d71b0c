-- ===== src/Api/Published/Used.antt =====
-- A version in use: its slot, its word, and what a store of another word keeps.
use atomsnap.Common.{ℕ, zero, suc, ◌*◌, ◌^◌, ◌<◌, ◌≡◌, refl, some, arith, List, ◌∷◌, ap, ◌∙◌}
use atomsnap.Common.Family.{update}
use atomsnap.Common.Outcome.{ok}
use atomsnap.Word.Pair.{detached_state}
use atomsnap.Word.Handle.{max_arenas, slots_per_arena, construct_handle}
use atomsnap.Pool.Memory.{Version, Pool, load_slot, store_slot}
use atomsnap.Api.World.{Gate, World, on_pool_ok, Callback, load_version, store_version}
use atomsnap.Api.Versions.{adjust_loop}
use atomsnap.Api.Published.Defs.{IsPublished, with_gate, with_inner}

-- A version by the address of its arena and its index.
abbrev pub at_slot : World → (a i : ℕ) → Version
at_slot w a i = (w.pool.arenas a).slots i

module _ (a i : ℕ) (fits : i < slots_per_arena) where
  pub load_version_lem : (w : World) → load_version (a, i) w ≡ ok (at_slot w a i) w
  unfolding load_slot
  load_version_lem w = ground arith

  store_slot_lem :
      (p : Pool) (v : Version)
      → store_slot (a, i) v p
        ≡ ok tt (record p {
          arenas =
              update p.arenas a (record (p.arenas a) { slots = update (p.arenas a).slots i v });
        })
  unfolding store_slot
  store_slot_lem p v = ground arith

  pub store_inner_lem :
      (w : World) (s : ℕ)
      → store_version (a, i) (record (at_slot w a i) { inner_state = s }) w
        ≡ ok tt (with_inner w a i s)
  unfolding with_inner
  store_inner_lem w s =
      on_pool_ok (store_slot (a, i) (record (at_slot w a i) { inner_state = s })) w tt
        (with_inner w a i s).pool
        (store_slot_lem w.pool (record (at_slot w a i) { inner_state = s }))

  pub at_slot-with_inner :
      (w : World) (s : ℕ)
      → at_slot (with_inner w a i s) a i ≡ record (at_slot w a i) { inner_state = s }
  unfolding with_inner
  at_slot-with_inner w s = ground arith

  -- `detach_and_adjust` stores one word, however often its compare-exchange fails for no reason.
  pub adjust_loop_lem :
      (n : ℕ) (w : World) (refs : ℕ)
      → adjust_loop n (a, i) (at_slot w a i).inner_state refs w
        ≡ ok
            (detached_state (at_slot w a i).inner_state refs)
            (with_inner w a i (detached_state (at_slot w a i).inner_state refs))
  unfolding adjust_loop
  adjust_loop_lem zero w refs = rw (load_version_lem w, store_inner_lem w _)
  adjust_loop_lem (suc n) w refs = rw (load_version_lem w) (adjust_loop_lem n w refs)

-- The calls of callbacks after the version has ended.
abbrev pub ended_calls : World → (f a i : ℕ) → List Callback
ended_calls w f a i =
    record {
      function = f;
      object = (at_slot w a i).object;
      free_context = (at_slot w a i).free_context;
    }
    ∷ w.callbacks

pub with_inner-table :
    (w : World) (a i s id : ℕ)
    → (with_inner w a i s).pool.g_arena_table id ≡ w.pool.g_arena_table id
unfolding with_inner
with_inner-table w a i s id = refl

pub with_inner-gates : (w : World) (a i s g : ℕ) → (with_inner w a i s).gates g ≡ w.gates g
unfolding with_inner
with_inner-gates w a i s g = refl

-- A version whose word is `st`: its slot, its gate and its callback.
pub record IsUsed (g f a i id st : ℕ) (w : World) : Type 0 where
  pub gate : Gate
  pub gate_is : w.gates g ≡ some gate
  pub impl : gate.free_impl ≡ some f
  pub arena : id < max_arenas
  pub fits : i < slots_per_arena
  pub table : w.pool.g_arena_table id ≡ some a
  pub owner : (at_slot w a i).gate ≡ some g
  pub link : (at_slot w a i).link ≡ construct_handle id i
  pub inner : (at_slot w a i).inner_state ≡ st

-- A published version is in use.
pub published_used :
    {g k a i id f refs cnt : ℕ} {w : World}
    → IsPublished g k a i id f refs cnt w
    → IsUsed g f a i id (cnt * 2 ^ 32) w
published_used published = record {
  gate = published.gate;
  gate_is = published.gate_is;
  impl = published.impl;
  arena = published.arena;
  fits = published.fits;
  table = published.table;
  owner = published.owner;
  link = published.link;
  inner = published.inner;
}

pub with_inner-IsUsed :
    {g f a i id st : ℕ} (w : World) (s : ℕ)
    → IsUsed g f a i id st w
    → IsUsed g f a i id s (with_inner w a i s)
with_inner-IsUsed {g} {f} {a} {i} {id} {st} w s used = record {
  gate = used.gate;
  gate_is = with_inner-gates w a i s g ∙ used.gate_is;
  impl = used.impl;
  arena = used.arena;
  fits = used.fits;
  table = with_inner-table w a i s id ∙ used.table;
  owner = ap (λ v. v.gate) (at_slot-with_inner a i used.fits w s) ∙ used.owner;
  link = ap (λ v. v.link) (at_slot-with_inner a i used.fits w s) ∙ used.link;
  inner = ap (λ v. v.inner_state) (at_slot-with_inner a i used.fits w s);
}

pub with_inner-calls :
    (w : World) (a i s f : ℕ)
    → i < slots_per_arena
    → ended_calls (with_inner w a i s) f a i ≡ ended_calls w f a i
unfolding with_inner
with_inner-calls w a i s f fits = ground arith

pub with_inner-callbacks : (w : World) (a i s : ℕ) → (with_inner w a i s).callbacks ≡ w.callbacks
unfolding with_inner
with_inner-callbacks w a i s = refl

-- Another gate with the same callback leaves the version in use.
pub with_gate-IsUsed :
    {g f a i id st : ℕ} (w : World) (gate : Gate)
    → gate.free_impl ≡ some f
    → IsUsed g f a i id st w
    → IsUsed g f a i id st (with_gate w g gate)
unfolding with_gate
with_gate-IsUsed w gate impl used = record {
  gate = gate;
  gate_is = ground arith;
  impl = impl;
  arena = used.arena;
  fits = used.fits;
  table = used.table;
  owner = used.owner;
  link = used.link;
  inner = used.inner;
}
