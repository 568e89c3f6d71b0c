-- ===== src/Api/Published/Finalize.antt =====
-- `try_finalize` and `finalize_and_free` on a version in use.
use atomsnap.Common.{
  ℕ, ◌<◌, ◌≡◌, ◌≢◌, refl, true, false, some, arith, ◌∷◌, ==_iff, ==_ne, Bool-cases, inl, inr, ◌∙◌,
  ℕ_discrete,
}
use atomsnap.Common.Outcome.{ok}
use atomsnap.Word.Pair.{inner_cnt, inner_flags, has_detached, finalized_state}
use atomsnap.Word.Handle.{max_arenas, slots_per_arena, construct_handle}
use atomsnap.Pool.Memory.{Version, Host}
use atomsnap.Pool.Slots.{free_slot}
use atomsnap.Pool.Stack.Push.{pushed, free_slot_lem}
use atomsnap.Api.World.{Gate, World, on_pool_ok, Ptr}
use atomsnap.Api.Versions.{run_free_impl, finalize_and_free, claim_and_free, try_finalize}
use atomsnap.Api.Published.Defs.{with_inner}
use atomsnap.Api.Published.Used.{
  at_slot, load_version_lem, store_inner_lem, ended_calls, IsUsed, with_inner-IsUsed,
  with_inner-calls,
}

-- The world after the callback of `f` and the return of the slot.
abbrev pub reclaimed : World → (f a i id : ℕ) → World
reclaimed w f a i id = record w { callbacks = ended_calls w f a i; pool = pushed w.pool a i id }

run_free_impl_lem :
    (v : Version) (w : World) (g f : ℕ) (gate : Gate)
    → v.gate ≡ some g
    → w.gates g ≡ some gate
    → gate.free_impl ≡ some f
    → run_free_impl v w
      ≡ ok tt (record w {
        callbacks =
            record { function = f; object = v.object; free_context = v.free_context } ∷ w.callbacks;
      })
unfolding run_free_impl
run_free_impl_lem v w g f gate owner gate_is impl = ground arith

pub finalize_and_free_lem :
    (host : Host) (w : World) (g f a i id : ℕ) (gate : Gate)
    → id < max_arenas
    → i < slots_per_arena
    → w.pool.g_arena_table id ≡ some a
    → (at_slot w a i).gate ≡ some g
    → (at_slot w a i).link ≡ construct_handle id i
    → w.gates g ≡ some gate
    → gate.free_impl ≡ some f
    → finalize_and_free host (a, i) w ≡ ok tt (reclaimed w f a i id)
unfolding finalize_and_free
finalize_and_free_lem host w g f a i id gate small fits table owner link gate_is impl =
    rw
      (load_version_lem a i fits w, run_free_impl_lem (at_slot w a i) w g f gate owner gate_is impl)
      (on_pool_ok (free_slot host.spurious (a, i)) (record w { callbacks = ended_calls w f a i }) tt
        (pushed w.pool a i id) (free_slot_lem host.spurious a i id w.pool small table fits link))

pub try_finalize_keeps :
    (host : Host) (v : Ptr) (st : ℕ) (w : World)
    → has_detached (inner_flags st) ≡ false
    → try_finalize host v st w ≡ ok tt w
unfolding try_finalize
try_finalize_keeps host v st w off = rw off refl

-- The tests of `try_finalize`.
pub try_finalize_claims :
    (host : Host) (v : Ptr) (st : ℕ) (w : World)
    → has_detached (inner_flags st) ≡ true
    → inner_cnt st ≡ 0
    → try_finalize host v st w ≡ claim_and_free host v w
unfolding try_finalize
try_finalize_claims host v st w on zero_cnt = rw (on, (==_iff (inner_cnt st) 0).1 zero_cnt)

pub try_finalize_waits :
    (host : Host) (v : Ptr) (st : ℕ) (w : World)
    → inner_cnt st ≢ 0
    → try_finalize host v st w ≡ ok tt w
unfolding try_finalize
try_finalize_waits host v st w more = elim (Bool-cases (has_detached (inner_flags st))) [
  | inl on ↦ rw (on, ==_ne (inner_cnt st) 0 more)
  | inr off ↦ rw off
]

-- The world after the end of a version whose word is DETACHED with a counter of zero.
abbrev pub ended : World → (f a i id : ℕ) → World
ended w f a i id = reclaimed (with_inner w a i (finalized_state 1)) f a i id

-- The end of a version calls its callback once.
pub ended-calls :
    (w : World) (f a i id s : ℕ)
    → i < slots_per_arena
    → (ended (with_inner w a i s) f a i id).callbacks ≡ ended_calls w f a i
ended-calls w f a i id s fits =
    with_inner-calls (with_inner w a i s) a i (finalized_state 1) f fits
    ∙ with_inner-calls w a i s f fits

module _ {g f a i id : ℕ} (host : Host) where
  pub claim_and_free_lem :
      (w : World) → IsUsed g f a i id 1 w → claim_and_free host (a, i) w ≡ ok tt (ended w f a i id)
  unfolding claim_and_free ℕ_discrete
  claim_and_free_lem w used =
      let next = with_inner-IsUsed w (finalized_state 1) used in
      rw (load_version_lem a i used.fits w, store_inner_lem a i used.fits w _, used.inner)
        (finalize_and_free_lem host _ g f a i id next.gate next.arena next.fits next.table
          next.owner next.link next.gate_is next.impl)

  pub try_finalize_ends :
      (w : World) → IsUsed g f a i id 1 w → try_finalize host (a, i) 1 w ≡ ok tt (ended w f a i id)
  unfolding ℕ_discrete
  try_finalize_ends w used =
      try_finalize_claims host (a, i) 1 w refl refl ∙ claim_and_free_lem w used
