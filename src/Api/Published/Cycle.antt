-- ===== src/Api/Published/Cycle.antt =====
-- A published version from its acquires to its last release: when its callback runs.
use atomsnap.Common.{
  ℕ, zero, suc, ◌+◌, ◌*◌, ◌-◌, ◌^◌, ◌<◌, ◌≡◌, ◌≢◌, refl, none, some, arith, ◌∙◌, subst,
}
use atomsnap.Common.Outcome.{ok, Cmd, ◌>>◌, pure}
use atomsnap.Word.Pair.{u32, handle_null, inner_f_detached}
use atomsnap.Pool.Memory.{Host}
use atomsnap.Api.World.{Gate, World}
use atomsnap.Api.Swaps.{atomsnap_release_version, atomsnap_exchange_version_slot, self_handle}
use atomsnap.Api.Published.Defs.{IsPublished, with_inner, with_gate}
use atomsnap.Api.Published.Used.{
  IsUsed, ended_calls, with_inner-calls, with_inner-callbacks, with_inner-IsUsed,
}
use atomsnap.Api.Published.Finalize.{ended, ended-calls}
use atomsnap.Api.Published.Ends.{release_counts, release_last}
use atomsnap.Api.Published.Exchange.{
  acquire_times, acquire_times-IsPublished, swapped, swapped-IsUsed, exchange-eq, exchange-ne,
}

-- `n` releases of one version.
unfoldable pub release_times : Host → (n a i : ℕ) → Cmd World (Unit {0})
release_times host zero a i = pure tt
release_times host (suc n) a i = do
  atomsnap_release_version host (some (a, i))
  release_times host n a i

module _ {g f a i id : ℕ} (host : Host) where
  -- A release of a detached version that another reader still holds.
  next_release :
      (n : ℕ) (w : World)
      → suc n < 2 ^ 32
      → IsUsed g f a i id ((2 ^ 32 - 1 - suc n) * 2 ^ 32 + 1) w
      → atomsnap_release_version host (some (a, i)) w
        ≡ ok tt (with_inner w a i ((2 ^ 32 - 1 - n) * 2 ^ 32 + 1))
  next_release n w few used =
      subst
        (λ c.
          atomsnap_release_version host (some (a, i)) w ≡ ok tt (with_inner w a i (c * 2 ^ 32 + 1)))
        (omega (arith, few))
        (release_counts host used (2 ^ 32 - 1 - suc n) 1 (omega (arith, few)) (omega arith) refl)

  -- A detached version that `suc n` readers hold: its callback runs in the last of their releases, once,
  -- with its object and its context, and in none of the `n` releases before.
  pub last_release_frees :
      (n : ℕ) (w : World)
      → n < 2 ^ 32
      → IsUsed g f a i id ((2 ^ 32 - 1 - n) * 2 ^ 32 + 1) w
      → (w1 w2 : World) × (release_times host n a i w ≡ ok tt w1)
        × (w1.callbacks ≡ w.callbacks)
        × (atomsnap_release_version host (some (a, i)) w1 ≡ ok tt w2)
        × (w2.callbacks ≡ ended_calls w f a i)
  unfolding release_times
  last_release_frees zero w few used = (
    w,
    ended (with_inner w a i 1) f a i id,
    refl,
    refl,
    release_last host used refl,
    ended-calls w f a i id 1 used.fits,
  )
  last_release_frees (suc n) w few used =
      let s = (2 ^ 32 - 1 - n) * 2 ^ 32 + 1 in
      let (w1, w2, run1, calls1, run2, calls2) =
        last_release_frees n (with_inner w a i s) (omega (arith, few))
          (with_inner-IsUsed w s used) in
      (
        w1,
        w2,
        rw (next_release n w few used) run1,
        calls1 ∙ with_inner-callbacks w a i s,
        run2,
        calls2 ∙ with_inner-calls w a i s f used.fits,
      )

-- The calls after the end, from the parts of the world that acquires and the swap keep.
kept_calls :
    (w w1 : World) (f a i : ℕ)
    → w1.callbacks ≡ w.callbacks
    → w1.pool ≡ w.pool
    → ended_calls w1 f a i ≡ ended_calls w f a i
kept_calls w w1 f a i calls pool = rw (calls, pool) refl

with_gate-calls :
    (w : World) (g f a i : ℕ) (gate : Gate)
    → ended_calls (with_gate w g gate) f a i ≡ ended_calls w f a i
unfolding with_gate
with_gate-calls w g f a i gate = refl

with_gate-callbacks :
    (w : World) (g : ℕ) (gate : Gate) → (with_gate w g gate).callbacks ≡ w.callbacks
unfolding with_gate
with_gate-callbacks w g gate = refl

module _ {g k a i id f refs cnt : ℕ} (host : Host) (n : ℕ) (w : World)
    (published : IsPublished g k a i id f refs cnt w) where
  -- If after `n` acquires the outer count modulo 2^32 is the inner count of the version, an exchange
  -- of the slot for NULL calls the callback, once, with the object and the context of the version.
  pub exchange_frees :
      u32 (refs + n) ≡ cnt
      → (w1 w2 : World) × (acquire_times n g k w ≡ ok tt w1)
        × (atomsnap_exchange_version_slot host g k none w1 ≡ ok tt w2)
        × (w2.callbacks ≡ ended_calls w f a i)
  unfolding self_handle
  exchange_frees same =
      let (w1, run1, published1, calls1, pool1) = acquire_times-IsPublished n w published in
      let w2 = swapped host none handle_null refl published1 in
      (
        w1,
        ended (with_inner w2 a i 1) f a i id,
        run1,
        exchange-eq host none handle_null refl published1 same,
        ended-calls w2 f a i id 1 published1.fits
            ∙ with_gate-calls w1 g f a i _
            ∙ kept_calls w w1 f a i calls1 pool1,
      )

  -- If after `n` acquires the outer count modulo 2^32 is not the inner count, an exchange of the slot
  -- for NULL calls no callback; the version is DETACHED, and its counter is the inner count less the
  -- outer one, modulo 2^32.
  pub exchange_defers :
      u32 (refs + n) ≢ cnt
      → (w1 w2 : World) × (acquire_times n g k w ≡ ok tt w1)
        × (atomsnap_exchange_version_slot host g k none w1 ≡ ok tt w2)
        × (w2.callbacks ≡ w.callbacks)
        × IsUsed g f a i id (u32 (cnt + 2 ^ 32 - u32 (refs + n)) * 2 ^ 32 + inner_f_detached) w2
  unfolding self_handle
  exchange_defers differ =
      let (w1, run1, published1, calls1, pool1) = acquire_times-IsPublished n w published in
      let w2 = swapped host none handle_null refl published1 in
      let s = u32 (cnt + 2 ^ 32 - u32 (refs + n)) * 2 ^ 32 + inner_f_detached in
      (
        w1,
        with_inner w2 a i s,
        run1,
        exchange-ne host none handle_null refl published1 differ,
        with_inner-callbacks w2 a i s ∙ with_gate-callbacks w1 g _ ∙ calls1,
        with_inner-IsUsed w2 s (swapped-IsUsed host none handle_null refl published1),
      )
