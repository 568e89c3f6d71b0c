-- ===== src/Api/Compare.antt =====
-- A compare-exchange is an exchange when the expected version is current, and nothing otherwise.
use atomsnap.Common.{
  if◌then◌else◌, ◌==◌, ℕ_discrete, ℕ, zero, suc, ◌≡◌, ◌≢◌, refl, true, false, Option, some, ap, ◌∙◌,
  sym, ==_ne, ==_iff,
}
use atomsnap.Common.Outcome.{Outcome, ok, stopped, fault, pure, and_then, ◌>>◌}
use atomsnap.Word.Pair.{handle_of, refs_of}
use atomsnap.Pool.Memory.{Host}
use atomsnap.Api.World.{World, Ptr}
use atomsnap.Api.Gates.{load_cb, store_cb}
use atomsnap.Api.Swaps.{
  self_handle, detach_handle, exchange_loop, finish_exchange, atomsnap_exchange_version_slot,
  atomsnap_compare_exchange_version_slot,
}

module _ (g k e new_handle val : ℕ) (w : World) (current : load_cb g k w ≡ ok val w) where
  -- Spurious failures read the same block again.
  exchange_loop_spurious :
      (n : ℕ)
      → handle_of val ≡ e
      → exchange_loop n g k e new_handle val w ≡ (do store_cb g k new_handle; pure (some val)) w
  unfolding exchange_loop
  exchange_loop_spurious zero hit = rw ((==_iff (handle_of val) e).1 hit)
  exchange_loop_spurious (suc n) hit =
      rw ((==_iff (handle_of val) e).1 hit, current) (exchange_loop_spurious n hit)

finish_same :
    (host : Host) (e val : ℕ) (o : Outcome World (Unit {0}))
    → and_then (and_then o (λ _. ok (some val))) (finish_exchange host e)
      ≡ and_then (and_then o (λ _. detach_handle host e (refs_of val))) (λ _. ok true)
unfolding finish_exchange
finish_same host e val (ok u s) = refl
finish_same host e val stopped = refl
finish_same host e val fault = refl

module _ (host : Host) (g k e new_handle val : ℕ) (expected new_ver : Option Ptr) (w : World)
    (new_is : self_handle new_ver w ≡ ok new_handle w) (exp_is : self_handle expected w ≡ ok e w)
    (current : load_cb g k w ≡ ok val w) where
  compare_exchange_hit :
      handle_of val ≡ e
      → atomsnap_compare_exchange_version_slot host g k expected new_ver w
        ≡ (do atomsnap_exchange_version_slot host g k new_ver; pure true) w
  unfolding atomsnap_compare_exchange_version_slot atomsnap_exchange_version_slot
  compare_exchange_hit hit =
      rw (new_is, exp_is, current, (==_iff (handle_of val) e).1 hit)
        (ap (λ (o : Outcome World (Option ℕ)). and_then o (finish_exchange host e))
            (exchange_loop_spurious g k e new_handle val w current host.spurious hit)
          ∙ finish_same host e val (store_cb g k new_handle w)
          ∙ ap
              (λ (h : ℕ).
                and_then
                  (and_then (store_cb g k new_handle w) (λ _. detach_handle host h (refs_of val)))
                  (λ _. ok true))
              (sym hit))

  compare_exchange_miss :
      handle_of val ≢ e
      → atomsnap_compare_exchange_version_slot host g k expected new_ver w ≡ ok false w
  unfolding atomsnap_compare_exchange_version_slot
  compare_exchange_miss other = rw (new_is, exp_is, current, ==_ne (handle_of val) e other)

  -- If the control block has the handle of the expected version, the compare-exchange does what the
  -- exchange does and returns true, whatever the number of spurious failures. Else it returns false and
  -- changes nothing.
  pub compare_exchange_lem :
      atomsnap_compare_exchange_version_slot host g k expected new_ver w
      ≡ (if handle_of val == e
            then (do atomsnap_exchange_version_slot host g k new_ver; pure true)
            else pure false)
          w
  compare_exchange_lem = elim (ℕ_discrete (handle_of val) e) [
    | yes hit ↦ compare_exchange_hit hit ∙ rw ((==_iff (handle_of val) e).1 hit) refl
    | no other ↦ compare_exchange_miss other ∙ rw (==_ne (handle_of val) e other) refl
  ]
