-- ===== src/Bench/Renew/Deleted.antt =====
-- Which objects are left when the threads are between two calls.
use atomsnap.Common.{
  false, ◌↔◌, ℕ, ◌<◌, ◌^◌, ◌≡◌, ◌⊎◌, inl, inr, refl, sym, ap, ◌∙◌, subst, Bool, true, none, some,
  arith, ℕ_discrete,
}
use atomsnap.Word.Pair.{handle_null, handle_of}
use atomsnap.Protocol.Machine as Library
use atomsnap.Protocol.Machine.{Pc}
use atomsnap.Protocol.Safety.{no_leak}
use atomsnap.Protocol.Client.{out_small, current_out, first_published_idle}
use atomsnap.Bench.Renew.Code.{w_got, r_got, w_top, r_top, User, System, object_of}
use atomsnap.Bench.Renew.Machine.{
  Move, inside, callback, acquire_version, get_value1, get_value2, make_version, set_object,
  exchange_version, release_version, read_value1, read_value2, pick, pick_null, init, Reach, start,
  later,
}
use atomsnap.Bench.Renew.Invariant.{Inv}
use atomsnap.Bench.Renew.Kept.{
  Filled, Kept, value_one-Filled, value_two-Filled, read_one-Filled, read_two-Filled, go-Kept,
  quiet-Kept, inside-Kept, callback-Kept, make-Kept, exchange-Kept, set-Kept,
}
use atomsnap.Bench.Renew.Safety.{Reach-Inv}

module _ {n : ℕ} {s : System} (few : n < 2 ^ 32) (inv : Inv n s) (kept : Kept s) (i : ℕ)
    (lt : i < n) where
  went_Filled :
      {P Q : Type 0} (u w w' : User)
      → (P × (u ≡ w)) ⊎ (Q × (u ≡ w'))
      → Filled w
      → Filled w'
      → Filled u
  went_Filled u w w' (inl (p, e)) f f' = subst Filled (sym e) f
  went_Filled u w w' (inr (q, e)) f f' = subst Filled (sym e) f'

  Move-Kept : {t : System} → Move i s t → Kept t
  Move-Kept (inside mv busy going) = inside-Kept few inv kept i lt mv busy going
  Move-Kept (callback v at) = callback-Kept few inv kept i lt v at
  Move-Kept (acquire_version u at none_held went) =
      quiet-Kept few inv kept i lt (Library.acquire 0 at none_held) u refl (λ k. ground arith) refl
        (inr (went_Filled u w_got r_got went (λ v v' z. cc) (λ v v' z. cc)))
  Move-Kept (get_value1 at here) =
      go-Kept few inv kept i lt _ (value_one-Filled s.heap (object_of s (s.lib.thr i).held))
  Move-Kept (get_value2 v at here) =
      go-Kept few inv kept i lt _ (value_two-Filled s.heap v (object_of s (s.lib.thr i).held))
  Move-Kept (make_version v v' h at none_made is_free small here) =
      make-Kept few inv kept i lt v v' h at none_made is_free small
  Move-Kept (set_object v v' h a at made_h dead here) =
      set-Kept few inv kept i lt v v' h a made_h here
  Move-Kept (exchange_version h at made_h here) = exchange-Kept few inv kept i lt h at made_h
  Move-Kept (release_version h u at held_h went) =
      quiet-Kept few inv kept i lt (Library.release h at held_h) u refl (λ k. refl) refl
        (inr (went_Filled u w_top r_top went (λ v v' z. cc) (λ v v' z. cc)))
  Move-Kept (read_value1 at here) =
      go-Kept few inv kept i lt _ (read_one-Filled s.heap (object_of s (s.lib.thr i).held))
  Move-Kept (read_value2 v at here) =
      go-Kept few inv kept i lt _ (read_two-Filled s.heap v (object_of s (s.lib.thr i).held))

module _ {n : ℕ} (is_writer : ℕ → Bool) (h a : ℕ) (lt : 0 < n) (small : h < handle_null)
    (few : n < 2 ^ 32) where
  start-Kept : Kept (init is_writer h a)
  start-Kept = record {
    unset = λ j h' v v' e z. ground (arith, first_published_idle h j, e);
    placed = λ b e. (h, ground arith, ground (arith, e));
    one_gate = λ k ne. ground (arith, ne);
  }

  Reach-Kept : {s : System} → Reach false n is_writer h a s → Kept s
  Reach-Kept start = start-Kept
  Reach-Kept (later r (pick_null i inside_n refused mv)) = ground (arith, refused)
  Reach-Kept (later r (pick i inside_n mv)) =
      Move-Kept few (Reach-Inv is_writer h a lt small few r) (Reach-Kept r) i inside_n mv

-- As long as no call of `atomsnap_make_version` returns NULL: with at least one and fewer than 2^32
-- threads, in every state that they reach from the end of `main`'s set-up in which every thread is
-- between two calls, holds no version and keeps none unpublished, the only object that is not deleted
-- is that of the published version.
pub one_object_left :
    {n : ℕ} (is_writer : ℕ → Bool) (h a : ℕ) {s : System}
    → 0 < n
    → n < 2 ^ 32
    → h < handle_null
    → Reach false n is_writer h a s
    → ((i : ℕ)
        → ((s.lib.thr i).pc ≡ Pc.ready)
          × ((s.lib.thr i).held ≡ none)
          × ((s.lib.thr i).fresh ≡ none))
    → (b : ℕ) → (s.alive b ≡ true) ↔ (s.object (handle_of (s.lib.mem.cb 0)) ≡ some b)
one_object_left is_writer h a {s} lt few small r quiet b =
    let inv = Reach-Inv is_writer h a lt small few r in
    let kept = Reach-Kept is_writer h a lt small few r in
    let c0 = handle_of (s.lib.mem.cb 0) in
    let there : s.alive b ≡ true → s.object c0 ≡ some b = λ e.
      let (h', out, z) = kept.placed b e in
      elim (no_leak few inv.base.reach quiet h') [
        | inl free ↦ ground (arith, out, free)
        | inr (k, at) ↦ elim (ℕ_discrete k 0) [
          | yes zero_k ↦
              ap (λ (j : ℕ). s.object (handle_of (s.lib.mem.cb j))) (sym zero_k)
              ∙ ap s.object at
              ∙ z
          | no ne ↦
              absurd (omega (arith, at, kept.one_gate k ne, out_small few inv.base.reach h' out))
        ]
      ] in
    (there, λ e. inv.base.alive_at c0 b (current_out few inv.base.reach 0 inv.current_real) e)
