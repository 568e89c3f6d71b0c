-- ===== src/Bench/Snap/Swap.antt =====
-- The compare-exchange that publishes a version.
use atomsnap.Common.{
  ◌⊎◌, ℕ, ◌+◌, ◌<◌, ◌^◌, ◌≡◌, inl, inr, refl, sym, ap, ◌∙◌, subst, true, false, none, some, ◌==◌,
  if◌then◌else◌, arith, ℕ_discrete,
}
use atomsnap.Common.Family.{update, update_both, sum, sum-suc}
use atomsnap.Word.Pair.{refs_of, handle_null, handle_of}
use atomsnap.Protocol.Machine.{comparing, Thread, cas_win, after_swap}
use atomsnap.Protocol.Objects.Versions.{publish-Objects}
use atomsnap.Bench.Snap.Machine.{w_cas, System, after}
use atomsnap.Bench.Snap.Invariant.{Full, Stands, Calls, Good, writes, Inv}
use atomsnap.Bench.Snap.Frame.{kept-Stands}
use atomsnap.Protocol.Client.{fresh_out}
use atomsnap.Protocol.Client.{comparing_expects}
use atomsnap.Bench.Snap.Calls.{current-Good}

module _ {n : ℕ} {s : System} (few : n < 2 ^ 32) (inv : Inv n s) (i : ℕ) (lt : i < n)
    (k e new c : ℕ) (at : (s.lib.thr i).pc ≡ comparing k e new c) (same : s.lib.mem.cb k ≡ c) where
  ca :
      (k ≡ 0)
      × (s.user i ≡ w_cas)
      × ((s.lib.thr i).held ≡ some e)
      × ((s.lib.thr i).fresh ≡ some new)
  ca = subst (Calls (s.lib.thr i) (s.user i)) at (inv.calls i)

  full : Full s.object s.heap (s.lib.thr i).fresh (s.lib.thr i).held
  full =
      let st : Stands s.object s.heap inv.cur (s.lib.thr i).fresh (s.lib.thr i).held w_cas =
        subst (Stands s.object s.heap inv.cur (s.lib.thr i).fresh (s.lib.thr i).held) ca.1
          (inv.stands i) in
      elim st [ inl none_made ↦ ground (arith, ca, none_made) | inr f ↦ f ]

  new_out : (s.lib.mem.avail new ≡ false) × (new < handle_null)
  new_out = fresh_out few inv.base.reach i new ca.3

  -- The version that is replaced is the one held.
  expected : handle_of (s.lib.mem.cb 0) ≡ e
  expected =
      subst (λ (j : ℕ). handle_of (s.lib.mem.cb j) ≡ e) ca.0
        (ap handle_of same ∙ comparing_expects few inv.base.reach i k e new c at)

  -- The values of the new version are equal, and one more than those of the version held.
  new_values :
      (a : ℕ) × (s.object new ≡ some a)
      × ((s.heap a).value1 ≡ inv.cur + 1)
      × ((s.heap a).value1 ≡ (s.heap a).value2)
  new_values =
      let (h, a, o, b, made_h, f, held_o, f', v, w) = full in
      let (b', g, eq, le) = current-Good few inv i lt in
      let same_h : h ≡ new = ground (arith, ca, made_h) in
      let same_o : o ≡ e = ground (arith, ca, held_o) in
      let old : s.object (handle_of (s.lib.mem.cb 0)) ≡ some b =
        ap s.object (expected ∙ sym same_o) ∙ f' in
      let same_b : b' ≡ b = ground (arith, g, old) in
      let eq' : (s.heap b).value1 ≡ (s.heap b).value2 =
        subst (λ (x : ℕ). (s.heap x).value1 ≡ (s.heap x).value2) same_b eq in
      (
        a,
        ap s.object (sym same_h) ∙ f,
        omega (arith, v, inv.current_value b old),
        omega (arith, v, w, eq'),
      )

  pub win-Inv : Inv n (after s i (cas_win k e new c at same) (s.user i))
  win-Inv =
      let (a, f, v, eq) = new_values in
      let spent : (if new == handle_null then (s.lib.thr i).fresh else none) ≡ none =
        ground (arith, new_out) in
      let t' : Thread = record (s.lib.thr i) {
        fresh = if new == handle_null then (s.lib.thr i).fresh else none;
        pc = after_swap e (refs_of c);
      } in
      let word : handle_of (update s.lib.mem.cb k new 0) ≡ new = ground (arith, ca, new_out) in
      let gates : (k' : ℕ)
          → (handle_of (update s.lib.mem.cb k new k') ≡ new)
            ⊎ (handle_of (update s.lib.mem.cb k new k') ≡ handle_of (s.lib.mem.cb k')) =
        λ k'. elim (ℕ_discrete k k') [
          | yes z ↦ inl (ground (arith, z, new_out))
          | no ne ↦ inr (ground (arith, ne))
        ] in
      record {
        shown = update inv.shown new true;
        cur = inv.cur + 1;
        base =
            publish-Objects few inv.base i lt (cas_win k e new c at same) new ca.3 refl spent refl
              gates;
        current_real = λ z. omega (arith, sym word ∙ z, new_out);
        current_value = λ a' z.
            let same_a : a ≡ a' = ground (arith, sym f ∙ ap s.object (sym word) ∙ z) in
            subst (λ (x : ℕ). (s.heap x).value1 ≡ inv.cur + 1) same_a v;
        total_writes =
            let more : sum n (writes (after s i (cas_win k e new c at same) (s.user i)))
                ≡ sum n (writes s) + 1 =
              sum-suc n (writes s) (writes (after s i (cas_win k e new c at same) (s.user i))) i lt
                (ground (arith, ca, new_out)) (λ j ne. ground (arith, ne)) in
            omega (arith, inv.total_writes, more);
        good = λ h out on. elim (ℕ_discrete new h) [
          | yes here ↦ subst (Good s.object s.heap (inv.cur + 1)) here (a, f, eq, omega (arith, v))
          | no ne ↦
              let (b, g, eq', le) = inv.good h out (ground (arith, on, ne)) in
              (b, g, eq', omega (arith, le))
        ];
        stands =
            update_both (λ j t u. Stands s.object s.heap (inv.cur + 1) t.fresh t.held u) s.lib.thr
              s.user i t' (s.user i)
              (subst (Stands s.object s.heap (inv.cur + 1) t'.fresh t'.held) (sym ca.1) (inl spent))
              (λ j ne.
                kept-Stands s.object s.object s.heap s.heap inv.cur (inv.cur + 1) (omega arith)
                  (s.lib.thr j).fresh (s.lib.thr j).held (s.user j) (λ h b z z'. (z', refl))
                  (λ h b z z'. (z', refl)) (inv.stands j));
        calls =
            update_both (λ j t u. Calls t u t.pc) s.lib.thr s.user i t' (s.user i) (ground arith)
              (λ j ne. inv.calls j);
      }
