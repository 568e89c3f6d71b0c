-- ===== src/Bench/Renew/Versions.antt =====
-- A version is made, gets its object, and replaces the published one.
use atomsnap.Common.{
  ℕ, ◌<◌, ◌^◌, ◌≡◌, ◌≢◌, ◌⊎◌, inl, inr, refl, sym, ◌∙◌, subst, true, false, none, some, arith,
  ℕ_discrete,
}
use atomsnap.Common.Family.{update, update_cases, update_both}
use atomsnap.Word.Pair.{refs_of, handle_null, handle_of}
use atomsnap.Protocol.Machine as Library
use atomsnap.Protocol.Machine.{Mem, Pc, comparing, reclaiming, Thread, version_of, after_swap}
use atomsnap.Protocol.Client.{fresh_out}
use atomsnap.Protocol.Objects.{out-Same, other-Same, make-ne-out, made-ne-shown}
use atomsnap.Protocol.Objects.Versions.{make-Objects, publish-Objects, set-Objects}
use atomsnap.Bench.Renew.Code.{Data, w_two, w_made, w_set, w_swap, System}
use atomsnap.Bench.Renew.Machine.{after}
use atomsnap.Bench.Renew.Invariant.{Good, Stands, Inv, kept-Stands, known}

module _ {n : ℕ} {s : System} (few : n < 2 ^ 32) (inv : Inv n s) (i : ℕ) (lt : i < n) where
  pub make-Inv :
      (v v' h : ℕ) (at : (s.lib.thr i).pc ≡ Pc.ready) (none_made : (s.lib.thr i).fresh ≡ none)
      (is_free : s.lib.mem.avail h ≡ true) (small : h < handle_null)
      → s.user i ≡ w_two v v'
      → Inv n (record (after s i (Library.make h at none_made is_free small) (w_made v v')) {
        object = update s.object h none;
      })
  make-Inv v v' h at none_made is_free small here =
      let t' : Thread = record (s.lib.thr i) { fresh = some h } in
      let kept : (h' : ℕ) → s.lib.mem.avail h' ≡ false → update s.object h none h' ≡ s.object h' =
        λ h' out. ground (arith, make-ne-out s.lib.mem h h' is_free out) in
      let same =
        out-Same few inv.base (update s.object h none) s.heap s.heap
          (λ h' b out z. (kept h' out ∙ z, refl)) in
      record {
        shown = update inv.shown h false;
        base = make-Objects few inv.base i lt h at none_made is_free small;
        good = λ h' out on.
            let ne : h ≢ h' = ground (arith, on) in
            let out' : s.lib.mem.avail h' ≡ false = ground (arith, out, ne) in
            let (a, z, eq) = inv.good h' out' (ground (arith, on, ne)) in (a, kept h' out' ∙ z, eq);
        current_real = inv.current_real;
        stands =
            update_both (λ j t u. Stands (update s.object h none) s.heap t.fresh t.held u) s.lib.thr
              s.user i t' (w_made v v') (known few inv i lt (w_two v v') here)
              (λ j ne.
                kept-Stands s.object (update s.object h none) s.heap s.heap (s.lib.thr j).fresh
                  (s.lib.thr j).held (same j).0 (same j).1 (s.user j) (inv.stands j));
        calls =
            update_cases (λ j t. (k e new c : ℕ) → t.pc ≢ comparing k e new c) s.lib.thr i t'
              (inv.calls i) (λ j ne. inv.calls j);
      }

  pub exchange-Inv :
      (h : ℕ) (at : (s.lib.thr i).pc ≡ Pc.ready) (made_h : (s.lib.thr i).fresh ≡ some h)
      → s.user i ≡ w_set
      → Inv n (after s i (Library.exchange 0 (some h) at (inr (sym made_h))) w_swap)
  exchange-Inv h at made_h here =
      let st = known few inv i lt w_set here in
      let same : st.0 ≡ h = ground (arith, st.1, made_h) in
      let good_h : Good s.object s.heap h = subst (Good s.object s.heap) same st.2 in
      let out = fresh_out few inv.base.reach i h made_h in
      let t' : Thread = record (s.lib.thr i) {
        fresh = none;
        pc = after_swap (handle_of (s.lib.mem.cb 0)) (refs_of (s.lib.mem.cb 0));
      } in
      let gates : (k : ℕ)
          → (handle_of (update s.lib.mem.cb 0 h k) ≡ h)
            ⊎ (handle_of (update s.lib.mem.cb 0 h k) ≡ handle_of (s.lib.mem.cb k)) =
        λ k. elim (ℕ_discrete 0 k) [
          | yes e ↦ inl (ground (arith, e, out.1))
          | no ne ↦ inr (ground (arith, ne))
        ] in
      record {
        shown = update inv.shown h true;
        base =
            publish-Objects few inv.base i lt (Library.exchange 0 (some h) at (inr (sym made_h))) h
              made_h refl refl refl gates;
        good = λ h' out' on. elim (ℕ_discrete h h') [
          | yes e ↦ subst (Good s.object s.heap) e good_h
          | no ne ↦ inv.good h' out' (ground (arith, on, ne))
        ];
        current_real = λ e. ground (arith, out.1, e);
        stands =
            update_both (λ j t u. Stands s.object s.heap t.fresh t.held u) s.lib.thr s.user i t'
              w_swap tt (λ j ne. inv.stands j);
        calls =
            update_cases (λ j t. (k e new c : ℕ) → t.pc ≢ comparing k e new c) s.lib.thr i t'
              (λ k e new c z. ground (arith, z)) (λ j ne. inv.calls j);
      }

  pub set-Inv :
      (v v' h a : ℕ)
      → (s.lib.thr i).fresh ≡ some h
      → s.alive a ≡ false
      → s.user i ≡ w_made v v'
      → Inv n (record s {
        object = update s.object h (some a);
        alive = update s.alive a true;
        heap = update s.heap a (record { value1 = v; value2 = v' });
        user = update s.user i w_set;
      })
  set-Inv v v' h a made_h dead here =
      let d : Data = record { value1 = v; value2 = v' } in
      let eq : v ≡ v' = known few inv i lt (w_made v v') here in
      let alone : (h' : ℕ) → s.lib.mem.avail h' ≡ false → s.object h' ≢ some a =
        λ h' out e. ground (arith, inv.base.alive_at h' a out e, dead) in
      let other : (h' b : ℕ)
          → s.lib.mem.avail h' ≡ false
          → s.object h' ≡ some b
          → update s.heap a d b ≡ s.heap b =
        λ h' b out z. ground (arith, alone h' out, z) in
      let kept : (h' : ℕ) → h ≢ h' → update s.object h (some a) h' ≡ s.object h' =
        λ h' ne. ground arith in
      let same =
        other-Same few inv.base (update s.object h (some a)) s.heap (update s.heap a d) i h made_h
          (λ h' b ne out z. (kept h' ne ∙ z, other h' b out z)) in
      record {
        shown = inv.shown;
        base =
            set-Objects few inv.base i lt h a (update s.alive a true) made_h alone (ground arith)
              (λ b e. ground (arith, e));
        good = λ h' out on.
            let (b, z, eq') = inv.good h' out on in
            (
              b,
              kept h' (made-ne-shown few inv.base i h h' made_h on) ∙ z,
              ground (arith, other h' b out z, eq'),
            );
        current_real = inv.current_real;
        stands =
            update_cases
              (λ j u.
                Stands (update s.object h (some a)) (update s.heap a d) (s.lib.thr j).fresh
                  (s.lib.thr j).held u)
              s.user i w_set (h, made_h, (a, ground arith, ground (arith, eq)))
              (λ j ne.
                kept-Stands s.object (update s.object h (some a)) s.heap (update s.heap a d)
                  (s.lib.thr j).fresh (s.lib.thr j).held (same j ne).0 (same j ne).1 (s.user j)
                  (inv.stands j));
        calls = inv.calls;
      }
