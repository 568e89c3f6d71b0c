-- ===== src/Load/Snap/Versions.antt =====
-- A version is made and published.
use atomsnap.Common.{
  ◌⊎◌, ℕ, ◌<◌, ◌^◌, ◌≡◌, ◌≢◌, inl, inr, refl, sym, ap, ◌∙◌, subst, true, false, none, some, arith,
  ℕ_discrete,
}
use atomsnap.Common.Family.{update, update_cases, update_both}
use atomsnap.Word.Pair.{refs_of, handle_null, handle_of}
use atomsnap.Protocol.Machine.{Pc, comparing, Thread, after_swap, make, exchange}
use atomsnap.Protocol.Client.{fresh_out}
use atomsnap.Protocol.Objects.{out-Same, make-ne-out}
use atomsnap.Protocol.Objects.Versions.{make-Objects, publish-Objects}
use atomsnap.Load.Snap.Code.{Round, User, w_top, w_made, w_set, w_swap, System, gate_of, after}
use atomsnap.Load.Snap.Invariant.{Good, Stands, block_of, unset, Inv, known, kept-Stands}

module _ {n : ℕ} {s : System} (few : n < 2 ^ 32) (inv : Inv n s) (i : ℕ) (lt : i < n) where
  -- A thread between two rounds has no block, and then has none either.
  no_block :
      (u u' : User) (j a : ℕ)
      → s.user i ≡ u
      → block_of u' ≡ none
      → block_of (update s.user i u' j) ≡ some a
      → block_of (s.user j) ≡ some a
  no_block u u' j a here e =
      update_cases (λ j v. block_of v ≡ some a → block_of (s.user j) ≡ some a) s.user i u'
        (λ z. ground (arith, e, z)) (λ j ne z. z) j

  no_block_back :
      (u u' : User) (j a : ℕ)
      → s.user i ≡ u
      → block_of u ≡ none
      → block_of (s.user j) ≡ some a
      → block_of (update s.user i u' j) ≡ some a
  no_block_back u u' j a here e z =
      update_cases (λ j v. block_of (s.user j) ≡ some a → block_of v ≡ some a) s.user i u'
        (λ z'. ground (arith, ap block_of here, e, z')) (λ j ne z'. z') j z

  pub make-Inv :
      (h : ℕ) (at : (s.lib.thr i).pc ≡ Pc.ready) (none_made : (s.lib.thr i).fresh ≡ none)
      (is_free : s.lib.mem.avail h ≡ true) (small : h < handle_null) (r : Round)
      → s.user i ≡ w_top r
      → Inv n (record (after s i (make h at none_made is_free small) (w_made r)) {
        object = update s.object h none;
      })
  make-Inv h at none_made is_free small r here =
      let t' : Thread = record (s.lib.thr i) { fresh = some h } in
      let kept : (h' : ℕ) → s.lib.mem.avail h' ≡ false → update s.object h none h' ≡ s.object h' =
        λ h' out. ground (arith, make-ne-out s.lib.mem h h' is_free out) in
      let same =
        out-Same few inv.base (update s.object h none) s.heap s.heap
          (λ h' b out z. (kept h' out ∙ z, refl)) in
      record {
        shown = update inv.shown h false;
        base = make-Objects few inv.base i lt h at none_made is_free small;
        good = λ h' out on.
            let ne : h ≢ h' = ground (arith, on) in
            let out' : s.lib.mem.avail h' ≡ false = ground (arith, out, ne) in
            let (a, z, eq) = inv.good h' out' (ground (arith, on, ne)) in (a, kept h' out' ∙ z, eq);
        block_taken = λ j a e. inv.block_taken j a (no_block (w_top r) (w_made r) j a here refl e);
        block_own = λ j a h' e out z.
            ground
              (arith, inv.block_own j a h' (no_block (w_top r) (w_made r) j a here refl e), out, z);
        block_one = λ j k a e f.
            inv.block_one j k a (no_block (w_top r) (w_made r) j a here refl e)
              (no_block (w_top r) (w_made r) k a here refl f);
        own_empty =
            update_both
              (λ j t u.
                (h' : ℕ) → t.fresh ≡ some h' → unset u ≡ true → update s.object h none h' ≡ none)
              s.lib.thr s.user i t' (w_made r) (λ h' e z. ground (arith, e))
              (λ j ne h' e z. ground (arith, inv.own_empty j h' e z));
        placed = λ a e. elim (inv.placed a e) [
          | inl (j, z) ↦ inl (j, no_block_back (w_top r) (w_made r) j a here refl z)
          | inr (h', out, z) ↦ inr (h', ground (arith, out), kept h' out ∙ z)
        ];
        stands =
            update_both (λ j t u'. Stands (update s.object h none) s.heap t.fresh t.held u')
              s.lib.thr s.user i t' (w_made r) tt
              (λ j ne.
                kept-Stands s.object (update s.object h none) s.heap s.heap (s.lib.thr j).fresh
                  (s.lib.thr j).held (s.user j) (same j).0 (same j).1 (λ a z. refl) (inv.stands j));
        calls =
            update_cases (λ j t. (k e new c : ℕ) → t.pc ≢ comparing k e new c) s.lib.thr i t'
              (λ k e new c z. inv.calls i k e new c z) (λ j ne. inv.calls j);
      }

  pub exchange-Inv :
      (h : ℕ) (r : Round) (at : (s.lib.thr i).pc ≡ Pc.ready) (made_h : (s.lib.thr i).fresh ≡ some h)
      → s.user i ≡ w_set r
      → Inv n (after s i (exchange (gate_of r) (some h) at (inr (sym made_h))) (w_swap r))
  exchange-Inv h r at made_h here =
      let st = known few inv i lt (w_set r) here in
      let same : st.0 ≡ h = ground (arith, st.1, made_h) in
      let good_h : Good s.object s.heap h = subst (Good s.object s.heap) same st.2 in
      let out = fresh_out few inv.base.reach i h made_h in
      let k = gate_of r in
      let t' : Thread = record (s.lib.thr i) {
        fresh = none;
        pc = after_swap (handle_of (s.lib.mem.cb k)) (refs_of (s.lib.mem.cb k));
      } in
      let gates : (k' : ℕ)
          → (handle_of (update s.lib.mem.cb k h k') ≡ h)
            ⊎ (handle_of (update s.lib.mem.cb k h k') ≡ handle_of (s.lib.mem.cb k')) =
        λ k'. elim (ℕ_discrete k k') [
          | yes e ↦ inl (ground (arith, e, out.1))
          | no ne ↦ inr (ground (arith, ne))
        ] in
      record {
        shown = update inv.shown h true;
        base =
            publish-Objects few inv.base i lt (exchange k (some h) at (inr (sym made_h))) h made_h
              refl refl refl gates;
        good = λ h' out' on. elim (ℕ_discrete h h') [
          | yes e ↦ subst (Good s.object s.heap) e good_h
          | no ne ↦ inv.good h' out' (ground (arith, on, ne))
        ];
        block_taken = λ j a e. inv.block_taken j a (no_block (w_set r) (w_swap r) j a here refl e);
        block_own =
            λ j a h' e. inv.block_own j a h' (no_block (w_set r) (w_swap r) j a here refl e);
        block_one = λ j k a e f.
            inv.block_one j k a (no_block (w_set r) (w_swap r) j a here refl e)
              (no_block (w_set r) (w_swap r) k a here refl f);
        own_empty =
            update_both
              (λ j t u. (h' : ℕ) → t.fresh ≡ some h' → unset u ≡ true → s.object h' ≡ none)
              s.lib.thr s.user i t' (w_swap r) (λ h' e z. ground (arith, z))
              (λ j ne. inv.own_empty j);
        placed = λ a e. elim (inv.placed a e) [
          | inl (j, z) ↦ inl (j, no_block_back (w_set r) (w_swap r) j a here refl z)
          | inr there ↦ inr there
        ];
        stands =
            update_both (λ j t u'. Stands s.object s.heap t.fresh t.held u') s.lib.thr s.user i t'
              (w_swap r) tt (λ j ne. inv.stands j);
        calls =
            update_cases (λ j t. (k e new c : ℕ) → t.pc ≢ comparing k e new c) s.lib.thr i t'
              (λ k' e new c z. ground (arith, z)) (λ j ne. inv.calls j);
      }
