-- ===== src/Load/Snap/Objects.antt =====
-- A writer gives its block to its version.
use atomsnap.Common.{
  ℕ, ◌<◌, ◌^◌, ◌≡◌, ◌≢◌, ◌⊎◌, inl, inr, refl, sym, ap, ◌∙◌, true, false, none, some, arith,
  ℕ_discrete,
}
use atomsnap.Common.Family.{update, update_cases}
use atomsnap.Protocol.Objects.{other-Same, made_out, made-ne-made, made-ne-shown}
use atomsnap.Protocol.Objects.Versions.{set-Objects}
use atomsnap.Load.Snap.Code.{Round, w_full, w_set, System}
use atomsnap.Load.Snap.Invariant.{Stands, block_of, unset, Inv, known, kept-Stands}

module _ {n : ℕ} {s : System} (few : n < 2 ^ 32) (inv : Inv n s) (i : ℕ) (lt : i < n) where
  pub set-Inv :
      (h : ℕ) (r : Round) (a : ℕ)
      → s.user i ≡ w_full r a
      → (s.lib.thr i).fresh ≡ some h
      → Inv n (record s { object = update s.object h (some a); user = update s.user i (w_set r) })
  set-Inv h r a here made_h =
      let own : block_of (s.user i) ≡ some a = ap block_of here in
      let st : (s.heap a).v1 ≡ (s.heap a).v2 = known few inv i lt (w_full r a) here in
      let kept : (h' : ℕ) → h ≢ h' → update s.object h (some a) h' ≡ s.object h' =
        λ h' ne. ground arith in
      let alone : (h' b : ℕ)
          → s.lib.mem.avail h' ≡ false
          → update s.object h (some a) h' ≡ some b
          → ((h ≡ h') × (a ≡ b)) ⊎ ((a ≢ b) × (s.object h' ≡ some b)) =
        λ h' b out z. elim (ℕ_discrete h h') [
          | yes e ↦ inl (e, ground (arith, e, z))
          | no ne ↦
              let z' = sym (kept h' ne) ∙ z in
              inr ((λ e. inv.block_own i a h' own out (z' ∙ ap some (sym e))), z')
        ] in
      let stays : (j b : ℕ)
          → block_of (update s.user i (w_set r) j) ≡ some b
          → (i ≢ j) × (block_of (s.user j) ≡ some b) =
        λ j b.
          update_cases (λ j v. block_of v ≡ some b → (i ≢ j) × (block_of (s.user j) ≡ some b))
            s.user i (w_set r) (λ z. ground (arith, z)) (λ j ne z. (ne, z)) j in
      let same =
        other-Same few inv.base (update s.object h (some a)) s.heap s.heap i h made_h
          (λ h' b ne out z. (kept h' ne ∙ z, refl)) in
      record {
        shown = inv.shown;
        base =
            set-Objects few inv.base i lt h a s.taken made_h (λ h'. inv.block_own i a h' own)
              (inv.block_taken i a own) (λ b e. e);
        good = λ h' out on.
            let (b, z, eq) = inv.good h' out on in
            (b, kept h' (made-ne-shown few inv.base i h h' made_h on) ∙ z, eq);
        block_taken = λ j b z. inv.block_taken j b (stays j b z).1;
        block_own = λ j b h' z out z'. elim (alone h' b out z') [
          | inl (e, e') ↦ (stays j b z).0 (inv.block_one i j b (own ∙ ap some e') (stays j b z).1)
          | inr (ne, f) ↦ inv.block_own j b h' (stays j b z).1 out f
        ];
        block_one = λ j k b z z'. inv.block_one j k b (stays j b z).1 (stays k b z').1;
        own_empty =
            update_cases
              (λ j v.
                (h' : ℕ)
                → (s.lib.thr j).fresh ≡ some h'
                → unset v ≡ true
                → update s.object h (some a) h' ≡ none)
              s.user i (w_set r) (λ h' e z. ground (arith, z))
              (λ j ne h' e z.
                kept h' (made-ne-made few inv.base i j h h' ne made_h e) ∙ inv.own_empty j h' e z);
        placed = λ b e. elim (inv.placed b e) [
          | inl (j, z) ↦ elim (ℕ_discrete i j) [
            | yes w ↦ inr (h, made_out few inv.base i h made_h, ground (arith, ap s.user w, own, z))
            | no ne ↦ inl (j, ground (arith, z, ne))
          ]
          | inr (h', out, z) ↦ inr (
            h',
            out,
            kept h'
                  (λ w. ground (arith, inv.own_empty i h made_h (ap unset here), ap s.object w, z))
                ∙ z,
          )
        ];
        stands =
            update_cases
              (λ j v.
                Stands (update s.object h (some a)) s.heap (s.lib.thr j).fresh (s.lib.thr j).held v)
              s.user i (w_set r) (h, made_h, (a, ground arith, st))
              (λ j ne.
                kept-Stands s.object (update s.object h (some a)) s.heap s.heap (s.lib.thr j).fresh
                  (s.lib.thr j).held (s.user j) (same j ne).0 (same j ne).1 (λ b z. refl)
                  (inv.stands j));
        calls = inv.calls;
      }
