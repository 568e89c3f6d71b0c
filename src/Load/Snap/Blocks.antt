-- ===== src/Load/Snap/Blocks.antt =====
-- A writer takes a block from the pool, and stores to it.
use atomsnap.Common.{
  ℕ, ◌<◌, ◌^◌, ◌≡◌, ◌≢◌, ◌⊎◌, inl, inr, refl, sym, ap, ◌∙◌, true, false, none, some, arith,
  ℕ_discrete,
}
use atomsnap.Common.Family.{update, update_cases}
use atomsnap.Protocol.Objects.{out-Same}
use atomsnap.Protocol.Objects.Versions.{grow-Objects}
use atomsnap.Load.Snap.Code.{
  AtomObj, Round, User, w_made, w_got, w_half, w_full, System, value_of, store_v1, store_v2,
}
use atomsnap.Load.Snap.Invariant.{Stands, block_of, unset, Inv, known, kept-Stands}

module _ {n : ℕ} {s : System} (few : n < 2 ^ 32) (inv : Inv n s) (i : ℕ) (lt : i < n) where
  pub alloc-Inv :
      (a : ℕ) (raw : AtomObj) (r : Round)
      → s.user i ≡ w_made r
      → s.taken a ≡ false
      → Inv n (record s {
        taken = update s.taken a true;
        heap = update s.heap a raw;
        user = update s.user i (w_got r a);
      })
  alloc-Inv a raw r here free =
      let other : (h b : ℕ)
          → s.lib.mem.avail h ≡ false
          → s.object h ≡ some b
          → update s.heap a raw b ≡ s.heap b =
        λ h b out z. ground (arith, inv.base.alive_at h b out z, free) in
      let block_ne : (j b : ℕ) → block_of (s.user j) ≡ some b → a ≢ b =
        λ j b z e. ground (arith, inv.block_taken j b z, ap s.taken e, free) in
      let one : (j b : ℕ)
          → block_of (update s.user i (w_got r a) j) ≡ some b
          → ((i ≡ j) × (a ≡ b)) ⊎ (block_of (s.user j) ≡ some b) =
        λ j b.
          update_cases
            (λ j u. block_of u ≡ some b → ((i ≡ j) × (a ≡ b)) ⊎ (block_of (s.user j) ≡ some b))
            s.user i (w_got r a) (λ z. inl (refl, ground (arith, z))) (λ j ne z. inr z) j in
      let same =
        out-Same few inv.base s.object s.heap (update s.heap a raw)
          (λ h b out z. (z, other h b out z)) in
      record {
        shown = inv.shown;
        base = grow-Objects few inv.base i lt (update s.taken a true) (λ b e. ground (arith, e));
        good = λ h out on.
            let (b, z, eq) = inv.good h out on in (b, z, ground (arith, other h b out z, eq));
        block_taken = λ j b z. elim (one j b z) [
          | inl (e, e') ↦ ground (arith, e')
          | inr z' ↦ ground (arith, inv.block_taken j b z')
        ];
        block_own = λ j b h z out z'. elim (one j b z) [
          | inl (e, e') ↦ ground (arith, inv.base.alive_at h b out z', ap s.taken e', free)
          | inr z'' ↦ inv.block_own j b h z'' out z'
        ];
        block_one = λ j k b z z'. elim (one j b z) [
          | inl (e, e') ↦ elim (one k b z') [
            | inl (f, f') ↦ sym e ∙ f
            | inr f ↦ absurd (block_ne k b f e')
          ]
          | inr e ↦ elim (one k b z') [
            | inl (f, f') ↦ absurd (block_ne j b e f')
            | inr f ↦ inv.block_one j k b e f
          ]
        ];
        own_empty =
            update_cases
              (λ j u. (h : ℕ) → (s.lib.thr j).fresh ≡ some h → unset u ≡ true → s.object h ≡ none)
              s.user i (w_got r a) (λ h e z. inv.own_empty i h e (ap unset here))
              (λ j ne. inv.own_empty j);
        placed = λ b e. elim (ℕ_discrete a b) [
          | yes here_b ↦ inl (i, ground (arith, here_b))
          | no ne ↦ elim (inv.placed b (ground (arith, e, ne))) [
            | inl (j, z) ↦ inl (j, ground (arith, z, ap block_of here))
            | inr there ↦ inr there
          ]
        ];
        stands =
            update_cases
              (λ j u.
                Stands s.object (update s.heap a raw) (s.lib.thr j).fresh (s.lib.thr j).held u)
              s.user i (w_got r a) tt
              (λ j ne.
                kept-Stands s.object s.object s.heap (update s.heap a raw) (s.lib.thr j).fresh
                  (s.lib.thr j).held (s.user j) (same j).0 (same j).1
                  (λ b z. ground (arith, block_ne j b z)) (inv.stands j));
        calls = inv.calls;
      }

  -- A store to the thread's block, which stays its block.
  write-Inv :
      (a : ℕ) (d : AtomObj) (u : User)
      → block_of (s.user i) ≡ some a
      → block_of u ≡ some a
      → unset u ≡ unset (s.user i)
      → Stands s.object (update s.heap a d) (s.lib.thr i).fresh (s.lib.thr i).held u
      → Inv n (record s { heap = update s.heap a d; user = update s.user i u })
  write-Inv a d u own own' version st =
      let other : (h b : ℕ)
          → s.lib.mem.avail h ≡ false
          → s.object h ≡ some b
          → update s.heap a d b ≡ s.heap b =
        λ h b out z. ground (arith, inv.block_own i a h own out, z) in
      let stays : (j b : ℕ)
          → block_of (update s.user i u j) ≡ some b
          → block_of (s.user j) ≡ some b =
        λ j b.
          update_cases (λ j v. block_of v ≡ some b → block_of (s.user j) ≡ some b) s.user i u
            (λ z. own ∙ sym own' ∙ z) (λ j ne z. z) j in
      let back : (j b : ℕ)
          → block_of (s.user j) ≡ some b
          → block_of (update s.user i u j) ≡ some b =
        λ j b.
          update_cases (λ j v. block_of (s.user j) ≡ some b → block_of v ≡ some b) s.user i u
            (λ z. own' ∙ sym own ∙ z) (λ j ne z. z) j in
      let same =
        out-Same few inv.base s.object s.heap (update s.heap a d)
          (λ h b out z. (z, other h b out z)) in
      record {
        shown = inv.shown;
        base = inv.base;
        good = λ h out on.
            let (b, z, eq) = inv.good h out on in (b, z, ground (arith, other h b out z, eq));
        block_taken = λ j b z. inv.block_taken j b (stays j b z);
        block_own = λ j b h z. inv.block_own j b h (stays j b z);
        block_one = λ j k b z z'. inv.block_one j k b (stays j b z) (stays k b z');
        own_empty =
            update_cases
              (λ j v. (h : ℕ) → (s.lib.thr j).fresh ≡ some h → unset v ≡ true → s.object h ≡ none)
              s.user i u (λ h e z. inv.own_empty i h e (sym version ∙ z)) (λ j ne. inv.own_empty j);
        placed = λ b e. elim (inv.placed b e) [
          | inl (j, z) ↦ inl (j, back j b z)
          | inr there ↦ inr there
        ];
        stands =
            update_cases
              (λ j v. Stands s.object (update s.heap a d) (s.lib.thr j).fresh (s.lib.thr j).held v)
              s.user i u st
              (λ j ne.
                kept-Stands s.object s.object s.heap (update s.heap a d) (s.lib.thr j).fresh
                  (s.lib.thr j).held (s.user j) (same j).0 (same j).1
                  (λ b z. ground (arith, inv.block_one i j a own, z, ne)) (inv.stands j));
        calls = inv.calls;
      }

  pub write_v1-Inv : (r : Round) (a : ℕ) → s.user i ≡ w_got r a → Inv n (store_v1 s i r a)
  write_v1-Inv r a here =
      let own : block_of (s.user i) ≡ some a = ap block_of here in
      rw (inv.block_taken i a own) (
        write-Inv a (record (s.heap a) { v1 = value_of r }) (w_half r a) own refl
          (sym (ap unset here)) (ground arith))

  pub write_v2-Inv : (r : Round) (a : ℕ) → s.user i ≡ w_half r a → Inv n (store_v2 s i r a)
  write_v2-Inv r a here =
      let own : block_of (s.user i) ≡ some a = ap block_of here in
      let st : (s.heap a).v1 ≡ value_of r = known few inv i lt (w_half r a) here in
      rw (inv.block_taken i a own) (
        write-Inv a (record (s.heap a) { v2 = value_of r }) (w_full r a) own refl
          (sym (ap unset here)) (ground (arith, st)))
