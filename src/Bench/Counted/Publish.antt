-- ===== src/Bench/Counted/Publish.antt =====
-- A writer takes a new object, and publishes the one that it has filled.
use atomsnap.Common.{
  ℕ, ◌+◌, ◌<◌, ◌≡◌, ◌≢◌, ◌⊎◌, inl, inr, refl, sym, ap, ◌∙◌, subst, none, some, arith,
}
use atomsnap.Common.Family.{update, update_cases, sum, sum-same, sum-suc}
use atomsnap.Bench.Counted.Machine.{
  Data, Pc, w_start, w_top, w_full, w_won, Thread, System, published_ops,
}
use atomsnap.Bench.Counted.Invariant.{At, Stands, writing, Mine, uncounted, writes, Inv, kept-At}

module _ {n : ℕ} {s : System} (inv : Inv n s) (i : ℕ) (lt : i < n) where
  abbrev g : ℕ
  g = s.mem.global_ptr

  pub stands_as :
      (p : Pc)
      → (s.thr i).pc ≡ p
      → At s.mem.heap
          (s.mem.heap g).value1
          (s.thr i).new_data
          (s.thr i).loaded
          (s.thr i).prev_value
          p
  stands_as p e =
      subst
        (At s.mem.heap (s.mem.heap g).value1 (s.thr i).new_data (s.thr i).loaded
          (s.thr i).prev_value)
        e (inv.stands i)

  counted_before :
      (p : Pc) (ops : ℕ) → (p ≡ w_start) ⊎ (p ≡ w_won) → published_ops p ops ≡ ops + uncounted p
  counted_before p ops (inl e) = rw e (omega arith)
  counted_before p ops (inr e) = rw e refl

  pub new-Inv :
      (a : ℕ) (raw : Data)
      → ((s.thr i).pc ≡ w_start) ⊎ ((s.thr i).pc ≡ w_won)
      → a ≢ g
      → ((j : ℕ) → (s.thr j).new_data ≢ some a)
      → ((j : ℕ) → (s.thr j).loaded ≢ some a)
      → Inv n (record {
        mem = record s.mem { heap = update s.mem.heap a raw };
        thr = update s.thr i (record (s.thr i) {
          new_data = some a;
          loaded = none;
          ops = published_ops (s.thr i).pc (s.thr i).ops;
          pc = w_top;
        });
      })
  new-Inv a raw at ne none_has none_loaded =
      let t' : Thread = record (s.thr i) {
        new_data = some a;
        loaded = none;
        ops = published_ops (s.thr i).pc (s.thr i).ops;
        pc = w_top;
      } in
      let global : update s.mem.heap a raw g ≡ s.mem.heap g = ground (arith, ne) in
      let other : (j b : ℕ) → (s.thr j).loaded ≡ some b → update s.mem.heap a raw b ≡ s.mem.heap b =
        λ j b e. ground (arith, none_loaded j, e) in
      let back : (j b : ℕ)
          → Mine (update s.thr i t' j) b
          → ((i ≡ j) × (a ≡ b)) ⊎ ((a ≢ b) × Mine (s.thr j) b) =
        λ j b.
          update_cases (λ j t. Mine t b → ((i ≡ j) × (a ≡ b)) ⊎ ((a ≢ b) × Mine (s.thr j) b)) s.thr
            i t' (λ e. inl (refl, ground (arith, e)))
            (λ j w e. inr ((λ z. none_has j (e.1 ∙ ap some (sym z))), e)) j in
      let still : (j b : ℕ) → (update s.thr i t' j).loaded ≡ some b → (s.thr j).loaded ≡ some b =
        λ j b.
          update_cases (λ j t. t.loaded ≡ some b → (s.thr j).loaded ≡ some b) s.thr i t'
            (λ e. ground (arith, e)) (λ j w e. e) j in
      record {
        equal = ground (arith, global, inv.equal);
        good =
            λ j b e. let e' = still j b e in ground (arith, global, other j b e', inv.good j b e');
        unshared = λ j b e. elim (back j b e) [
          | inl (z, z') ↦ λ w. ne (z' ∙ w)
          | inr (z, e') ↦ inv.unshared j b e'
        ];
        unloaded = λ j k b e f. elim (back j b e) [
          | inl (z, z') ↦ none_loaded k (still k b f ∙ ap some (sym z'))
          | inr (z, e') ↦ inv.unloaded j k b e' (still k b f)
        ];
        apart = λ j k b e f. elim (back j b e) [
          | inl (z, z') ↦ elim (back k b f) [
            | inl (w, w') ↦ sym z ∙ w
            | inr (w, f') ↦ absurd (w z')
          ]
          | inr (z, e') ↦ elim (back k b f) [
            | inl (w, w') ↦ absurd (z w')
            | inr (w, f') ↦ inv.apart j k b e' f'
          ]
        ];
        stands =
            update_cases (λ j t. Stands (record s.mem { heap = update s.mem.heap a raw }) t) s.thr i
              t' (a, refl)
              (λ j w.
                kept-At s.mem.heap (update s.mem.heap a raw) (s.mem.heap g).value1
                  (update s.mem.heap a raw g).value1 (s.thr j).new_data (s.thr j).loaded
                  (s.thr j).prev_value (s.thr j).pc (ground (arith, global)) (λ b e. other j b e)
                  (λ b z e. ground (arith, none_has j, e)) (inv.stands j));
        written =
            ap (λ x. x.value1) global
            ∙ inv.written
            ∙ sum-same n (writes s.thr) (writes (update s.thr i t')) (λ j _.
              update_cases (λ j t. writes s.thr j ≡ t.ops + uncounted t.pc) s.thr i t'
                (ground (arith, counted_before (s.thr i).pc (s.thr i).ops at)) (λ j w. refl) j);
      }

  pub swap-Inv :
      (a : ℕ)
      → (s.thr i).pc ≡ w_full
      → (s.thr i).new_data ≡ some a
      → (s.thr i).loaded ≡ some g
      → Inv n (record {
        mem = record s.mem { global_ptr = a };
        thr = update s.thr i (record (s.thr i) { pc = w_won });
      })
  swap-Inv a at own same =
      let t' : Thread = record (s.thr i) { pc = w_won } in
      let (a', b, e, f, v, w) = stands_as w_full at in
      let one : a' ≡ a = ground (arith, e, own) in
      let two : b ≡ g = ground (arith, f, same) in
      let v' : (s.mem.heap a).value1 ≡ (s.mem.heap g).value1 + 1 =
        subst (λ (x : ℕ). (s.mem.heap x).value1 ≡ (s.mem.heap g).value1 + 1) one
          (subst (λ (x : ℕ). (s.mem.heap a').value1 ≡ (s.mem.heap x).value1 + 1) two v) in
      let w' : (s.mem.heap a).value2 ≡ (s.mem.heap g).value2 + 1 =
        subst (λ (x : ℕ). (s.mem.heap x).value2 ≡ (s.mem.heap g).value2 + 1) one
          (subst (λ (x : ℕ). (s.mem.heap a').value2 ≡ (s.mem.heap x).value2 + 1) two w) in
      let mine : Mine (s.thr i) a = (ap writing at, own) in
      let back : (j b : ℕ) → Mine (update s.thr i t' j) b → (i ≢ j) × Mine (s.thr j) b = λ j b.
        update_cases (λ j t. Mine t b → (i ≢ j) × Mine (s.thr j) b) s.thr i t'
          (λ z. ground (arith, z)) (λ j ne z. (ne, z)) j in
      let still : (j b : ℕ) → (update s.thr i t' j).loaded ≡ some b → (s.thr j).loaded ≡ some b =
        λ j b.
          update_cases (λ j t. t.loaded ≡ some b → (s.thr j).loaded ≡ some b) s.thr i t' (λ z. z)
            (λ j ne z. z) j in
      let grown : sum n (writes (update s.thr i t')) ≡ sum n (writes s.thr) + 1 =
        sum-suc n (writes s.thr) (writes (update s.thr i t')) i lt (ground (arith, at))
          (λ j ne. ground (arith, ne)) in
      record {
        equal = omega (arith, v', w', inv.equal);
        good = λ j b z. let (eq, le) = inv.good j b (still j b z) in (eq, omega (arith, le, v'));
        unshared = λ j b z x.
            (back j b z).0 (inv.apart i j a mine (subst (Mine (s.thr j)) x (back j b z).1));
        unloaded = λ j k b z x. inv.unloaded j k b (back j b z).1 (still k b x);
        apart = λ j k b z x. inv.apart j k b (back j b z).1 (back k b x).1;
        stands =
            update_cases (λ j t. Stands (record s.mem { global_ptr = a }) t) s.thr i t' tt
              (λ j ne.
                kept-At s.mem.heap s.mem.heap (s.mem.heap g).value1 (s.mem.heap a).value1
                  (s.thr j).new_data (s.thr j).loaded (s.thr j).prev_value (s.thr j).pc
                  (omega (arith, v')) (λ b z. refl) (λ b z x. refl) (inv.stands j));
        written = omega (arith, v', inv.written, grown);
      }
