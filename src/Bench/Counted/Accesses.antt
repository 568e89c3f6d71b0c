-- ===== src/Bench/Counted/Accesses.antt =====
-- The loads, stores and checks of writers and readers.
use atomsnap.Common.{
  ℕ, ◌+◌, ◌<◌, ◌≡◌, ◌≢◌, ◌⊎◌, inl, inr, refl, sym, ap, ◌∙◌, subst, none, some, arith,
}
use atomsnap.Common.Family.{update}
use atomsnap.Bench.Counted.Machine.{
  Pc, w_top, w_got, w_half, w_full, r_top, r_got, r_one, r_two, r_three, System, first_load,
  first_check, second_check,
}
use atomsnap.Bench.Counted.Invariant.{At, writing, Mine, uncounted, Inv, local-Inv, write-Inv}
use atomsnap.Bench.Counted.Publish.{stands_as}

module _ {n : ℕ} {s : System} (inv : Inv n s) (i : ℕ) (lt : i < n) where
  abbrev g : ℕ
  g = s.mem.global_ptr

  -- A step that changes only where the thread stands.
  pc-Inv :
      (p : Pc)
      → ((a : ℕ) → Mine (record (s.thr i) { pc = p }) a → Mine (s.thr i) a)
      → At s.mem.heap
          (s.mem.heap g).value1
          (s.thr i).new_data
          (s.thr i).loaded
          (s.thr i).prev_value
          p
      → uncounted p ≡ uncounted (s.thr i).pc
      → Inv n (record s { thr = update s.thr i (record (s.thr i) { pc = p }) })
  pc-Inv p own st count =
      local-Inv inv i lt (record (s.thr i) { pc = p }) own (λ b e. inl e) st
        (ap (λ x. (s.thr i).ops + x) count)

  pub load-Inv :
      (p : Pc)
      → (((s.thr i).pc ≡ w_top) × (p ≡ w_got)) ⊎ (((s.thr i).pc ≡ r_top) × (p ≡ r_got))
      → Inv n (record s { thr = update s.thr i (record (s.thr i) { loaded = some g; pc = p }) })
  load-Inv p (inl (e, f)) =
      let (a, own) = stands_as inv i lt w_top e in
      local-Inv inv i lt (record (s.thr i) { loaded = some g; pc = p }) (λ b z. (ap writing e, z.1))
        (λ b z. inr (ground (arith, z)))
        (subst
          (At s.mem.heap (s.mem.heap g).value1 (s.thr i).new_data (some g) (s.thr i).prev_value)
          (sym f) (a, g, own, refl))
        (ap (λ q. (s.thr i).ops + uncounted q) f ∙ sym (ap (λ q. (s.thr i).ops + uncounted q) e))
  load-Inv p (inr (e, f)) =
      local-Inv inv i lt (record (s.thr i) { loaded = some g; pc = p })
        (λ b z. ground (arith, f, z)) (λ b z. inr (ground (arith, z)))
        (subst
          (At s.mem.heap (s.mem.heap g).value1 (s.thr i).new_data (some g) (s.thr i).prev_value)
          (sym f) (g, refl, stands_as inv i lt r_top e))
        (ap (λ q. (s.thr i).ops + uncounted q) f ∙ sym (ap (λ q. (s.thr i).ops + uncounted q) e))

  pub write1-Inv :
      (a b : ℕ)
      → (s.thr i).pc ≡ w_got
      → (s.thr i).new_data ≡ some a
      → (s.thr i).loaded ≡ some b
      → Inv n (record {
        mem = record s.mem {
          heap = update s.mem.heap a (record (s.mem.heap a) { value1 = (s.mem.heap b).value1 + 1 });
        };
        thr = update s.thr i (record (s.thr i) { pc = w_half });
      })
  write1-Inv a b at own old =
      let mine : Mine (s.thr i) a = (ap writing at, own) in
      let ne : a ≢ b = λ z. inv.unloaded i i a mine (old ∙ ap some (sym z)) in
      write-Inv inv i lt a (record (s.mem.heap a) { value1 = (s.mem.heap b).value1 + 1 }) w_half
        mine (refl, own) (sym (ap uncounted at)) (a, b, own, old, ground (arith, ne))

  pub write2-Inv :
      (a b : ℕ)
      → (s.thr i).pc ≡ w_half
      → (s.thr i).new_data ≡ some a
      → (s.thr i).loaded ≡ some b
      → Inv n (record {
        mem = record s.mem {
          heap = update s.mem.heap a (record (s.mem.heap a) { value2 = (s.mem.heap b).value2 + 1 });
        };
        thr = update s.thr i (record (s.thr i) { pc = w_full });
      })
  write2-Inv a b at own old =
      let mine : Mine (s.thr i) a = (ap writing at, own) in
      let ne : a ≢ b = λ z. inv.unloaded i i a mine (old ∙ ap some (sym z)) in
      let (a', b', e, f, v) = stands_as inv i lt w_half at in
      let one : a' ≡ a = ground (arith, e, own) in
      let two : b' ≡ b = ground (arith, f, old) in
      let v' : (s.mem.heap a).value1 ≡ (s.mem.heap b).value1 + 1 =
        subst (λ (x : ℕ). (s.mem.heap x).value1 ≡ (s.mem.heap b).value1 + 1) one
          (subst (λ (x : ℕ). (s.mem.heap a').value1 ≡ (s.mem.heap x).value1 + 1) two v) in
      write-Inv inv i lt a (record (s.mem.heap a) { value2 = (s.mem.heap b).value2 + 1 }) w_full
        mine (refl, own) (sym (ap uncounted at))
        (a, b, own, old, ground (arith, ne, v'), ground (arith, ne))

  -- A writer has both objects when it stores.
  pub no_null :
      ((s.thr i).pc ≡ w_got) ⊎ ((s.thr i).pc ≡ w_half)
      → ((s.thr i).new_data ≡ none) ⊎ ((s.thr i).loaded ≡ none)
      → ⊥
  no_null (inl e) null =
      let (a, b, own, old) = stands_as inv i lt w_got e in ground (arith, own, old, null)
  no_null (inr e) null =
      let (a, b, own, old, v) = stands_as inv i lt w_half e in ground (arith, own, old, null)

  pub fails-Inv :
      (s.thr i).pc ≡ w_full
      → Inv n (record s { thr = update s.thr i (record (s.thr i) { loaded = none; pc = w_top }) })
  fails-Inv at =
      let (a, b, own, old, v, w) = stands_as inv i lt w_full at in
      local-Inv inv i lt (record (s.thr i) { loaded = none; pc = w_top })
        (λ c z. (ap writing at, z.1)) (λ c z. ground (arith, z)) (a, own)
        (sym (ap (λ q. (s.thr i).ops + uncounted q) at))

  pub read1-Inv :
      (s.thr i).pc ≡ r_got
      → Inv n (record s {
        thr = update s.thr i (record (s.thr i) { pc = first_load s.mem.heap (s.thr i).loaded });
      })
  read1-Inv at =
      let (b, old, le) = stands_as inv i lt r_got at in
      let got : first_load s.mem.heap (s.thr i).loaded ≡ r_one (s.mem.heap b).value1 =
        ap (first_load s.mem.heap) old in
      subst (λ p. Inv n (record s { thr = update s.thr i (record (s.thr i) { pc = p }) })) (sym got)
        (pc-Inv (r_one (s.mem.heap b).value1) (λ a z. ground (arith, z)) (b, old, le, refl)
          (sym (ap uncounted at)))

  pub read2-Inv :
      (v1 : ℕ)
      → (s.thr i).pc ≡ r_one v1
      → Inv n (record s {
        thr = update s.thr i (record (s.thr i) { pc = first_check s.mem.heap v1 (s.thr i).loaded });
      })
  read2-Inv v1 at =
      let (b, old, le, v) = stands_as inv i lt (r_one v1) at in
      let got : first_check s.mem.heap v1 (s.thr i).loaded ≡ r_two =
        ap (first_check s.mem.heap v1) old ∙ ground (arith, v, inv.good i b old) in
      subst (λ p. Inv n (record s { thr = update s.thr i (record (s.thr i) { pc = p }) })) (sym got)
        (pc-Inv r_two (λ a z. ground (arith, z)) (b, old, le) (sym (ap uncounted at)))

  pub read3-Inv :
      (s.thr i).pc ≡ r_two
      → Inv n (record s {
        thr = update s.thr i (record (s.thr i) {
          pc = second_check s.mem.heap (s.thr i).prev_value (s.thr i).loaded;
        });
      })
  read3-Inv at =
      let (b, old, le) = stands_as inv i lt r_two at in
      let got : second_check s.mem.heap (s.thr i).prev_value (s.thr i).loaded ≡ r_three =
        ap (second_check s.mem.heap (s.thr i).prev_value) old ∙ ground (arith, le) in
      subst (λ p. Inv n (record s { thr = update s.thr i (record (s.thr i) { pc = p }) })) (sym got)
        (pc-Inv r_three (λ a z. ground (arith, z)) (b, old) (sym (ap uncounted at)))

  pub read4-Inv :
      (b : ℕ)
      → (s.thr i).pc ≡ r_three
      → (s.thr i).loaded ≡ some b
      → Inv n (record s {
        thr =
            update s.thr i
              (record (s.thr i) { loaded = none; prev_value = (s.mem.heap b).value1; pc = r_top });
      })
  read4-Inv b at old =
      local-Inv inv i lt
        (record (s.thr i) { loaded = none; prev_value = (s.mem.heap b).value1; pc = r_top })
        (λ c z. ground (arith, z)) (λ c z. ground (arith, z)) (inv.good i b old).1
        (sym (ap (λ q. (s.thr i).ops + uncounted q) at))
