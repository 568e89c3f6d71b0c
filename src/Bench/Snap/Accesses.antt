-- ===== src/Bench/Snap/Accesses.antt =====
-- The loads and stores of `writer` and `reader` keep the invariant.
use atomsnap.Common.{
  ℕ, ◌+◌, ◌≤◌, ◌<◌, ◌^◌, ◌≡◌, ◌≢◌, inl, inr, refl, sym, ap, ◌∙◌, subst, false, Option, some, arith,
}
use atomsnap.Protocol.Machine.{Pc}
use atomsnap.Bench.Snap.Machine.{
  Data, User, w_got, w_half, w_full, w_cas, w_done, r_got, r_one, r_two, r_three, r_done, System,
  go, usable, object_data, held_data, fresh_data, store1, store2, load1, load2, load3, load4,
}
use atomsnap.Bench.Snap.Invariant.{Own, Stands, uncounted, Inv}
use atomsnap.Bench.Snap.Frame.{go-Inv}
use atomsnap.Protocol.Client.{fresh_out, held_out}
use atomsnap.Bench.Snap.Objects.{write-Inv}

module _ {n : ℕ} {s : System} (few : n < 2 ^ 32) (inv : Inv n s) (i : ℕ) (lt : i < n)
    (at : (s.lib.thr i).pc ≡ Pc.ready) where
  -- A version that is out has an object that can be read.
  data_lem :
      (ver : Option ℕ) (h a : ℕ)
      → ver ≡ some h
      → s.lib.mem.avail h ≡ false
      → s.object h ≡ some a
      → object_data s ver ≡ some a
  data_lem ver h a e out f =
      subst (λ v. object_data s v ≡ some a) (sym e)
        (ap (usable s.alive) f ∙ rw (inv.base.alive_at h a out f) refl)

  held_lem : (h a : ℕ) → (s.lib.thr i).held ≡ some h → s.object h ≡ some a → held_data s i ≡ some a
  held_lem h a e f = data_lem (s.lib.thr i).held h a e (held_out few inv.base.reach i h lt e) f

  fresh_lem :
      (h a : ℕ) → (s.lib.thr i).fresh ≡ some h → s.object h ≡ some a → fresh_data s i ≡ some a
  fresh_lem h a e f = data_lem (s.lib.thr i).fresh h a e (fresh_out few inv.base.reach i h e).0 f

  -- The version made and the version held have two objects.
  two_objects :
      (h a o b : ℕ)
      → (s.lib.thr i).fresh ≡ some h
      → s.object h ≡ some a
      → (s.lib.thr i).held ≡ some o
      → s.object o ≡ some b
      → a ≢ b
  two_objects h a o b made_h f held_o f' same =
      let one : h ≡ o =
        inv.base.apart h o b (fresh_out few inv.base.reach i h made_h).0
          (held_out few inv.base.reach i o lt held_o) (f ∙ ap some same) f' in
      ground
        (arith, ap inv.shown one, inv.base.fresh_hidden i h made_h, inv.base.held_shown i o held_o)

  user_at :
      (u : User)
      → s.user i ≡ u
      → Stands s.object s.heap inv.cur (s.lib.thr i).fresh (s.lib.thr i).held u
  user_at u here =
      subst (Stands s.object s.heap inv.cur (s.lib.thr i).fresh (s.lib.thr i).held) here
        (inv.stands i)

  -- What a held version's object holds.
  held_good :
      (o b : ℕ)
      → (s.lib.thr i).held ≡ some o
      → s.object o ≡ some b
      → ((s.heap b).value1 ≡ (s.heap b).value2) × ((s.heap b).value1 ≤ inv.cur)
  held_good o b held_o f =
      let (b', f', eq, le) =
        inv.good o (held_out few inv.base.reach i o lt held_o) (inv.base.held_shown i o held_o) in
      let same : b' ≡ b = ground (arith, f, f') in
      subst (λ (x : ℕ). ((s.heap x).value1 ≡ (s.heap x).value2) × ((s.heap x).value1 ≤ inv.cur))
        same (eq, le)

  still :
      (u u' : User)
      → s.user i ≡ u
      → uncounted u' (s.lib.thr i).fresh ≡ uncounted u (s.lib.thr i).fresh
      → uncounted u' (s.lib.thr i).fresh ≡ uncounted (s.user i) (s.lib.thr i).fresh
  still u u' here e = e ∙ sym (ap (λ v. uncounted v (s.lib.thr i).fresh) here)

  pub write1-Inv : s.user i ≡ w_got → Inv n (store1 s i (held_data s i) (fresh_data s i))
  write1-Inv here =
      let ((h, a, made_h, f), (o, b, held_o, f')) = user_at w_got here in
      let ne = two_objects h a o b made_h f held_o f' in
      let d : Data = record (s.heap a) { value1 = (s.heap b).value1 + 1 } in
      rw (held_lem o b held_o f', fresh_lem h a made_h f)
        (write-Inv few inv i h lt at made_h a d w_half f
          (h, a, o, b, made_h, f, held_o, f', ground (arith, ne)) (still w_got w_half here refl))

  pub write2-Inv : s.user i ≡ w_half → Inv n (store2 s i (held_data s i) (fresh_data s i))
  write2-Inv here =
      let (h, a, o, b, made_h, f, held_o, f', v) = user_at w_half here in
      let ne = two_objects h a o b made_h f held_o f' in
      let d : Data = record (s.heap a) { value2 = (s.heap b).value2 + 1 } in
      rw (held_lem o b held_o f', fresh_lem h a made_h f)
        (write-Inv few inv i h lt at made_h a d w_full f
          (h, a, o, b, made_h, f, held_o, f', ground (arith, ne, v), ground (arith, ne))
          (still w_half w_full here refl))

  pub not_swapped-Inv :
      (h : ℕ) → s.user i ≡ w_cas → (s.lib.thr i).fresh ≡ some h → Inv n (go s i w_done)
  not_swapped-Inv h here made_h =
      let own : Own s.object (s.lib.thr i).fresh = elim (user_at w_cas here) [
        | inl none_made ↦ ground (arith, made_h, none_made)
        | inr (h', a, o, b, e, f, e', f', v, w) ↦ (h', a, e, f)
      ] in
      go-Inv few inv i lt w_done own
        (ap (uncounted w_cas) (sym made_h) ∙ still w_cas w_cas here refl) at

  pub read1-Inv :
      (prev : ℕ) → s.user i ≡ r_got prev → Inv n (go s i (load1 s.heap prev (held_data s i)))
  read1-Inv prev here =
      let (o, b, held_o, f, le) = user_at (r_got prev) here in
      rw (held_lem o b held_o f) (
        go-Inv few inv i lt (r_one prev (s.heap b).value1) (o, b, held_o, f, le, refl)
          (still (r_got prev) (r_one prev (s.heap b).value1) here refl) at)

  pub read2-Inv :
      (prev v1 : ℕ)
      → s.user i ≡ r_one prev v1
      → Inv n (go s i (load2 s.heap prev v1 (held_data s i)))
  read2-Inv prev v1 here =
      let (o, b, held_o, f, le, v) = user_at (r_one prev v1) here in
      let same : load2 s.heap prev v1 (some b) ≡ r_two prev =
        ground (arith, v, held_good o b held_o f) in
      rw (held_lem o b held_o f, same)
        (go-Inv few inv i lt (r_two prev) (o, b, held_o, f, le)
          (still (r_one prev v1) (r_two prev) here refl) at)

  pub read3-Inv :
      (prev : ℕ) → s.user i ≡ r_two prev → Inv n (go s i (load3 s.heap prev (held_data s i)))
  read3-Inv prev here =
      let (o, b, held_o, f, le) = user_at (r_two prev) here in
      let same : load3 s.heap prev (some b) ≡ r_three = ground (arith, le) in
      rw (held_lem o b held_o f, same)
        (go-Inv few inv i lt r_three (o, b, held_o, f) (still (r_two prev) r_three here refl) at)

  pub read4-Inv : s.user i ≡ r_three → Inv n (go s i (load4 s.heap (held_data s i)))
  read4-Inv here =
      let (o, b, held_o, f) = user_at r_three here in
      rw (held_lem o b held_o f) (
        go-Inv few inv i lt (r_done (s.heap b).value1) (held_good o b held_o f).1
          (still r_three (r_done (s.heap b).value1) here refl) at)
