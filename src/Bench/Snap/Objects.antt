-- ===== src/Bench/Snap/Objects.antt =====
-- A thread gives its version an object and writes the object.
use atomsnap.Common.{
  ℕ, ◌+◌, ◌<◌, ◌^◌, ◌≡◌, ◌≢◌, refl, sym, ap, ◌∙◌, subst, true, false, Option, some, arith,
}
use atomsnap.Common.Family.{update, update_cases, sum, sum-same}
use atomsnap.Word.Pair.{handle_of}
use atomsnap.Protocol.Machine.{Pc}
use atomsnap.Protocol.Objects.{other-Same, made_out, made-ne-shown}
use atomsnap.Protocol.Objects.Versions.{set-Objects}
use atomsnap.Bench.Snap.Machine.{Data, User, w_first, w_top, w_again, w_done, System, go, set_from}
use atomsnap.Bench.Snap.Invariant.{Own, Stands, Calls, uncounted, writes, Inv}
use atomsnap.Bench.Snap.Frame.{kept-Stands}
use atomsnap.Protocol.Client.{current_out}

set_Stands :
    (object : ℕ → Option ℕ) (heap : ℕ → Data) (cur : ℕ) (fresh held : Option ℕ) (u u' : User)
    → set_from u ≡ some u'
    → Own object fresh
    → Stands object heap cur fresh held u'
set_Stands object heap cur fresh held w_first u' e own =
    let got : w_top ≡ u' = cc in subst (Stands object heap cur fresh held) got own
set_Stands object heap cur fresh held w_again u' e own =
    let got : w_done ≡ u' = cc in subst (Stands object heap cur fresh held) got own
set_Stands object heap cur fresh held u u' e own = ground arith

set_uncounted :
    (u u' : User) (fresh : Option ℕ) → set_from u ≡ some u' → uncounted u' fresh ≡ uncounted u fresh
set_uncounted w_first u' fresh e = let got : w_top ≡ u' = cc in rw (sym got) refl
set_uncounted w_again u' fresh e = let got : w_done ≡ u' = cc in rw (sym got) refl
set_uncounted u u' fresh e = ground arith

module _ {n : ℕ} {s : System} (few : n < 2 ^ 32) (inv : Inv n s) (i h : ℕ) (lt : i < n)
    (at : (s.lib.thr i).pc ≡ Pc.ready) (made_h : (s.lib.thr i).fresh ≡ some h) where
  current_at : s.lib.mem.avail (handle_of (s.lib.mem.cb 0)) ≡ false
  current_at = current_out few inv.base.reach 0 inv.current_real

  still_writes :
      (u : User)
      → uncounted u (s.lib.thr i).fresh ≡ uncounted (s.user i) (s.lib.thr i).fresh
      → inv.cur ≡ sum n (writes (go s i u))
  still_writes u same =
      inv.total_writes
      ∙ sum-same n (writes s) (writes (go s i u)) (λ j _.
        update_cases (λ j u'. writes s j ≡ s.ops j + uncounted u' (s.lib.thr j).fresh) s.user i u
          (ap (λ x. s.ops i + x) (sym same)) (λ j ne. refl) j)

  -- `new Data` and `atomsnap_set_object`.
  pub set-Inv :
      (a : ℕ) (raw : Data) (u : User)
      → s.alive a ≡ false
      → set_from (s.user i) ≡ some u
      → Inv n (record s {
        object = update s.object h (some a);
        alive = update s.alive a true;
        heap = update s.heap a raw;
        user = update s.user i u;
      })
  set-Inv a raw u dead from =
      let kept : (h' : ℕ) → h ≢ h' → update s.object h (some a) h' ≡ s.object h' =
        λ h' ne. ground arith in
      let other : (h' b : ℕ)
          → s.lib.mem.avail h' ≡ false
          → s.object h' ≡ some b
          → update s.heap a raw b ≡ s.heap b =
        λ h' b out z. ground (arith, inv.base.alive_at h' b out z, dead) in
      let same =
        other-Same few inv.base (update s.object h (some a)) s.heap (update s.heap a raw) i h made_h
          (λ h' b ne out z. (kept h' ne ∙ z, other h' b out z)) in
      record {
        shown = inv.shown;
        cur = inv.cur;
        base =
            set-Objects few inv.base i lt h a (update s.alive a true) made_h
              (λ h' out e. ground (arith, inv.base.alive_at h' a out e, dead)) (ground arith)
              (λ b e. ground (arith, e));
        current_real = inv.current_real;
        current_value = λ b z.
            let z' =
              sym (
                kept _ (
                  made-ne-shown few inv.base i h _ made_h (inv.base.gate_shown 0 inv.current_real)))
              ∙ z in
            ap (λ d. d.value1) (other _ b current_at z') ∙ inv.current_value b z';
        total_writes = still_writes u (set_uncounted (s.user i) u (s.lib.thr i).fresh from);
        good = λ h' out on.
            let (b, z, eq, le) = inv.good h' out on in
            let same = other h' b out z in
            (
              b,
              kept h' (made-ne-shown few inv.base i h h' made_h on) ∙ z,
              ground (arith, same, eq),
              ground (arith, same, le),
            );
        stands =
            update_cases
              (λ j u'.
                Stands (update s.object h (some a)) (update s.heap a raw) inv.cur
                  (s.lib.thr j).fresh (s.lib.thr j).held u')
              s.user i u
              (set_Stands (update s.object h (some a)) (update s.heap a raw) inv.cur
                (s.lib.thr i).fresh (s.lib.thr i).held (s.user i) u from
                (h, a, made_h, ground arith))
              (λ j ne.
                kept-Stands s.object (update s.object h (some a)) s.heap (update s.heap a raw)
                  inv.cur inv.cur (omega arith) (s.lib.thr j).fresh (s.lib.thr j).held (s.user j)
                  (same j ne).0 (same j ne).1 (inv.stands j));
        calls =
            update_cases (λ j u'. Calls (s.lib.thr j) u' (s.lib.thr j).pc) s.user i u
              (subst (Calls (s.lib.thr i) u) (sym at) tt) (λ j ne. inv.calls j);
      }

  -- A store to the thread's own object.
  pub write-Inv :
      (a : ℕ) (d : Data) (u : User)
      → s.object h ≡ some a
      → Stands s.object (update s.heap a d) inv.cur (s.lib.thr i).fresh (s.lib.thr i).held u
      → uncounted u (s.lib.thr i).fresh ≡ uncounted (s.user i) (s.lib.thr i).fresh
      → Inv n (record s { heap = update s.heap a d; user = update s.user i u })
  write-Inv a d u own st count =
      let other : (h' b : ℕ)
          → h ≢ h'
          → s.lib.mem.avail h' ≡ false
          → s.object h' ≡ some b
          → update s.heap a d b ≡ s.heap b =
        λ h' b ne out z.
          ground (arith, inv.base.apart h h' a (made_out few inv.base i h made_h) out own, z) in
      let same =
        other-Same few inv.base s.object s.heap (update s.heap a d) i h made_h
          (λ h' b ne out z. (z, other h' b ne out z)) in
      record {
        shown = inv.shown;
        cur = inv.cur;
        base = inv.base;
        current_real = inv.current_real;
        current_value = λ b z.
            ap (λ x. x.value1)
              (other _ b
                (made-ne-shown few inv.base i h _ made_h (inv.base.gate_shown 0 inv.current_real))
                current_at z)
            ∙ inv.current_value b z;
        total_writes = still_writes u count;
        good = λ h' out on.
            let (b, z, eq, le) = inv.good h' out on in
            let same = other h' b (made-ne-shown few inv.base i h h' made_h on) out z in
            (b, z, ground (arith, same, eq), ground (arith, same, le));
        stands =
            update_cases
              (λ j u'.
                Stands s.object (update s.heap a d) inv.cur (s.lib.thr j).fresh (s.lib.thr j).held
                  u')
              s.user i u st
              (λ j ne.
                kept-Stands s.object s.object s.heap (update s.heap a d) inv.cur inv.cur
                  (omega arith) (s.lib.thr j).fresh (s.lib.thr j).held (s.user j) (same j ne).0
                  (same j ne).1 (inv.stands j));
        calls =
            update_cases (λ j u'. Calls (s.lib.thr j) u' (s.lib.thr j).pc) s.user i u
              (subst (Calls (s.lib.thr i) u) (sym at) tt) (λ j ne. inv.calls j);
      }
