-- ===== src/Bench/Snap/Versions.antt =====
-- A version is made, given an object, and reclaimed.
use atomsnap.Common.{
  ℕ, ◌+◌, ◌<◌, ◌^◌, ◌≡◌, ◌≢◌, refl, sym, ap, ◌∙◌, subst, Bool, true, false, Option, none, some,
  arith, ℕ_discrete,
}
use atomsnap.Common.Family.{update, update_both, sum-same}
use atomsnap.Word.Pair.{handle_null}
use atomsnap.Protocol.Machine.{Pc, reclaiming, Thread, make, reclaim}
use atomsnap.Protocol.Objects.{out-Same, moved, dropped, Objects, make-ne-out}
use atomsnap.Protocol.Objects.Calls.{callback-Objects}
use atomsnap.Protocol.Objects.Versions.{make-Objects}
use atomsnap.Bench.Snap.Machine.{
  Data, User, w_start, w_first, w_cas, w_again, System, after, made_from, deleted, delete_user,
  counted,
}
use atomsnap.Bench.Snap.Invariant.{Stands, Calls, uncounted, writes, Inv}
use atomsnap.Bench.Snap.Frame.{kept-Stands}
use atomsnap.Protocol.Client.{current_out, reclaiming_out}

deleted_user :
    (alive : ℕ → Bool) (o : Option ℕ) (u : User)
    → ((a : ℕ) → o ≡ some a → alive a ≡ true)
    → delete_user alive o u ≡ u
deleted_user alive none u live = refl
deleted_user alive (some a) u live = rw (live a refl) refl

deleted_lem : (alive : ℕ → Bool) (o : Option ℕ) → deleted alive o ≡ dropped alive o
deleted_lem alive none = refl
deleted_lem alive (some a) = refl

made_Stands :
    (object : ℕ → Option ℕ) (heap : ℕ → Data) (cur : ℕ) (fresh held : Option ℕ) (u u' : User)
    → made_from u ≡ some u'
    → Stands object heap cur fresh held u'
made_Stands object heap cur fresh held w_start u' e =
    let got : w_first ≡ u' = cc in subst (Stands object heap cur fresh held) got tt
made_Stands object heap cur fresh held w_cas u' e =
    let got : w_again ≡ u' = cc in subst (Stands object heap cur fresh held) got tt
made_Stands object heap cur fresh held u u' e = ground arith

-- The `ops++` that follows the exchange counts its version.
made_writes :
    (u u' : User) (ops h : ℕ)
    → made_from u ≡ some u'
    → ops + uncounted u none ≡ counted u ops + uncounted u' (some h)
made_writes w_start u' ops h e = let got : w_first ≡ u' = cc in rw (sym got) refl
made_writes w_cas u' ops h e = let got : w_again ≡ u' = cc in rw (sym got) (omega arith)
made_writes u u' ops h e = ground arith

module _ {n : ℕ} {s : System} (few : n < 2 ^ 32) (inv : Inv n s) (i : ℕ) (lt : i < n) where
  -- The callback deletes an object that is alive, and no other version's.
  pub callback-Inv :
      (v : ℕ) (at : (s.lib.thr i).pc ≡ reclaiming v)
      → Inv n (record (after s i (reclaim v at) (delete_user s.alive (s.object v) (s.user i))) {
        alive = deleted s.alive (s.object v);
      })
  callback-Inv v at =
      let out = reclaiming_out few inv.base.reach i v at in
      let same : delete_user s.alive (s.object v) (s.user i) ≡ s.user i =
        deleted_user s.alive (s.object v) (s.user i) (λ a z. inv.base.alive_at v a out z) in
      let t' : Thread = record (s.lib.thr i) { pc = Pc.ready } in
      let still : (h : ℕ)
          → update s.lib.mem.avail v true h ≡ false
          → (v ≢ h) × (s.lib.mem.avail h ≡ false) =
        λ h e. ground (arith, e) in
      record {
        shown = inv.shown;
        cur = inv.cur;
        base =
            subst (λ f. Objects n (moved s.lib i (reclaim v at)) s.object f inv.shown)
              (sym (deleted_lem s.alive (s.object v))) (callback-Objects few inv.base i lt v at);
        current_real = inv.current_real;
        current_value = inv.current_value;
        total_writes =
            inv.total_writes
            ∙ sum-same n (writes s)
                (λ j.
                  s.ops j
                  + uncounted (update s.user i (delete_user s.alive (s.object v) (s.user i)) j)
                      (update s.lib.thr i t' j).fresh)
                (λ j _.
                  update_both (λ j t u. writes s j ≡ s.ops j + uncounted u t.fresh) s.lib.thr s.user
                    i t' _ (ap (λ u. s.ops i + uncounted u t'.fresh) (sym same)) (λ j ne. refl) j);
        good = λ h e. inv.good h (still h e).1;
        stands =
            update_both (λ j t u. Stands s.object s.heap inv.cur t.fresh t.held u) s.lib.thr s.user
              i t' _
              (subst (Stands s.object s.heap inv.cur t'.fresh t'.held) (sym same) (inv.stands i))
              (λ j ne. inv.stands j);
        calls =
            update_both (λ j t u. Calls t u t.pc) s.lib.thr s.user i t' _ tt (λ j ne. inv.calls j);
      }

  pub make-Inv :
      (h : ℕ) (at : (s.lib.thr i).pc ≡ Pc.ready) (none_made : (s.lib.thr i).fresh ≡ none)
      (is_free : s.lib.mem.avail h ≡ true) (small : h < handle_null) (u : User)
      → made_from (s.user i) ≡ some u
      → Inv n (record (after s i (make h at none_made is_free small) u) {
        object = update s.object h none;
        ops = update s.ops i (counted (s.user i) (s.ops i));
      })
  make-Inv h at none_made is_free small u from =
      let t' : Thread = record (s.lib.thr i) { fresh = some h } in
      let kept : (h' : ℕ) → s.lib.mem.avail h' ≡ false → update s.object h none h' ≡ s.object h' =
        λ h' out. ground (arith, make-ne-out s.lib.mem h h' is_free out) in
      let same =
        out-Same few inv.base (update s.object h none) s.heap s.heap
          (λ h' b out z. (kept h' out ∙ z, refl)) in
      record {
        shown = update inv.shown h false;
        cur = inv.cur;
        base = make-Objects few inv.base i lt h at none_made is_free small;
        current_real = inv.current_real;
        current_value = λ a z.
            inv.current_value a
              (sym (kept _ (current_out few inv.base.reach 0 inv.current_real)) ∙ z);
        total_writes =
            inv.total_writes
            ∙ sum-same n (writes s)
                (λ j.
                  update s.ops i (counted (s.user i) (s.ops i)) j
                  + uncounted (update s.user i u j) (update s.lib.thr i t' j).fresh)
                (λ j _. elim (ℕ_discrete i j) [
                  | yes here ↦
                      subst
                        (λ j'.
                          writes s j'
                          ≡ update s.ops i (counted (s.user i) (s.ops i)) j'
                            + uncounted (update s.user i u j') (update s.lib.thr i t' j').fresh)
                        here (ground (arith, made_writes (s.user i) u (s.ops i) h from, none_made))
                  | no ne ↦ ground (arith, ne)
                ]);
        good = λ h' out on.
            let ne : h ≢ h' = ground (arith, on) in
            let out' : s.lib.mem.avail h' ≡ false = ground (arith, out, ne) in
            let (a, z, eq, le) = inv.good h' out' (ground (arith, on, ne)) in
            (a, kept h' out' ∙ z, eq, le);
        stands =
            update_both (λ j t u'. Stands (update s.object h none) s.heap inv.cur t.fresh t.held u')
              s.lib.thr s.user i t' u
              (made_Stands _ s.heap inv.cur t'.fresh t'.held (s.user i) u from)
              (λ j ne.
                kept-Stands s.object (update s.object h none) s.heap s.heap inv.cur inv.cur
                  (omega arith) (s.lib.thr j).fresh (s.lib.thr j).held (s.user j) (same j).0
                  (same j).1 (inv.stands j));
        calls =
            update_both (λ j t u'. Calls t u' t.pc) s.lib.thr s.user i t' u
              (subst (Calls t' u) (sym at) tt) (λ j ne. inv.calls j);
      }
