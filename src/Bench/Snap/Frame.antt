-- ===== src/Bench/Snap/Frame.antt =====
-- Steps that leave the objects of a thread alone.
use atomsnap.Common.{
  ◌^◌, ℕ, ◌+◌, ◌≤◌, ◌<◌, ◌≡◌, inl, inr, refl, sym, ap, ◌∙◌, subst, true, Option, some, arith,
}
use atomsnap.Common.Family.{update_cases, update_both, sum-same}
use atomsnap.Word.Pair.{handle_of}
use atomsnap.Protocol.Machine.{Mem, Pc, Thread, Move}
use atomsnap.Protocol.Objects.{Same}
use atomsnap.Protocol.Objects.Calls.{quiet-Objects}
use atomsnap.Bench.Snap.Machine.{
  w_bare, Data, User, w_start, w_first, w_top, w_got, w_half, w_full, w_cas, w_again, w_done, r_top,
  r_got, r_one, r_two, r_three, r_done, joining, exited, crashed, System, after, go,
}
use atomsnap.Bench.Snap.Invariant.{Stands, Calls, uncounted, writes, Inv}

module _ (object object' : ℕ → Option ℕ) (heap heap' : ℕ → Data) (cur cur' : ℕ)
    (more : cur ≤ cur') where
  pub kept-Stands :
      (fresh held : Option ℕ) (u : User)
      → Same object object' heap heap' fresh
      → Same object object' heap heap' held
      → Stands object heap cur fresh held u
      → Stands object' heap' cur' fresh held u
  kept-Stands fresh held w_start own old st = tt
  kept-Stands fresh held w_first own old st = tt
  kept-Stands fresh held w_top own old (h, a, e, f) = (h, a, e, (own h a e f).0)
  kept-Stands fresh held w_got own old ((h, a, e, f), (o, b, e', f')) =
      ((h, a, e, (own h a e f).0), (o, b, e', (old o b e' f').0))
  kept-Stands fresh held w_half own old (h, a, o, b, e, f, e', f', v) =
      let (f1, same) = own h a e f in
      let (f2, same') = old o b e' f' in (h, a, o, b, e, f1, e', f2, ground (arith, same, same', v))
  kept-Stands fresh held w_full own old (h, a, o, b, e, f, e', f', v, w) =
      let (f1, same) = own h a e f in
      let (f2, same') = old o b e' f' in
      (h, a, o, b, e, f1, e', f2, ground (arith, same, same', v), ground (arith, same, same', w))
  kept-Stands fresh held w_cas own old (inl e) = inl e
  kept-Stands fresh held w_cas own old (inr (h, a, o, b, e, f, e', f', v, w)) =
      let (f1, same) = own h a e f in
      let (f2, same') = old o b e' f' in
      inr
        (h, a, o, b, e, f1, e', f2, ground (arith, same, same', v), ground (arith, same, same', w))
  kept-Stands fresh held w_again own old st = tt
  kept-Stands fresh held w_done own old (h, a, e, f) = (h, a, e, (own h a e f).0)
  kept-Stands fresh held (w_bare b) own old st = tt
  kept-Stands fresh held (r_top prev) own old st = omega (arith, st, more)
  kept-Stands fresh held (r_got prev) own old (o, b, e, f, le) =
      let (f1, same) = old o b e f in (o, b, e, f1, ground (arith, same, le))
  kept-Stands fresh held (r_one prev v1) own old (o, b, e, f, le, v) =
      let (f1, same) = old o b e f in
      (o, b, e, f1, ground (arith, same, le), ground (arith, same, v))
  kept-Stands fresh held (r_two prev) own old (o, b, e, f, le) =
      let (f1, same) = old o b e f in (o, b, e, f1, ground (arith, same, le))
  kept-Stands fresh held r_three own old (o, b, e, f) = (o, b, e, (old o b e f).0)
  kept-Stands fresh held (r_done prev) own old st = omega (arith, st, more)
  kept-Stands fresh held joining own old st = tt
  kept-Stands fresh held exited own old st = st
  kept-Stands fresh held crashed own old st = st

module _ {n : ℕ} {s : System} (few : n < 2 ^ 32) (inv : Inv n s) (i : ℕ) (lt : i < n) where
  -- A step of a thread in its own code.
  pub go-Inv :
      (u : User)
      → Stands s.object s.heap inv.cur (s.lib.thr i).fresh (s.lib.thr i).held u
      → uncounted u (s.lib.thr i).fresh ≡ uncounted (s.user i) (s.lib.thr i).fresh
      → (s.lib.thr i).pc ≡ Pc.ready
      → Inv n (go s i u)
  go-Inv u st count at = record {
    shown = inv.shown;
    cur = inv.cur;
    base = inv.base;
    current_real = inv.current_real;
    current_value = inv.current_value;
    total_writes =
        inv.total_writes
        ∙ sum-same n (writes s) (writes (go s i u)) (λ j _.
          update_cases (λ j u'. writes s j ≡ s.ops j + uncounted u' (s.lib.thr j).fresh) s.user i u
            (ap (λ x. s.ops i + x) (sym count)) (λ j ne. refl) j);
    good = inv.good;
    stands =
        update_cases
          (λ j u'. Stands s.object s.heap inv.cur (s.lib.thr j).fresh (s.lib.thr j).held u') s.user
          i u st (λ j ne. inv.stands j);
    calls =
        update_cases (λ j u'. Calls (s.lib.thr j) u' (s.lib.thr j).pc) s.user i u
          (subst (Calls (s.lib.thr i) u) (sym at) tt) (λ j ne. inv.calls j);
  }

  -- An operation of the library that publishes nothing, and neither makes nor returns a version.
  pub quiet-Inv :
      {m : Mem} {t : Thread} (mv : Move s.lib.mem (s.lib.thr i) m t) (u : User)
      → m.avail ≡ s.lib.mem.avail
      → ((k : ℕ) → handle_of (m.cb k) ≡ handle_of (s.lib.mem.cb k))
      → t.fresh ≡ (s.lib.thr i).fresh
      → ((h : ℕ) → t.held ≡ some h → inv.shown h ≡ true)
      → Stands s.object s.heap inv.cur t.fresh t.held u
      → Calls t u t.pc
      → uncounted u t.fresh ≡ uncounted (s.user i) (s.lib.thr i).fresh
      → Inv n (after s i mv u)
  quiet-Inv {m} {t} mv u avail same own old st ca count = record {
    shown = inv.shown;
    cur = inv.cur;
    base = quiet-Objects few inv.base i lt mv avail same own old;
    current_real = λ e. inv.current_real (sym (same 0) ∙ e);
    current_value = λ a e. inv.current_value a (ap s.object (sym (same 0)) ∙ e);
    total_writes =
        inv.total_writes
        ∙ sum-same n (writes s) (writes (after s i mv u)) (λ j _.
          update_both (λ j t' u'. writes s j ≡ s.ops j + uncounted u' t'.fresh) s.lib.thr s.user i t
            u (ap (λ x. s.ops i + x) (sym count)) (λ j ne. refl) j);
    good = λ h e. inv.good h (ap (λ f. f h) (sym avail) ∙ e);
    stands =
        update_both (λ j t' u'. Stands s.object s.heap inv.cur t'.fresh t'.held u') s.lib.thr s.user
          i t u st (λ j ne. inv.stands j);
    calls =
        update_both (λ j t' u'. Calls t' u' t'.pc) s.lib.thr s.user i t u ca (λ j ne. inv.calls j);
  }
