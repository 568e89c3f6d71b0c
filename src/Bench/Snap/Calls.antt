-- ===== src/Bench/Snap/Calls.antt =====
-- The calls of the library keep the invariant, but for the exchange itself and the callback.
use atomsnap.Common.{ℕ, ◌<◌, ◌^◌, ◌≡◌, inr, refl, sym, ap, ◌∙◌, subst, Option, none, some, arith}
use atomsnap.Word.Pair.{handle_of}
use atomsnap.Protocol.Machine.{
  Mem, Pc, Thread, Move, acquire, release, compare, recheck, after_check, handle_or_null,
  version_of,
}
use atomsnap.Bench.Snap.Machine.{
  User, w_top, w_got, w_full, w_cas, w_done, r_top, r_got, r_done, System, after, acquired_from,
  released_from,
}
use atomsnap.Bench.Snap.Invariant.{Full, Stands, Calls, Good, uncounted, Inv}
use atomsnap.Bench.Snap.Frame.{quiet-Inv}
use atomsnap.Protocol.Client.{current_out}

module _ {n : ℕ} {s : System} (few : n < 2 ^ 32) (inv : Inv n s) (i : ℕ) (lt : i < n) where
  abbrev c0 : ℕ
  c0 = handle_of (s.lib.mem.cb 0)

  -- The published version.
  pub current-Good : Good s.object s.heap inv.cur c0
  current-Good =
      inv.good c0 (current_out few inv.base.reach 0 inv.current_real)
        (inv.base.gate_shown 0 inv.current_real)

  acquired_Stands :
      (u u' : User) (fresh held : Option ℕ)
      → acquired_from u ≡ some u'
      → Stands s.object s.heap inv.cur fresh held u
      → Stands s.object s.heap inv.cur fresh (some c0) u'
  acquired_Stands w_top u' fresh held e (h, a, made_h, f) =
      let got : w_got ≡ u' = cc in
      let (b, f', v, le) = current-Good in
      subst (Stands s.object s.heap inv.cur fresh (some c0)) got
        ((h, a, made_h, f), (c0, b, refl, f'))
  acquired_Stands (r_top prev) u' fresh held e st =
      let got : r_got prev ≡ u' = cc in
      let (b, f, v, le) = current-Good in
      subst (Stands s.object s.heap inv.cur fresh (some c0)) got
        (c0, b, refl, f, omega (arith, st, inv.current_value b f))
  acquired_Stands u u' fresh held e st = ground arith

  -- Neither call is made between an exchange and its `ops++`.
  acquired_uncounted :
      (u u' : User) (fresh fresh' : Option ℕ)
      → acquired_from u ≡ some u'
      → uncounted u' fresh ≡ uncounted u fresh'
  acquired_uncounted w_top u' fresh fresh' e = let got : w_got ≡ u' = cc in rw (sym got) refl
  acquired_uncounted (r_top prev) u' fresh fresh' e =
      let got : r_got prev ≡ u' = cc in rw (sym got) refl
  acquired_uncounted u u' fresh fresh' e = ground arith

  released_uncounted :
      (u u' : User) (fresh fresh' : Option ℕ)
      → released_from u ≡ some u'
      → uncounted u' fresh ≡ uncounted u fresh'
  released_uncounted w_done u' fresh fresh' e = let got : w_top ≡ u' = cc in rw (sym got) refl
  released_uncounted (r_done prev) u' fresh fresh' e =
      let got : r_top prev ≡ u' = cc in rw (sym got) refl
  released_uncounted u u' fresh fresh' e = ground arith

  pub acquire-Inv :
      (at : (s.lib.thr i).pc ≡ Pc.ready) (none_held : (s.lib.thr i).held ≡ none) (u : User)
      → acquired_from (s.user i) ≡ some u
      → Inv n (after s i (acquire 0 at none_held) u)
  acquire-Inv at none_held u e =
      let got : version_of c0 ≡ some c0 = ground (arith, inv.current_real) in
      let t' : Thread = record (s.lib.thr i) { held = version_of c0 } in
      quiet-Inv few inv i lt (acquire 0 at none_held) u refl (λ k. ground arith) refl
        (λ h held_h. ground (arith, got, (inv.base.gate_shown 0 inv.current_real)))
        (subst (λ v. Stands s.object s.heap inv.cur (s.lib.thr i).fresh v u) (sym got)
          (acquired_Stands (s.user i) u (s.lib.thr i).fresh (s.lib.thr i).held e (inv.stands i)))
        (subst (Calls t' u) (sym at) tt)
        (acquired_uncounted (s.user i) u (s.lib.thr i).fresh (s.lib.thr i).fresh e)

  released_Stands :
      (u u' : User) (fresh held held' : Option ℕ)
      → released_from u ≡ some u'
      → Stands s.object s.heap inv.cur fresh held u
      → Stands s.object s.heap inv.cur fresh held' u'
  released_Stands w_done u' fresh held held' e (h, a, made_h, f) =
      let got : w_top ≡ u' = cc in
      subst (Stands s.object s.heap inv.cur fresh held') got (h, a, made_h, f)
  released_Stands (r_done prev) u' fresh held held' e st =
      let got : r_top prev ≡ u' = cc in subst (Stands s.object s.heap inv.cur fresh held') got st
  released_Stands u u' fresh held held' e st = ground arith

  pub release-Inv :
      (h : ℕ) (at : (s.lib.thr i).pc ≡ Pc.ready) (held_h : (s.lib.thr i).held ≡ some h) (u : User)
      → released_from (s.user i) ≡ some u
      → Inv n (after s i (release h at held_h) u)
  release-Inv h at held_h u e =
      quiet-Inv few inv i lt (release h at held_h) u refl (λ k. refl) refl
        (λ h' e'. ground (arith, e'))
        (released_Stands (s.user i) u (s.lib.thr i).fresh (s.lib.thr i).held none e (inv.stands i))
        tt (released_uncounted (s.user i) u (s.lib.thr i).fresh (s.lib.thr i).fresh e)

  -- The loop of the compare-exchange, with what it compares and gives.
  pub recheck-Calls :
      (t : Thread) (u : User) (e new c : ℕ)
      → u ≡ w_cas
      → t.held ≡ some e
      → t.fresh ≡ some new
      → Calls t u (recheck 0 e new c)
  recheck-Calls t u e new c here held_e made_new = ground (arith, here, held_e, made_new)

  pub compare-Inv :
      (at : (s.lib.thr i).pc ≡ Pc.ready)
      → s.user i ≡ w_full
      → Inv n (
          after s i
            (compare 0 (s.lib.thr i).held (s.lib.thr i).fresh at (inr refl) (inr refl))
            w_cas)
  compare-Inv at here =
      let full : Full s.object s.heap (s.lib.thr i).fresh (s.lib.thr i).held =
        subst (Stands s.object s.heap inv.cur (s.lib.thr i).fresh (s.lib.thr i).held) here
          (inv.stands i) in
      let (h, a, o, b, made_h, f, held_o, f', v, w) = full in
      let c = s.lib.mem.cb 0 in
      let t' : Thread = record (s.lib.thr i) {
        pc = recheck 0 (handle_or_null (s.lib.thr i).held) (handle_or_null (s.lib.thr i).fresh) c;
      } in
      quiet-Inv few inv i lt
        (compare 0 (s.lib.thr i).held (s.lib.thr i).fresh at (inr refl) (inr refl)) w_cas refl
        (λ k. refl) refl (inv.base.held_shown i) (inr full)
        (recheck-Calls t' w_cas (handle_or_null (s.lib.thr i).held)
          (handle_or_null (s.lib.thr i).fresh) c refl
          (held_o ∙ ap some (sym (ap handle_or_null held_o)))
          (made_h ∙ ap some (sym (ap handle_or_null made_h))))
        (ap (uncounted w_cas) made_h ∙ sym (ap (λ u. uncounted u (s.lib.thr i).fresh) here))

  -- A state of the library's thread inside a call in which nothing that the benchmark reads has changed.
  pub still-Inv :
      {m : Mem} {t : Thread} (mv : Move s.lib.mem (s.lib.thr i) m t)
      → m.avail ≡ s.lib.mem.avail
      → m.cb ≡ s.lib.mem.cb
      → t.fresh ≡ (s.lib.thr i).fresh
      → t.held ≡ (s.lib.thr i).held
      → Calls t (s.user i) t.pc
      → Inv n (after s i mv (s.user i))
  still-Inv {m} {t} mv avail same own old ca =
      quiet-Inv few inv i lt mv (s.user i) avail (λ k. ap (λ f. handle_of (f k)) same) own
        (λ h e. inv.base.held_shown i h (sym old ∙ e)) (rw (own, old) (inv.stands i)) ca
        (ap (uncounted (s.user i)) own)

  pub after_check-Calls : (t : Thread) (u : User) (v st : ℕ) → Calls t u (after_check v st)
  after_check-Calls t u v st = ground arith
