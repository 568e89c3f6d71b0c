-- ===== src/Bench/Renew/Calls.antt =====
-- The calls of the library keep the invariant.
use atomsnap.Common.{
  ℕ, ◌<◌, ◌^◌, ◌≡◌, ◌≢◌, ◌⊎◌, inl, inr, refl, sym, ◌∙◌, subst, Bool, true, Option, none, some,
  arith,
}
use atomsnap.Common.Family.{update_cases, update_both}
use atomsnap.Word.Pair.{handle_of}
use atomsnap.Protocol.Machine as Library
use atomsnap.Protocol.Machine.{Mem, Pc, comparing, reclaiming, Thread, version_of, after_swap}
use atomsnap.Protocol.Client.{reclaiming_out}
use atomsnap.Protocol.Objects.{dropped, inside-Quiet}
use atomsnap.Protocol.Objects.Calls.{callback-Objects}
use atomsnap.Bench.Renew.Code.{
  User, w_top, w_got, w_swap, r_top, r_got, r_done, System, delete_once,
}
use atomsnap.Bench.Renew.Machine.{after}
use atomsnap.Bench.Renew.Invariant.{Stands, Inv, quiet-Inv}

pub delete_once_lem :
    (alive : ℕ → Bool) (o : Option ℕ) (u : User)
    → ((a : ℕ) → o ≡ some a → alive a ≡ true)
    → delete_once alive o u ≡ u
delete_once_lem alive none u live = refl
delete_once_lem alive (some a) u live = rw (live a refl) refl

module _ {n : ℕ} {s : System} (few : n < 2 ^ 32) (inv : Inv n s) (i : ℕ) (lt : i < n) where
  pub acquire-Inv :
      (u : User) (at : (s.lib.thr i).pc ≡ Pc.ready) (none_held : (s.lib.thr i).held ≡ none)
      → ((s.user i ≡ w_top) × (u ≡ w_got)) ⊎ ((s.user i ≡ r_top) × (u ≡ r_got))
      → Inv n (after s i (Library.acquire 0 at none_held) u)
  acquire-Inv u at none_held went =
      let c0 = handle_of (s.lib.mem.cb 0) in
      let got : version_of c0 ≡ some c0 = ground (arith, inv.current_real) in
      let st : Stands s.object s.heap (s.lib.thr i).fresh (version_of c0) u = elim went [
        | inl (e, f) ↦
            subst (Stands s.object s.heap (s.lib.thr i).fresh (version_of c0)) (sym f) (c0, got)
        | inr (e, f) ↦
            subst (Stands s.object s.heap (s.lib.thr i).fresh (version_of c0)) (sym f) (c0, got)
      ] in
      quiet-Inv few inv i lt (Library.acquire 0 at none_held) u refl (λ k. ground arith) refl
        (λ h e. ground (arith, got, e, inv.base.gate_shown 0 inv.current_real)) st (inv.calls i)

  pub release-Inv :
      (h : ℕ) (u : User) (at : (s.lib.thr i).pc ≡ Pc.ready) (held_h : (s.lib.thr i).held ≡ some h)
      → ((s.user i ≡ w_swap) × (u ≡ w_top)) ⊎ ((s.user i ≡ r_done) × (u ≡ r_top))
      → Inv n (after s i (Library.release h at held_h) u)
  release-Inv h u at held_h went =
      let st : Stands s.object s.heap (s.lib.thr i).fresh none u = elim went [
        | inl (e, f) ↦ subst (Stands s.object s.heap (s.lib.thr i).fresh none) (sym f) tt
        | inr (e, f) ↦ subst (Stands s.object s.heap (s.lib.thr i).fresh none) (sym f) tt
      ] in
      quiet-Inv few inv i lt (Library.release h at held_h) u refl (λ k. refl) refl (λ h' e. cc) st
        (λ k e new c z. cc)

  pub inside-Inv :
      {m : Mem} {t : Thread} (mv : Library.Move s.lib.mem (s.lib.thr i) m t)
      → (s.lib.thr i).pc ≢ Pc.ready
      → ((v : ℕ) → (s.lib.thr i).pc ≢ reclaiming v)
      → Inv n (after s i mv (s.user i))
  inside-Inv mv busy going =
      let q = inside-Quiet s.lib i mv busy going (inv.calls i) in
      quiet-Inv few inv i lt mv (s.user i) q.same_avail q.same_gates q.same_fresh
        (λ h e. inv.base.held_shown i h (sym q.same_held ∙ e))
        (rw (q.same_fresh, q.same_held) (inv.stands i)) q.not_comparing

  pub callback-Inv :
      (v : ℕ) (at : (s.lib.thr i).pc ≡ reclaiming v)
      → Inv n
          (record (after s i (Library.reclaim v at) (delete_once s.alive (s.object v) (s.user i))) {
            alive = dropped s.alive (s.object v);
          })
  callback-Inv v at =
      let same : delete_once s.alive (s.object v) (s.user i) ≡ s.user i =
        delete_once_lem s.alive (s.object v) (s.user i)
          (λ a z. inv.base.alive_at v a (reclaiming_out few inv.base.reach i v at) z) in
      let t' : Thread = record (s.lib.thr i) { pc = Pc.ready } in
      record {
        shown = inv.shown;
        base = callback-Objects few inv.base i lt v at;
        good = λ h e. inv.good h (ground (arith, e));
        current_real = inv.current_real;
        stands =
            update_both (λ j t u. Stands s.object s.heap t.fresh t.held u) s.lib.thr s.user i t' _
              (subst (Stands s.object s.heap t'.fresh t'.held) (sym same) (inv.stands i))
              (λ j ne. inv.stands j);
        calls =
            update_cases (λ j t. (k e new c : ℕ) → t.pc ≢ comparing k e new c) s.lib.thr i t'
              (λ k e new c z. cc) (λ j ne. inv.calls j);
      }
