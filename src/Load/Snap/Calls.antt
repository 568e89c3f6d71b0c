-- ===== src/Load/Snap/Calls.antt =====
-- The calls of the library keep the invariant of the backend.
use atomsnap.Common.{
  ℕ, ◌<◌, ◌^◌, ◌≡◌, ◌≢◌, inl, inr, refl, sym, ap, ◌∙◌, subst, Bool, true, false, Option, none, some,
  arith,
}
use atomsnap.Common.Family.{update, update_cases, update_both}
use atomsnap.Protocol.Machine as Library
use atomsnap.Protocol.Machine.{
  Mem, Pc, comparing, reclaiming, Thread, version_of, after_swap, after_check, make, discard,
  acquire, release, exchange, compare, cas_win, cas_lose, load_inner, adjust_win, adjust_lose,
  check, claim, reclaim,
}
use atomsnap.Protocol.Client.{reclaiming_out}
use atomsnap.Protocol.Objects.{dropped_was, moved, dropped, dropped_other, Objects, inside-Quiet}
use atomsnap.Protocol.Objects.Calls.{callback-Objects}
use atomsnap.Load.Snap.Code.{User, r_top, r_got, r_done, System, freed, free_user, after}
use atomsnap.Load.Snap.Invariant.{Stands, block_of, unset, Inv, quiet-Inv}

freed_user :
    (taken : ℕ → Bool) (o : Option ℕ) (u : User)
    → ((a : ℕ) → o ≡ some a → taken a ≡ true)
    → free_user taken o u ≡ u
freed_user taken none u live = refl
freed_user taken (some a) u live = rw (live a refl) refl

freed_lem : (taken : ℕ → Bool) (o : Option ℕ) → freed taken o ≡ dropped taken o
freed_lem taken none = refl
freed_lem taken (some a) = refl

freed_other :
    (taken : ℕ → Bool) (o : Option ℕ) (a : ℕ) → taken a ≡ true → o ≢ some a → freed taken o a ≡ true
freed_other taken o a live ne = ap (λ f. f a) (freed_lem taken o) ∙ dropped_other taken o a live ne

freed_was :
    (taken : ℕ → Bool) (o : Option ℕ) (a : ℕ)
    → freed taken o a ≡ true
    → (taken a ≡ true) × (o ≢ some a)
freed_was taken o a e = dropped_was taken o a (sym (ap (λ f. f a) (freed_lem taken o)) ∙ e)

module _ {n : ℕ} {s : System} (few : n < 2 ^ 32) (inv : Inv n s) (i : ℕ) (lt : i < n) where
  pub acquire-Inv :
      (shard : ℕ) (at : (s.lib.thr i).pc ≡ Pc.ready) (none_held : (s.lib.thr i).held ≡ none)
      → s.user i ≡ r_top shard
      → Inv n (after s i (acquire shard at none_held) (r_got shard))
  acquire-Inv shard at none_held here =
      quiet-Inv few inv i lt (acquire shard at none_held) (r_got shard) refl (λ k. ground arith)
        refl (λ h e. ground (arith, e, inv.base.gate_shown shard)) tt (sym (ap block_of here))
        (sym (ap unset here)) (λ k e new c z. cc)

  pub release-Inv :
      (h shard : ℕ) (at : (s.lib.thr i).pc ≡ Pc.ready) (held_h : (s.lib.thr i).held ≡ some h)
      → s.user i ≡ r_done shard
      → Inv n (after s i (release h at held_h) (r_top shard))
  release-Inv h shard at held_h here =
      quiet-Inv few inv i lt (release h at held_h) (r_top shard) refl (λ k. refl) refl
        (λ h' e. ground (arith, e)) tt (sym (ap block_of here)) (sym (ap unset here))
        (λ k e new c z. cc)

  pub inside-Inv :
      {m : Mem} {t : Thread} (mv : Library.Move s.lib.mem (s.lib.thr i) m t)
      → (s.lib.thr i).pc ≢ Pc.ready
      → ((v : ℕ) → (s.lib.thr i).pc ≢ reclaiming v)
      → Inv n (after s i mv (s.user i))
  inside-Inv mv busy going =
      let q = inside-Quiet s.lib i mv busy going (inv.calls i) in
      quiet-Inv few inv i lt mv (s.user i) q.same_avail q.same_gates q.same_fresh
        (λ h e. inv.base.held_shown i h (sym q.same_held ∙ e))
        (rw (q.same_fresh, q.same_held) (inv.stands i)) refl refl q.not_comparing

  -- The callback gives back a block that is taken, and no other version's nor any thread's own.
  pub callback-Inv :
      (v : ℕ) (at : (s.lib.thr i).pc ≡ reclaiming v)
      → Inv n (record (after s i (reclaim v at) (free_user s.taken (s.object v) (s.user i))) {
        taken = freed s.taken (s.object v);
      })
  callback-Inv v at =
      let out = reclaiming_out few inv.base.reach i v at in
      let same : free_user s.taken (s.object v) (s.user i) ≡ s.user i =
        freed_user s.taken (s.object v) (s.user i) (λ a z. inv.base.alive_at v a out z) in
      let t' : Thread = record (s.lib.thr i) { pc = Pc.ready } in
      let still : (h : ℕ)
          → update s.lib.mem.avail v true h ≡ false
          → (v ≢ h) × (s.lib.mem.avail h ≡ false) =
        λ h e. ground (arith, e) in
      let stays : (j : ℕ)
          → update s.user i (free_user s.taken (s.object v) (s.user i)) j ≡ s.user j =
        λ j. ground (arith, same) in
      record {
        shown = inv.shown;
        base =
            subst (λ f. Objects n (moved s.lib i (reclaim v at)) s.object f inv.shown)
              (sym (freed_lem s.taken (s.object v))) (callback-Objects few inv.base i lt v at);
        good = λ h e. inv.good h (still h e).1;
        block_taken = λ j a e.
            let e' = sym (ap block_of (stays j)) ∙ e in
            freed_other s.taken (s.object v) a (inv.block_taken j a e')
              (inv.block_own j a v e' out);
        block_own =
            λ j a h e e'. inv.block_own j a h (sym (ap block_of (stays j)) ∙ e) (still h e').1;
        block_one = λ j k a e f.
            inv.block_one j k a (sym (ap block_of (stays j)) ∙ e) (sym (ap block_of (stays k)) ∙ f);
        own_empty =
            update_both (λ j t u. (h : ℕ) → t.fresh ≡ some h → unset u ≡ true → s.object h ≡ none)
              s.lib.thr s.user i t' _ (λ h e z. inv.own_empty i h e (ap unset (sym same) ∙ z))
              (λ j ne. inv.own_empty j);
        placed = λ a e. elim (inv.placed a (freed_was s.taken (s.object v) a e).0) [
          | inl (j, z) ↦ inl (j, ap block_of (stays j) ∙ z)
          | inr (h, o, z) ↦ inr (
            h,
            ground (
              arith,
              o,
              λ (w : v ≡ h). (freed_was s.taken (s.object v) a e).1 (ap s.object w ∙ z),
            ),
            z,
          )
        ];
        stands =
            update_both (λ j t u. Stands s.object s.heap t.fresh t.held u) s.lib.thr s.user i t' _
              (subst (Stands s.object s.heap t'.fresh t'.held) (sym same) (inv.stands i))
              (λ j ne. inv.stands j);
        calls =
            update_cases (λ j t. (k e new c : ℕ) → t.pc ≢ comparing k e new c) s.lib.thr i t'
              (λ k e new c z. cc) (λ j ne. inv.calls j);
      }
