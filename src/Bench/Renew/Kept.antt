-- ===== src/Bench/Renew/Kept.antt =====
-- Objects and the versions that have them.
use atomsnap.Common.{
  ℕ, ◌<◌, ◌^◌, ◌≡◌, ◌≢◌, ◌⊎◌, inl, inr, refl, sym, ap, ◌∙◌, true, false, Option, none, some, arith,
  ℕ_discrete,
}
use atomsnap.Common.Family.{update, update_cases, update_both}
use atomsnap.Word.Pair.{handle_null, handle_of}
use atomsnap.Protocol.Machine as Library
use atomsnap.Protocol.Machine.{Mem, Pc, reclaiming, Thread, version_of, after_swap}
use atomsnap.Protocol.Client.{reclaiming_out}
use atomsnap.Protocol.Objects.{
  dropped, dropped_was, inside-Quiet, make-ne-out, made_out, made-ne-made,
}
use atomsnap.Bench.Renew.Code.{
  Data, User, w_made, w_set, w_swap, System, value_one, value_two, read_one, read_two, delete_once,
}
use atomsnap.Bench.Renew.Machine.{after, go}
use atomsnap.Bench.Renew.Invariant.{Inv}
use atomsnap.Bench.Renew.Calls.{delete_once_lem}

-- The thread has not made a version that has no object yet.
abbrev pub Filled : User → Type 0
Filled u = (v v' : ℕ) → u ≢ w_made v v'

pub record Kept (s : System) : Type 0 where
  pub unset :
      (i h v v' : ℕ) → (s.lib.thr i).fresh ≡ some h → s.user i ≡ w_made v v' → s.object h ≡ none
  pub placed :
      (a : ℕ) → s.alive a ≡ true → (h : ℕ) × (s.lib.mem.avail h ≡ false) × (s.object h ≡ some a)
  pub one_gate : (k : ℕ) → k ≢ 0 → handle_of (s.lib.mem.cb k) ≡ handle_null

pub value_one-Filled : (heap : ℕ → Data) (o : Option ℕ) → Filled (value_one heap o)
value_one-Filled heap none v v' z = cc
value_one-Filled heap (some b) v v' z = cc

pub value_two-Filled : (heap : ℕ → Data) (v : ℕ) (o : Option ℕ) → Filled (value_two heap v o)
value_two-Filled heap v none w w' z = cc
value_two-Filled heap v (some b) w w' z = cc

pub read_one-Filled : (heap : ℕ → Data) (o : Option ℕ) → Filled (read_one heap o)
read_one-Filled heap none v v' z = cc
read_one-Filled heap (some b) v v' z = cc

pub read_two-Filled : (heap : ℕ → Data) (v : ℕ) (o : Option ℕ) → Filled (read_two heap v o)
read_two-Filled heap v none w w' z = cc
read_two-Filled heap v (some b) w w' z = ground (arith, z)

module _ {n : ℕ} {s : System} (few : n < 2 ^ 32) (inv : Inv n s) (kept : Kept s) (i : ℕ)
    (lt : i < n) where
  pub go-Kept : (u : User) → Filled u → Kept (go s i u)
  go-Kept u filled = record {
    unset =
        update_cases
          (λ j u'.
            (h v v' : ℕ) → (s.lib.thr j).fresh ≡ some h → u' ≡ w_made v v' → s.object h ≡ none)
          s.user i u (λ h v v' e z. absurd (filled v v' z)) (λ j ne. kept.unset j);
    placed = kept.placed;
    one_gate = kept.one_gate;
  }

  -- An operation of the library that neither makes, publishes nor returns a version.
  pub quiet-Kept :
      {m : Mem} {t : Thread} (mv : Library.Move s.lib.mem (s.lib.thr i) m t) (u : User)
      → m.avail ≡ s.lib.mem.avail
      → ((k : ℕ) → handle_of (m.cb k) ≡ handle_of (s.lib.mem.cb k))
      → t.fresh ≡ (s.lib.thr i).fresh
      → (u ≡ s.user i) ⊎ Filled u
      → Kept (after s i mv u)
  quiet-Kept {m} {t} mv u avail same own stays = record {
    unset =
        update_both
          (λ j t' u'. (h v v' : ℕ) → t'.fresh ≡ some h → u' ≡ w_made v v' → s.object h ≡ none)
          s.lib.thr s.user i t u
          (λ h v v' e z. elim stays [
            | inl w ↦ kept.unset i h v v' (sym own ∙ e) (sym w ∙ z)
            | inr filled ↦ absurd (filled v v' z)
          ])
          (λ j ne. kept.unset j);
    placed = λ a e. let (h, out, z) = kept.placed a e in (h, ap (λ f. f h) avail ∙ out, z);
    one_gate = λ k ne. same k ∙ kept.one_gate k ne;
  }

  pub inside-Kept :
      {m : Mem} {t : Thread} (mv : Library.Move s.lib.mem (s.lib.thr i) m t)
      → (s.lib.thr i).pc ≢ Pc.ready
      → ((v : ℕ) → (s.lib.thr i).pc ≢ reclaiming v)
      → Kept (after s i mv (s.user i))
  inside-Kept mv busy going =
      let q = inside-Quiet s.lib i mv busy going (inv.calls i) in
      quiet-Kept mv (s.user i) q.same_avail q.same_gates q.same_fresh (inl refl)

  -- The callback deletes the object of the version, and the version is no longer out.
  pub callback-Kept :
      (v : ℕ) (at : (s.lib.thr i).pc ≡ reclaiming v)
      → Kept
          (record (after s i (Library.reclaim v at) (delete_once s.alive (s.object v) (s.user i))) {
            alive = dropped s.alive (s.object v);
          })
  callback-Kept v at =
      let same : delete_once s.alive (s.object v) (s.user i) ≡ s.user i =
        delete_once_lem s.alive (s.object v) (s.user i)
          (λ a z. inv.base.alive_at v a (reclaiming_out few inv.base.reach i v at) z) in
      record {
        unset =
            update_both
              (λ j t u. (h w w' : ℕ) → t.fresh ≡ some h → u ≡ w_made w w' → s.object h ≡ none)
              s.lib.thr s.user i _ _ (λ h w w' e z. kept.unset i h w w' e (sym same ∙ z))
              (λ j ne. kept.unset j);
        placed = λ a e.
            let (live, other) = dropped_was s.alive (s.object v) a e in
            let (h, out, z) = kept.placed a live in
            (h, ground (arith, out, λ (w : v ≡ h). other (ap s.object w ∙ z)), z);
        one_gate = kept.one_gate;
      }

  pub make-Kept :
      (v v' h : ℕ) (at : (s.lib.thr i).pc ≡ Pc.ready) (none_made : (s.lib.thr i).fresh ≡ none)
      (is_free : s.lib.mem.avail h ≡ true) (small : h < handle_null)
      → Kept (record (after s i (Library.make h at none_made is_free small) (w_made v v')) {
        object = update s.object h none;
      })
  make-Kept v v' h at none_made is_free small = record {
    unset =
        update_both
          (λ j t u.
            (h' w w' : ℕ) → t.fresh ≡ some h' → u ≡ w_made w w' → update s.object h none h' ≡ none)
          s.lib.thr s.user i _ _ (λ h' w w' e z. ground (arith, e))
          (λ j ne h' w w' e z. ground (arith, kept.unset j h' w w' e z));
    placed = λ a e.
        let (h', out, z) = kept.placed a e in
        (h', ground (arith, out), ground (arith, make-ne-out s.lib.mem h h' is_free out, z));
    one_gate = kept.one_gate;
  }

  pub exchange-Kept :
      (h : ℕ) (at : (s.lib.thr i).pc ≡ Pc.ready) (made_h : (s.lib.thr i).fresh ≡ some h)
      → Kept (after s i (Library.exchange 0 (some h) at (inr (sym made_h))) w_swap)
  exchange-Kept h at made_h = record {
    unset =
        update_both
          (λ j t u. (h' w w' : ℕ) → t.fresh ≡ some h' → u ≡ w_made w w' → s.object h' ≡ none)
          s.lib.thr s.user i _ _ (λ h' w w' e z. cc) (λ j ne. kept.unset j);
    placed = kept.placed;
    one_gate = λ k ne. ground (arith, ne, kept.one_gate k ne);
  }

  -- The version had no object, so no object is lost.
  pub set-Kept :
      (v v' h a : ℕ)
      → (s.lib.thr i).fresh ≡ some h
      → s.user i ≡ w_made v v'
      → Kept (record s {
        object = update s.object h (some a);
        alive = update s.alive a true;
        heap = update s.heap a (record { value1 = v; value2 = v' });
        user = update s.user i w_set;
      })
  set-Kept v v' h a made_h here = record {
    unset =
        update_cases
          (λ j u.
            (h' w w' : ℕ)
            → (s.lib.thr j).fresh ≡ some h'
            → u ≡ w_made w w'
            → update s.object h (some a) h' ≡ none)
          s.user i w_set (λ h' w w' e z. cc)
          (λ j ne h' w w' e z.
            ground
              (arith, made-ne-made few inv.base i j h h' ne made_h e, kept.unset j h' w w' e z));
    placed = λ b e. elim (ℕ_discrete a b) [
      | yes w ↦ (h, made_out few inv.base i h made_h, ground (arith, w))
      | no ne ↦
          let (h', out, z) = kept.placed b (ground (arith, e, ne)) in
          (
            h',
            out,
            ground (arith, z, kept.unset i h v v' made_h here, λ (w : h ≡ h'). ap s.object w),
          )
    ];
    one_gate = kept.one_gate;
  }
