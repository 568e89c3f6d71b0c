-- ===== src/Bench/Snap/Steps.antt =====
-- Every step of the benchmark keeps the invariant, and `main` starts it.
use atomsnap.Common.{
  ℕ, ◌<◌, ◌^◌, ◌≡◌, ◌≢◌, inl, inr, refl, sym, subst, Bool, true, false, none, arith, ◌⊎◌,
}
use atomsnap.Common.Family.{update, sum-zero}
use atomsnap.Word.Pair.{handle_null, handle_of}
use atomsnap.Protocol.Machine.{
  Mem, Pc, comparing, reclaiming, Thread, Move, make, discard, acquire, release, exchange, compare,
  cas_win, cas_lose, load_inner, adjust_win, adjust_lose, check, claim, reclaim, recheck,
  after_check,
}
use atomsnap.Protocol.Client.{first_published-Reach, first_published_idle}
use atomsnap.Bench.Snap.Machine.{
  w_start, r_top, joining, System, Step, refused, inside, callback, make_version, set_object,
  acquire_version, write1, write2, compare_exchange, not_swapped, release_version, read1, read2,
  read3, read4, after, init, Reach, start, later,
}
use atomsnap.Bench.Snap.Invariant.{Stands, Calls, writes, Inv}
use atomsnap.Bench.Snap.Calls.{
  acquire-Inv, release-Inv, recheck-Calls, compare-Inv, still-Inv, after_check-Calls,
}
use atomsnap.Bench.Snap.Swap.{win-Inv}
use atomsnap.Bench.Snap.Versions.{callback-Inv, make-Inv}
use atomsnap.Bench.Snap.Objects.{set-Inv}
use atomsnap.Bench.Snap.Accesses.{
  write1-Inv, write2-Inv, not_swapped-Inv, read1-Inv, read2-Inv, read3-Inv, read4-Inv,
}

module _ {n : ℕ} {s : System} (few : n < 2 ^ 32) (inv : Inv n s) (i : ℕ) (lt : i < n) where
  -- The operations inside a call, but for the callback.
  inside-Inv :
      {m : Mem} {t : Thread} (mv : Move s.lib.mem (s.lib.thr i) m t)
      → (s.lib.thr i).pc ≢ Pc.ready
      → ((v : ℕ) → (s.lib.thr i).pc ≢ reclaiming v)
      → Inv n (after s i mv (s.user i))
  inside-Inv (make h at e f g) busy alive = absurd (busy at)
  inside-Inv (discard h at e) busy alive = absurd (busy at)
  inside-Inv (acquire k at e) busy alive = absurd (busy at)
  inside-Inv (release h at e) busy alive = absurd (busy at)
  inside-Inv (exchange k v at e) busy alive = absurd (busy at)
  inside-Inv (compare k x v at e f) busy alive = absurd (busy at)
  inside-Inv (cas_win k e new c at same) busy alive = win-Inv few inv i lt k e new c at same
  inside-Inv (cas_lose k e new c at) busy alive =
      let ca : Calls (s.lib.thr i) (s.user i) (comparing k e new c) =
        subst (Calls (s.lib.thr i) (s.user i)) at (inv.calls i) in
      let t' : Thread = record (s.lib.thr i) { pc = recheck k e new (s.lib.mem.cb k) } in
      still-Inv few inv i lt (cas_lose k e new c at) refl refl refl refl (
        subst (λ (m : ℕ). Calls t' (s.user i) (recheck m e new (s.lib.mem.cb k))) (sym ca.0)
          (recheck-Calls few inv i lt t' (s.user i) e new (s.lib.mem.cb k) ca.1 ca.2 ca.3))
  inside-Inv (load_inner v r at) busy alive =
      still-Inv few inv i lt (load_inner v r at) refl refl refl refl tt
  inside-Inv (adjust_win v r c at e) busy alive =
      still-Inv few inv i lt (adjust_win v r c at e) refl refl refl refl tt
  inside-Inv (adjust_lose v r c at) busy alive =
      still-Inv few inv i lt (adjust_lose v r c at) refl refl refl refl tt
  inside-Inv (check v st at) busy alive =
      let t' : Thread = record (s.lib.thr i) { pc = after_check v st } in
      still-Inv few inv i lt (check v st at) refl refl refl refl
        (after_check-Calls few inv i lt t' (s.user i) v st)
  inside-Inv (claim v at) busy alive =
      still-Inv few inv i lt (claim v at) refl refl refl refl (ground arith)
  inside-Inv (reclaim v at) busy alive = absurd (alive v at)

Step-Inv : {n : ℕ} {s t : System} → n < 2 ^ 32 → Inv n s → Step false n s t → Inv n t
Step-Inv few inv (inside i mv lt busy alive made) = inside-Inv few inv i lt mv busy alive
Step-Inv few inv (refused i lt refuses mv) = ground (arith, refuses)
Step-Inv few inv (callback i v at lt) = callback-Inv few inv i lt v at
Step-Inv few inv (make_version i h at none_made is_free small u lt from) =
    make-Inv few inv i lt h at none_made is_free small u from
Step-Inv few inv (set_object i h a raw u lt at made_h dead from) =
    set-Inv few inv i h lt at made_h a raw u dead from
Step-Inv few inv (acquire_version i at none_held u lt from) =
    acquire-Inv few inv i lt at none_held u from
Step-Inv few inv (write1 i lt at here) = write1-Inv few inv i lt at here
Step-Inv few inv (write2 i lt at here) = write2-Inv few inv i lt at here
Step-Inv few inv (compare_exchange i at lt here) = compare-Inv few inv i lt at here
Step-Inv few inv (not_swapped i h lt at here made_h) = not_swapped-Inv few inv i lt at h here made_h
Step-Inv few inv (release_version i h at held_h u lt from) =
    release-Inv few inv i lt h at held_h u from
Step-Inv few inv (read1 i prev lt at here) = read1-Inv few inv i lt at prev here
Step-Inv few inv (read2 i prev v1 lt at here) = read2-Inv few inv i lt at prev v1 here
Step-Inv few inv (read3 i prev lt at here) = read3-Inv few inv i lt at prev here
Step-Inv few inv (read4 i lt at here) = read4-Inv few inv i lt at here

module _ {n : ℕ} (is_writer : ℕ → Bool) (h a : ℕ) (lt : 0 < n) (small : h < handle_null) where
  abbrev made : System
  made = init is_writer h a

  start_Stands : (j : ℕ) → Stands made.object made.heap 0 none none (made.user j)
  start_Stands j =
      let parts : (made.user j ≡ joining) ⊎ ((made.user j ≡ w_start) ⊎ (made.user j ≡ r_top 0)) =
        ground arith in
      elim parts [ inl e ↦ rw e tt | inr (inl e) ↦ rw e tt | inr (inr e) ↦ rw e (omega arith) ]

  start_writes : (j : ℕ) → writes made j ≡ 0
  start_writes j =
      let parts : (made.user j ≡ joining) ⊎ ((made.user j ≡ w_start) ⊎ (made.user j ≡ r_top 0)) =
        ground arith in
      elim parts [ inl e ↦ rw e refl | inr (inl e) ↦ rw e refl | inr (inr e) ↦ rw e refl ]

  word : handle_of (made.lib.mem.cb 0) ≡ h
  word = ground (arith, small)

  -- `main` starts with the invariant.
  start-Inv : Inv n made
  start-Inv = record {
    shown = update (λ _. false) h true;
    cur = 0;
    base = record {
      reach = first_published-Reach h lt small;
      fresh_hidden = λ j h' e. ground (arith, first_published_idle h j, e);
      held_shown = λ j h' e. ground (arith, first_published_idle h j, e);
      held_inside = λ j h' e. ground (arith, first_published_idle h j, e);
      gate_shown = λ k ne. ground (arith, small, ne);
      alive_at = λ h' b out e. ground (arith, e);
      apart = λ h1 h2 b out out' e e'. ground (arith, e, e');
    };
    current_real = λ e. ground (arith, word, small, e);
    current_value = λ b e. refl;
    total_writes = sym (sum-zero n (writes made) (λ j lt. start_writes j));
    good = λ h' out on. (a, ground (arith, on), refl, omega arith);
    stands = λ j.
        subst (λ (t : Thread). Stands made.object made.heap 0 t.fresh t.held (made.user j))
          (sym (first_published_idle h j)) (start_Stands j);
    calls =
        λ j. subst (λ (t : Thread). Calls t (made.user j) t.pc) (sym (first_published_idle h j)) tt;
  }

  -- Every state that `n` threads reach.
  pub Reach-Inv : {s : System} → n < 2 ^ 32 → Reach false n is_writer h a s → Inv n s
  Reach-Inv few start = start-Inv
  Reach-Inv few (later r st) = Step-Inv few (Reach-Inv few r) st
