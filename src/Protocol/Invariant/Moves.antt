-- ===== src/Protocol/Invariant/Moves.antt =====
-- Every reachable state satisfies the invariant.
use atomsnap.Common.{
  ℕ, ◌^◌, ◌<◌, ◌≡◌, refl, ◌⊎◌, inl, inr, Option, none, some, arith, ◌==◌, if◌then◌else◌,
}
use atomsnap.Common.Family.{update, total-eq-zero}
use atomsnap.Word.Pair.{handle_null, handle_of}
use atomsnap.Protocol.Machine.{
  Mem, Thread, Move, make, discard, acquire, release, exchange, compare, cas_win, cas_lose,
  load_inner, adjust_win, adjust_lose, check, claim, reclaim, System, Step, pick, init, Reach,
  start, later, comparing, handle_or_null,
}
use atomsnap.Protocol.Invariant.Defs.{free, holds, Inv}
use atomsnap.Protocol.Invariant.Reads.{acquire-Inv, release-Inv}
use atomsnap.Protocol.Invariant.Writes.{make-Inv, discard-Inv, swap-Inv, recheck-Inv}
use atomsnap.Protocol.Invariant.Ends.{
  adjust-Inv, load-Inv, reload-Inv, check-Inv, claim-Inv, reclaim-Inv,
}

module _ {n : ℕ} {m : Mem} {thr : ℕ → Thread} (few : n < 2 ^ 32) (inv : Inv n m thr) (i : ℕ)
    (lt : i < n) where
  -- A version given to a swap is the thread's own or NULL.
  own_handle :
      (new_ver : Option ℕ)
      → (new_ver ≡ none) ⊎ (new_ver ≡ (thr i).fresh)
      → (handle_or_null new_ver ≡ handle_null) ⊎ ((thr i).fresh ≡ some (handle_or_null new_ver))
  own_handle new_ver own = ground arith

  -- Publishing a version, named by its handle, gives it away.
  fresh_after :
      (new_ver : Option ℕ)
      → (new_ver ≡ none) ⊎ (new_ver ≡ (thr i).fresh)
      → elim new_ver [ none ↦ (thr i).fresh | some _ ↦ none ]
        ≡ (if handle_or_null new_ver == handle_null then (thr i).fresh else none)
  fresh_after none own = refl
  fresh_after (some h) own = ground (arith, inv.made i h, inv.handles h)

  -- What a thread knows in the loop of a compare-exchange.
  waiting :
      (k e new_handle c : ℕ)
      → (thr i).pc ≡ comparing k e new_handle c
      → (handle_of c ≡ e) × ((new_handle ≡ handle_null) ⊎ ((thr i).fresh ≡ some new_handle))
  waiting k e new_handle c at = ground (arith, inv.stands i)

  pub Move-Inv : {m' : Mem} {t' : Thread} → Move m (thr i) m' t' → Inv n m' (update thr i t')
  Move-Inv (make h at none_made is_free small) = make-Inv few inv i lt h at none_made is_free small
  Move-Inv (discard h at made_h) = discard-Inv few inv i lt h at made_h
  Move-Inv (acquire k at none_held) = acquire-Inv few inv i lt k at none_held
  Move-Inv (release h at held_h) = release-Inv few inv i lt h at held_h
  Move-Inv (exchange k new_ver at own) =
      rw (fresh_after new_ver own)
        (swap-Inv few inv i lt k (handle_or_null new_ver) (inl at) (own_handle new_ver own))
  Move-Inv (compare k expected new_ver at is_held own) =
      recheck-Inv few inv i lt k (handle_or_null expected) (handle_or_null new_ver) (inl at)
        (own_handle new_ver own)
  Move-Inv (cas_win k e new_handle c at same) =
      let (expected, own) = waiting k e new_handle c at in
      rw (← expected, ← same) (swap-Inv few inv i lt k new_handle (inr (e, c, at)) own)
  Move-Inv (cas_lose k e new_handle c at) =
      recheck-Inv few inv i lt k e new_handle (inr (c, at)) (waiting k e new_handle c at).1
  Move-Inv (load_inner v refs at) = load-Inv few inv i lt v refs at
  Move-Inv (adjust_win v refs cur at same) = adjust-Inv few inv i lt v refs cur at same
  Move-Inv (adjust_lose v refs cur at) = reload-Inv few inv i lt v refs cur at
  Move-Inv (check v st at) = check-Inv few inv i lt v st at
  Move-Inv (claim v at) = claim-Inv few inv i lt v at
  Move-Inv (reclaim v at) = reclaim-Inv few inv i lt v at

Inv-init : (n : ℕ) → Inv n init.mem init.thr
Inv-init n = record {
  phase = λ _. free;
  handles = λ h. (refl, total-eq-zero (holds h) n _ (λ _. refl));
  made = λ i h e. ground arith;
  stands = λ i. tt;
  slots = λ k ne. absurd (ne refl);
}

pub Step-Inv :
    {n : ℕ} {s t : System} → n < 2 ^ 32 → Step n s t → Inv n s.mem s.thr → Inv n t.mem t.thr
Step-Inv few (pick i lt mv) inv = Move-Inv few inv i lt mv

pub Reach-Inv : {n : ℕ} {s : System} → n < 2 ^ 32 → Reach n s → Inv n s.mem s.thr
Reach-Inv {n} few start = Inv-init n
Reach-Inv few (later r st) = Step-Inv few st (Reach-Inv few r)
