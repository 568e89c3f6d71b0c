-- ===== src/Protocol/Progress.antt =====
-- No thread waits for another: a call that runs alone returns, from any reachable state.
use atomsnap.Common.{ℕ, ◌^◌, ◌<◌, ◌≡◌, refl, ◌⊎◌, inl, inr, true, false, arith, ◌==◌, Bool-cases}
use atomsnap.Common.Family.{update}
use atomsnap.Word.Pair.{
  handle_null, inner_cnt, inner_flags, has_detached, has_finalized, handle_of, refs_of,
  detached_state, detached_state_lem,
}
use atomsnap.Protocol.Machine.{
  Mem, Pc, ready, comparing, swapped, adjusting, checking, claiming, reclaiming, aborted, Thread,
  Move, cas_win, cas_lose, load_inner, adjust_win, adjust_lose, check, claim, reclaim, System,
  Reach,
}
use atomsnap.Protocol.Invariant.Moves.{Reach-Inv}

-- Steps of the thread `i` alone.
pub data Solo (i : ℕ) : System → System → Type 0 where
  rest : {s : System} → Solo i s s
  act :
      {s u : System} {m : Mem} {t : Thread}
      → Move s.mem (s.thr i) m t
      → Solo i (record { mem = m; thr = update s.thr i t }) u
      → Solo i s u

-- The thread `i` comes to the end of its call by its own steps.
abbrev pub Returns : ℕ → System → Type 0
Returns i s = (t : System) × Solo i s t × ((t.thr i).pc ≡ ready)

module _ (i : ℕ) where
  stepped :
      {s : System} {m : Mem} {t : Thread}
      → Move s.mem (s.thr i) m t
      → Returns i (record { mem = m; thr = update s.thr i t })
      → Returns i s
  stepped mv (u, steps, done) = (u, act mv steps, done)

  abbrev moved : System → Mem → Thread → System
  moved s m t = record { mem = m; thr = update s.thr i t }

  from_reclaiming : (s : System) (v : ℕ) → (s.thr i).pc ≡ reclaiming v → Returns i s
  from_reclaiming s v at = stepped (reclaim v at) (_, rest, ground arith)

  from_claiming :
      (s : System) (v : ℕ)
      → (s.thr i).pc ≡ claiming v
      → has_finalized (inner_flags (s.mem.inner v)) ≡ false
      → Returns i s
  from_claiming s v at new = stepped (claim v at) (from_reclaiming _ v (ground arith))

  from_checking :
      (s : System) (v st : ℕ)
      → (s.thr i).pc ≡ checking v st
      → (has_detached (inner_flags st) ≡ true
          → inner_cnt st ≡ 0
          → has_finalized (inner_flags (s.mem.inner v)) ≡ false)
      → Returns i s
  from_checking s v st at new = elim (Bool-cases (has_detached (inner_flags st))) [
    | inr off ↦ stepped (check v st at) (_, rest, ground arith)
    | inl on ↦ elim (Bool-cases (inner_cnt st == 0)) [
      | inr more ↦ stepped (check v st at) (_, rest, ground arith)
      | inl zero_cnt ↦
          stepped (check v st at) (from_claiming _ v (ground arith) (new on (ground arith)))
    ]
  ]

  -- The word is as it was loaded.
  from_loaded :
      (s : System) (v refs : ℕ)
      → (s.thr i).pc ≡ adjusting v refs (s.mem.inner v)
      → inner_flags (s.mem.inner v) ≡ 0
      → Returns i s
  from_loaded s v refs at clear = stepped (adjust_win v refs (s.mem.inner v) at refl) (
      from_checking _ v (detached_state (s.mem.inner v) refs) (ground arith)
        (λ on zero_cnt. ground (arith, detached_state_lem (s.mem.inner v) refs)))

  from_adjusting :
      (s : System) (v refs cur : ℕ)
      → (s.thr i).pc ≡ adjusting v refs cur
      → inner_flags (s.mem.inner v) ≡ 0
      → Returns i s
  from_adjusting s v refs cur at clear =
      stepped (adjust_lose v refs cur at) (from_loaded _ v refs (ground arith) clear)

  from_swapped :
      (s : System) (v refs : ℕ)
      → (s.thr i).pc ≡ swapped v refs
      → inner_flags (s.mem.inner v) ≡ 0
      → Returns i s
  from_swapped s v refs at clear =
      stepped (load_inner v refs at) (from_loaded _ v refs (ground arith) clear)

  -- The version in slot `k` is not finalized.
  from_current :
      (s : System) (k e new_handle : ℕ)
      → (s.thr i).pc ≡ comparing k e new_handle (s.mem.cb k)
      → (e ≡ handle_null) ⊎ (inner_flags (s.mem.inner e) ≡ 0)
      → Returns i s
  from_current s k e new_handle at clear = elim (Bool-cases (e == handle_null)) [
    | inl null ↦ stepped (cas_win k e new_handle (s.mem.cb k) at refl) (_, rest, ground arith)
    | inr ver ↦
        stepped (cas_win k e new_handle (s.mem.cb k) at refl)
          (from_swapped _ e (refs_of (s.mem.cb k)) (ground arith) (ground arith))
  ]

  from_comparing :
      (s : System) (k e new_handle cur : ℕ)
      → (s.thr i).pc ≡ comparing k e new_handle cur
      → (handle_of (s.mem.cb k) ≡ handle_null)
        ⊎ (inner_flags (s.mem.inner (handle_of (s.mem.cb k))) ≡ 0)
      → Returns i s
  from_comparing s k e new_handle cur at clear = elim (Bool-cases (handle_of (s.mem.cb k) == e)) [
    | inl same ↦
        stepped (cas_lose k e new_handle cur at)
          (from_current _ k e new_handle (ground arith) (ground arith))
    | inr other ↦ stepped (cas_lose k e new_handle cur at) (_, rest, ground arith)
  ]

-- From every state that fewer than 2^32 threads reach, each thread can come to the end of its call by
-- steps of its own: there is a run of it alone that ends the call. A weak compare-exchange may also
-- fail in every round, so not every run does.
pub solo-Returns : {n : ℕ} {s : System} → n < 2 ^ 32 → Reach n s → (i : ℕ) → Returns i s
solo-Returns {s} few r i = from (s.thr i).pc refl
  where
    open (Reach-Inv few r) use {handles, stands, slots}

    from : (p : Pc) → (s.thr i).pc ≡ p → Returns i s
    from ready at = (s, rest, at)
    from (comparing k e new_handle cur) at =
        from_comparing i s k e new_handle cur at
          (ground (arith, slots k, handles (handle_of (s.mem.cb k))))
    from (swapped v refs) at = from_swapped i s v refs at (ground (arith, stands i, handles v))
    from (adjusting v refs cur) at =
        from_adjusting i s v refs cur at (ground (arith, stands i, handles v))
    from (checking v st) at =
        from_checking i s v st at (λ on z. ground (arith, stands i, handles v))
    from (claiming v) at = from_claiming i s v at (ground (arith, stands i, handles v))
    from (reclaiming v) at = from_reclaiming i s v at
    from aborted at = absurd (ground (arith, stands i))
