-- ===== src/Bench/Renew/Tests.antt =====
-- A writer replaces the version that a reader reads; values about the largest `int`.
use atomsnap.Common.{
  false, zero, suc, ◌+◌, true, none, some, ℕ, ◌-◌, ◌<◌, ◌^◌, ◌≡◌, ◌≢◌, ◌↔◌, inl, inr, refl, Bool,
  ◌==◌, arith, ℕ_discrete,
}
use atomsnap.Word.Pair.{u64, inner_cnt_inc, handle_of, detached_state}
use atomsnap.Protocol.Machine.{
  Pc, swapped, adjusting, checking, claiming, reclaiming, load_inner, adjust_win, check, claim,
}
use atomsnap.Bench.Renew.Code.{r_top, w_top, w_got, r_got, exited, crashed, System, narrowed}
use atomsnap.Bench.Renew.Machine.{
  Refused, make_null, set_null, exchange_null, pick_null, read_value2, Move, inside, callback,
  release_version, acquire_version, get_value1, get_value2, make_version, set_object,
  exchange_version, read_value1, pick, Reach, start, later,
}
use atomsnap.Bench.Renew.Safety.{values_agree}
use atomsnap.Bench.Renew.Deleted.{one_object_left}

narrowed_small : narrowed 7 ≡ 7
narrowed_small = refl

-- 2^31 comes back as -2^31.
narrowed_wraps : narrowed (2 ^ 31) ≡ 2 ^ 64 - 2 ^ 31
narrowed_wraps = refl

record Run (n : ℕ) (is_writer : ℕ → Bool) (h a : ℕ) : Type 0 where
  last : System
  reach : Reach false n is_writer h a last

abbrev writes_at : ℕ → Bool
writes_at i = i == 1

abbrev Runs : Type 0
Runs = Run 3 writes_at 7 40

abbrev step : (r : Runs) (i : ℕ) {t : System} → i < 3 → Move i r.last t → Runs
step r i lt mv = record { last = _; reach = later r.reach (pick i lt mv) }

abbrev boot : Runs
boot = record { last = _; reach = start }

abbrev reading : Runs
unfolding ℕ_discrete
reading =
    step (step boot 2 (omega arith) (acquire_version r_got refl refl (inr (refl, refl)))) 2
      (omega arith) (read_value1 refl refl)

abbrev prepared : Runs
unfolding ℕ_discrete
prepared =
    step
      (step (step reading 1 (omega arith) (acquire_version w_got refl refl (inl (refl, refl)))) 1
        (omega arith) (get_value1 refl refl))
      1 (omega arith) (get_value2 1 refl refl)

abbrev replaced : Runs
unfolding ℕ_discrete
replaced =
    step
      (step (step prepared 1 (omega arith) (make_version 1 1 8 refl refl refl (omega arith) refl)) 1
        (omega arith) (set_object 1 1 8 41 refl refl refl refl))
      1 (omega arith) (exchange_version 8 refl refl refl)

values_agree_example : (replaced.last.user 2 ≢ exited) × (replaced.last.user 2 ≢ crashed)
values_agree_example =
    values_agree writes_at 7 40 (omega arith) (omega arith) (omega arith) replaced.reach 2

busy_at :
    (o r c v st : ℕ)
    → ((swapped o r ≢ Pc.ready) × ((w : ℕ) → swapped o r ≢ reclaiming w))
      × ((adjusting o r c ≢ Pc.ready) × ((w : ℕ) → adjusting o r c ≢ reclaiming w))
      × ((checking v st ≢ Pc.ready) × ((w : ℕ) → checking v st ≢ reclaiming w))
      × ((claiming v ≢ Pc.ready) × ((w : ℕ) → claiming v ≢ reclaiming w))
busy_at o r c v st =
    ((λ z. cc, λ w z. cc), (λ z. cc, λ w z. cc), (λ z. cc, λ w z. cc), (λ z. cc, λ w z. cc))

-- The writer detaches version 7, which both hold, and releases it.
abbrev detached : Runs
unfolding detached_state ℕ_discrete
detached =
    step
      (step
        (step replaced 1 (omega arith)
          (inside (load_inner 7 2 refl) (busy_at 7 2 0 0 0).0.0 (busy_at 7 2 0 0 0).0.1))
        1 (omega arith)
        (inside (adjust_win 7 2 0 refl refl) (busy_at 7 2 0 0 0).1.0 (busy_at 7 2 0 0 0).1.1))
      1 (omega arith)
      (inside (check 7 (detached_state 0 2) refl) (busy_at 0 0 0 7 (detached_state 0 2)).2.0
        (busy_at 0 0 0 7 (detached_state 0 2)).2.1)

abbrev one_left : ℕ
one_left = u64 (detached_state 0 2 + inner_cnt_inc)

abbrev none_left : ℕ
none_left = u64 (one_left + inner_cnt_inc)

abbrev half_released : Runs
unfolding detached_state ℕ_discrete
half_released =
    step (step detached 1 (omega arith) (release_version 7 w_top refl refl (inl (refl, refl)))) 1
      (omega arith)
      (inside (check 7 one_left refl) (busy_at 0 0 0 7 one_left).2.0 (busy_at 0 0 0 7 one_left).2.1)

-- The reader is the last to release it, and the callback deletes its object.
abbrev released : Runs
unfolding detached_state ℕ_discrete
released =
    step
      (step
        (step
          (step (step half_released 2 (omega arith) (read_value2 0 refl refl)) 2 (omega arith)
            (release_version 7 r_top refl refl (inr (refl, refl))))
          2 (omega arith)
          (inside (check 7 none_left refl) (busy_at 0 0 0 7 none_left).2.0
            (busy_at 0 0 0 7 none_left).2.1))
        2 (omega arith) (inside (claim 7 refl) (busy_at 0 0 0 7 0).3.0 (busy_at 0 0 0 7 0).3.1))
      2 (omega arith) (callback 7 refl)

all_quiet :
    (i : ℕ)
    → ((released.last.lib.thr i).pc ≡ Pc.ready)
      × ((released.last.lib.thr i).held ≡ none)
      × ((released.last.lib.thr i).fresh ≡ none)
unfolding detached_state ℕ_discrete
all_quiet zero = (refl, refl, refl)
all_quiet (suc zero) = (refl, refl, refl)
all_quiet (suc (suc zero)) = (refl, refl, refl)
all_quiet (suc (suc (suc i))) = (ground arith, ground arith, ground arith)

one_object_left_example :
    (released.last.alive 41 ≡ true)
    ↔ (released.last.object (handle_of (released.last.lib.mem.cb 0)) ≡ some 41)
one_object_left_example =
    one_object_left writes_at 7 40 (omega arith) (omega arith) (omega arith) released.reach
      all_quiet 41

-- Without memory for a version the writer empties the gate, and the reader loads through NULL.
record Refusals : Type 0 where
  last : System
  reach : Reach true 3 writes_at 7 40 last

abbrev step_null : (r : Refusals) (i : ℕ) {t : System} → i < 3 → Move i r.last t → Refusals
step_null r i lt mv = record { last = _; reach = later r.reach (pick i lt mv) }

abbrev refuse : (r : Refusals) (i : ℕ) {t : System} → i < 3 → Refused i r.last t → Refusals
refuse r i lt mv = record { last = _; reach = later r.reach (pick_null i lt refl mv) }

abbrev emptied : Refusals
unfolding ℕ_discrete
emptied =
    refuse
      (refuse
        (refuse
          (step_null
            (step_null
              (step_null (record { last = _; reach = start }) 1 (omega arith)
                (acquire_version w_got refl refl (inl (refl, refl))))
              1 (omega arith) (get_value1 refl refl))
            1 (omega arith) (get_value2 1 refl refl))
          1 (omega arith) (make_null 1 1 refl refl refl))
        1 (omega arith) (set_null 1 1 41 refl refl refl refl))
      1 (omega arith) (exchange_null refl refl refl)

abbrev read_null : Refusals
unfolding ℕ_discrete
read_null =
    step_null
      (step_null emptied 2 (omega arith) (acquire_version r_got refl refl (inr (refl, refl)))) 2
      (omega arith) (read_value1 refl refl)

null_run : read_null.last.user 2 ≡ crashed
unfolding ℕ_discrete
null_run = refl
