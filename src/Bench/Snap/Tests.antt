-- ===== src/Bench/Snap/Tests.antt =====
-- A writer that publishes one version while a reader reads, and the theorems at the states reached.
use atomsnap.Common.{
  false, ℕ, zero, suc, ◌<◌, ◌≡◌, ◌≢◌, refl, Bool, true, some, ◌==◌, arith, ℕ_discrete,
}
use atomsnap.Common.Family.{sum}
use atomsnap.Word.Pair.{handle_of, detached_state}
use atomsnap.Protocol.Machine.{
  Pc, comparing, swapped, adjusting, checking, reclaiming, cas_win, load_inner, adjust_win, check,
}
use atomsnap.Bench.Snap.Machine.{
  Bare, w_bare, w_cas, Data, w_first, w_top, w_got, w_cas, w_again, r_got, exited, crashed, System,
  Step, inside, make_version, set_object, acquire_version, write1, write2, compare_exchange, read1,
  read2, Reach, start, later,
}
use atomsnap.Bench.Snap.Safety.{never_fails, no_lost_update}

record Run (n : ℕ) (is_writer : ℕ → Bool) (h a : ℕ) : Type 0 where
  last : System
  reach : Reach false n is_writer h a last

-- Thread 1 writes, thread 2 reads; `main` has published version 7 at address 40.
abbrev writes_at : ℕ → Bool
writes_at i = i == 1

abbrev Runs : Type 0
Runs = Run 3 writes_at 7 40

abbrev step : (r : Runs) {t : System} → Step false 3 r.last t → Runs
step r st = record { last = _; reach = later r.reach st }

abbrev boot : Runs
boot = record { last = _; reach = start }

abbrev raw : Data
raw = record { value1 = 11; value2 = 12 }

abbrev prepared : Runs
unfolding ℕ_discrete
prepared =
    step (step boot (make_version 1 8 refl refl refl (omega arith) w_first (omega arith) refl))
      (set_object 1 8 41 raw w_top (omega arith) refl refl refl refl)

-- The reader holds version 7 and has loaded its first value.
abbrev reading : Runs
unfolding ℕ_discrete
reading =
    step (step prepared (acquire_version 2 refl refl (r_got 0) (omega arith) refl))
      (read1 2 0 (omega arith) refl refl)

abbrev written : Runs
unfolding ℕ_discrete
written =
    step
      (step (step reading (acquire_version 1 refl refl w_got (omega arith) refl))
        (write1 1 (omega arith) refl refl))
      (write2 1 (omega arith) refl refl)

abbrev published : Runs
unfolding ℕ_discrete
published = step written (compare_exchange 1 refl (omega arith) refl)

comparing_busy :
    (k e w c : ℕ) → (comparing k e w c ≢ Pc.ready) × ((v : ℕ) → comparing k e w c ≢ reclaiming v)
comparing_busy k e w c = (λ z. cc, λ v z. cc)

swapped_busy : (o r : ℕ) → (swapped o r ≢ Pc.ready) × ((v : ℕ) → swapped o r ≢ reclaiming v)
swapped_busy o r = (λ z. cc, λ v z. cc)

adjusting_busy :
    (o r c : ℕ) → (adjusting o r c ≢ Pc.ready) × ((v : ℕ) → adjusting o r c ≢ reclaiming v)
adjusting_busy o r c = (λ z. cc, λ v z. cc)

checking_busy : (o st : ℕ) → (checking o st ≢ Pc.ready) × ((v : ℕ) → checking o st ≢ reclaiming v)
checking_busy o st = (λ z. cc, λ v z. cc)

cas_made : (b : Bare) → w_cas ≢ w_bare b
cas_made b z = cc

-- The writer's exchange succeeds, and detaches version 7, which the reader holds.
abbrev swapped_run : Runs
unfolding ℕ_discrete
swapped_run = step published (
    inside 1 (cas_win 0 7 8 (published.last.lib.mem.cb 0) refl refl) (omega arith)
      (comparing_busy 0 7 8 (published.last.lib.mem.cb 0)).0
      (comparing_busy 0 7 8 (published.last.lib.mem.cb 0)).1 cas_made)

abbrev detached_run : Runs
unfolding detached_state ℕ_discrete
detached_run =
    step
      (step
        (step swapped_run (
          inside 1 (load_inner 7 2 refl) (omega arith) (swapped_busy 7 2).0 (swapped_busy 7 2).1
            cas_made))
        (inside 1 (adjust_win 7 2 0 refl refl) (omega arith) (adjusting_busy 7 2 0).0
          (adjusting_busy 7 2 0).1 cas_made))
      (inside 1 (check 7 (detached_state 0 2) refl) (omega arith)
        (checking_busy 7 (detached_state 0 2)).0 (checking_busy 7 (detached_state 0 2)).1 cas_made)

-- The writer counts the version, and the reader makes its second load and its first check.
abbrev finished : Runs
unfolding detached_state ℕ_discrete
finished =
    step
      (step detached_run (make_version 1 9 refl refl refl (omega arith) w_again (omega arith) refl))
      (read2 2 0 0 (omega arith) refl refl)

never_fails_example : (finished.last.user 2 ≢ exited) × (finished.last.user 2 ≢ crashed)
never_fails_example =
    never_fails writes_at 7 40 (omega arith) (omega arith) (omega arith) finished.reach 2

outside : (i : ℕ) → i < 3 → finished.last.user i ≢ w_cas
unfolding detached_state ℕ_discrete
outside zero lt e = cc
outside (suc zero) lt e = cc
outside (suc (suc zero)) lt e = cc
outside (suc (suc (suc i))) lt e = absurd (omega (arith, lt))

no_lost_update_example :
    (c : ℕ) × (finished.last.object (handle_of (finished.last.lib.mem.cb 0)) ≡ some c)
    × (finished.last.alive c ≡ true)
    × ((finished.last.heap c).value1 ≡ sum 3 finished.last.ops)
    × ((finished.last.heap c).value2 ≡ sum 3 finished.last.ops)
no_lost_update_example =
    no_lost_update writes_at 7 40 (omega arith) (omega arith) (omega arith) finished.reach outside
