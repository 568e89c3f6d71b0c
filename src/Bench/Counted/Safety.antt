-- ===== src/Bench/Counted/Safety.antt =====
-- What the readers see, and what the published object holds.
use atomsnap.Common.{ℕ, ◌+◌, ◌<◌, ◌≡◌, ◌≢◌, refl, sym, ◌∙◌, subst, Bool, arith}
use atomsnap.Common.Family.{sum, sum-same}
use atomsnap.Bench.Counted.Machine.{Pc, w_won, exited, crashed, System, Reach}
use atomsnap.Bench.Counted.Invariant.{At, uncounted, writes}
use atomsnap.Bench.Counted.Steps.{Reach-Inv}

all_counted : (pc : Pc) (ops : ℕ) → pc ≢ w_won → ops + uncounted pc ≡ ops
all_counted w_won ops ne = absurd (ne refl)
all_counted pc ops ne = omega arith

-- However n readers and writers over shared pointers interleave, no thread uses a null pointer, and no
-- reader reaches `exit(1)`: the values of an object that it loaded are equal, and not below those of its last
-- round.
pub readers_safe :
    {n : ℕ} {is_writer : ℕ → Bool} {a : ℕ} {s : System}
    → Reach n is_writer a s
    → (i : ℕ) → ((s.thr i).pc ≢ exited) × ((s.thr i).pc ≢ crashed)
readers_safe {s} r i =
    let at : (p : Pc)
        → (s.thr i).pc ≡ p
        → At s.mem.heap (s.mem.heap s.mem.global_ptr).value1 (s.thr i).new_data (s.thr i).loaded
            (s.thr i).prev_value p =
      λ p e.
        subst
          (At s.mem.heap (s.mem.heap s.mem.global_ptr).value1 (s.thr i).new_data (s.thr i).loaded
            (s.thr i).prev_value)
          e ((Reach-Inv r).stands i) in
    (at exited, at crashed)

-- However n readers and writers over shared pointers interleave, when none is between a compare-exchange
-- that succeeded and its `ops++`, both values of the published object are the sum of the `ops` of the
-- writers.
pub no_lost_swap :
    {n : ℕ} {is_writer : ℕ → Bool} {a : ℕ} {s : System}
    → Reach n is_writer a s
    → ((i : ℕ) → i < n → (s.thr i).pc ≢ w_won)
    → ((s.mem.heap s.mem.global_ptr).value1 ≡ sum n (λ j. (s.thr j).ops))
      × ((s.mem.heap s.mem.global_ptr).value2 ≡ sum n (λ j. (s.thr j).ops))
no_lost_swap {n} {s = s} r counted =
    let inv = Reach-Inv r in
    let all : sum n (writes s.thr) ≡ sum n (λ j. (s.thr j).ops) =
      sum-same n (writes s.thr) (λ j. (s.thr j).ops)
        (λ j lt. all_counted (s.thr j).pc (s.thr j).ops (counted j lt)) in
    (inv.written ∙ all, sym inv.equal ∙ inv.written ∙ all)
