-- ===== src/Bench/Counted/Steps.antt =====
-- Every step of the benchmark over shared pointers keeps the invariant.
use atomsnap.Common.{ℕ, refl, sym, Bool, true, false, none, if◌then◌else◌, arith}
use atomsnap.Common.Family.{sum-zero}
use atomsnap.Bench.Counted.Machine.{
  w_start, r_top, System, Step, new_object, load, write1, write2, write_null, swap, swap_fails,
  read1, read2, read3, read4, init, Reach, start, later,
}
use atomsnap.Bench.Counted.Invariant.{At, writes, Inv}
use atomsnap.Bench.Counted.Publish.{new-Inv, swap-Inv}
use atomsnap.Bench.Counted.Accesses.{
  load-Inv, write1-Inv, write2-Inv, no_null, fails-Inv, read1-Inv, read2-Inv, read3-Inv, read4-Inv,
}

Step-Inv : {n : ℕ} {s t : System} → Inv n s → Step n s t → Inv n t
Step-Inv inv (new_object i a raw lt at ne none_has none_loaded) =
    new-Inv inv i lt a raw at ne none_has none_loaded
Step-Inv inv (load i p lt at) = load-Inv inv i lt p at
Step-Inv inv (write1 i a b lt at own old) = write1-Inv inv i lt a b at own old
Step-Inv inv (write2 i a b lt at own old) = write2-Inv inv i lt a b at own old
Step-Inv inv (write_null i lt at null) = absurd (no_null inv i lt at null)
Step-Inv inv (swap i a lt at own old) = swap-Inv inv i lt a at own old
Step-Inv inv (swap_fails i lt at ne) = fails-Inv inv i lt at
Step-Inv inv (read1 i lt at) = read1-Inv inv i lt at
Step-Inv inv (read2 i v1 lt at) = read2-Inv inv i lt v1 at
Step-Inv inv (read3 i lt at) = read3-Inv inv i lt at
Step-Inv inv (read4 i b lt at old) = read4-Inv inv i lt b at old

start-Inv : (n : ℕ) (is_writer : ℕ → Bool) (a : ℕ) → Inv n (init is_writer a)
start-Inv n is_writer a = record {
  equal = refl;
  good = λ i b e. ground (arith, e);
  unshared = λ i b e. ground (arith, e);
  unloaded = λ i j b e. ground (arith, e);
  apart = λ i j b e f. ground (arith, e);
  stands = λ i.
      elim (is_writer i)
        as (λ w.
          At (λ _. record { value1 = 0; value2 = 0 }) 0 none none 0
            (if w then w_start else r_top)) [ true ↦ tt | false ↦ omega arith ];
  written = sym (sum-zero n (writes (init is_writer a).thr) (λ j _. ground arith));
}

pub Reach-Inv :
    {n : ℕ} {is_writer : ℕ → Bool} {a : ℕ} {s : System} → Reach n is_writer a s → Inv n s
Reach-Inv {n} {is_writer} {a} start = start-Inv n is_writer a
Reach-Inv (later r st) = Step-Inv (Reach-Inv r) st
