-- ===== src/Load/Burn.antt =====
-- `CsBurner` of microbench/bench2/bench_common.hpp. `double` and the clock are parameters: `reads` is how
-- many nanoseconds the loop took for its k-th measurement.
use mathlib.Core.Option
use atomsnap.Common.{
  ℕ, zero, suc, ◌+◌, ◌*◌, ◌%◌, ◌^◌, ◌≤◌, ◌<◌, ◌≡◌, ◌⊎◌, Bool, Option, none, some, ltb, leb, ◌==◌,
  if◌then◌else◌,
}

-- What the code uses of `double`.
pub record Doubles : Type 1 where
  pub Double : Type 0
  pub one : Double
  pub from : ℕ → Double
  pub over : Double → Double → Double
  pub times : Double → Double → Double
  pub at_most_zero : Double → Bool
  pub to_u64 : Double → ℕ

module _ (d : Doubles) where
  -- The loop of `calibrate` on fuel, from `iters` on at measurement `k`; `none` if the fuel is spent.
  unfoldable pub measure : (fuel : ℕ) (reads : ℕ → ℕ) (target_ns k iters : ℕ) → Option d.Double
  measure zero reads target_ns k iters = none
  measure (suc fuel) reads target_ns k iters =
      let rest = measure fuel reads target_ns (k + 1) (iters * 2 % 2 ^ 64) in
      if leb target_ns (reads k)
      then some (d.over (d.from iters) (d.from (reads k)))
      else (if ltb (2 ^ 36) (iters * 2 % 2 ^ 64) then some d.one else rest)

  -- The check after the loop.
  unfoldable pub at_least : d.Double → d.Double
  at_least x = if d.at_most_zero x then d.one else x

  unfoldable pub calibrate : (fuel : ℕ) (reads : ℕ → ℕ) (target_ns : ℕ) → Option d.Double
  calibrate fuel reads target_ns = Option.map at_least (measure fuel reads target_ns 0 (2 ^ 16))

  -- How often `burn_ns` relaxes.
  unfoldable pub burn_ns : (iters_per_ns : d.Double) (ns : ℕ) → ℕ
  burn_ns iters_per_ns ns =
      if ns == 0
      then 0
      else (let iters = d.to_u64 (d.times (d.from ns) iters_per_ns) in
          if ltb iters 8 then 8 else iters)

  -- What the measurements from `k` on, with `iters` rounds at the first, come to.
  abbrev pub Measures : (reads : ℕ → ℕ) (target_ns k iters n : ℕ) → d.Double → Type 0
  Measures reads target_ns k iters n x =
      ((x ≡ d.one) × ((j : ℕ) → j < n → reads (k + j) < target_ns))
      ⊎ ((j : ℕ) × (j < n)
          × (target_ns ≤ reads (k + j))
          × (x ≡ d.over (d.from (iters * 2 ^ j)) (d.from (reads (k + j)))))
