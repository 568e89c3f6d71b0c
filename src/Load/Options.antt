-- ===== src/Load/Options.antt =====
-- `Config` and `parse_args` of microbench/bench2/bench_all.cpp. A C string is the list of its bytes;
-- `atoi` and `strtoull` are parameters.
use Prim.Native.Char.{code}
use Prim.Native.String.{String}
use atomsnap.Common.{
  ℕ, zero, suc, ◌%◌, ◌^◌, Bool, true, false, not, ◌&&◌, ◌||◌, Option, none, some, List, [], ◌∷◌,
  length, ◌==◌, if◌then◌else◌,
}
use atomsnap.Common.Int.{ℤ, pos, negsuc}

abbrev pub Text : Type 0
Text = List ℕ

-- The bytes of an ASCII literal.
abbrev pub codes : String → Text
codes String.[] = []
codes (String.◌∷◌ c s) = code c ∷ codes s

pub record Config : Type 0 where
  pub backend : Text
  pub reclaim : Text
  pub readers : ℤ
  pub writers : ℤ
  pub duration_sec : ℤ
  pub shards : ℤ
  pub pin : Bool
  pub pin_base : ℤ
  pub cs_ns : ℕ
  pub payload_bytes : ℕ
  pub updates_per_sec : ℕ
  pub sync_batch : ℕ
  pub sample_pow2 : ℕ
  pub csv : Bool

-- The constructor.
abbrev pub default_config : Config
default_config = record {
  backend = codes "urcu";
  reclaim = codes "async";
  readers = pos 1;
  writers = pos 1;
  duration_sec = pos 5;
  shards = pos 1;
  pin = false;
  pin_base = pos 0;
  cs_ns = 0;
  payload_bytes = 0;
  updates_per_sec = 0;
  sync_batch = 1024;
  sample_pow2 = 0;
  csv = false;
}

unfoldable pub starts_with : (s p : Text) → Bool
starts_with s [] = true
starts_with [] (c ∷ p) = false
starts_with (b ∷ s) (c ∷ p) = if b == c then starts_with s p else false

-- The text from place `n` on.
unfoldable pub drop : ℕ → Text → Text
drop zero s = s
drop (suc n) [] = []
drop (suc n) (b ∷ s) = drop n s

-- `a + n + 1` if `a[n]` is '='.
unfoldable pub after_equals : Text → Option Text
after_equals [] = none
after_equals (b ∷ s) = if b == b'=' then some s else none

-- The lambda `getv`.
unfoldable pub getv : (a k : Text) → Option Text
getv a k = if starts_with a k then after_equals (drop (length k) a) else none

-- Equality of texts, as of `std::string`.
unfoldable pub same : (s t : Text) → Bool
same [] [] = true
same [] (c ∷ t) = false
same (b ∷ s) [] = false
same (b ∷ s) (c ∷ t) = if b == c then same s t else false

abbrev pub not_positive : ℤ → Bool
not_positive (pos zero) = true
not_positive (pos (suc n)) = false
not_positive (negsuc n) = true

abbrev pub not_zero : ℤ → Bool
not_zero (pos zero) = false
not_zero (pos (suc n)) = true
not_zero (negsuc n) = true

-- The checks after the loop.
abbrev pub is_valid : Config → Bool
is_valid c =
    not (not_positive c.readers || not_positive c.writers || not_positive c.duration_sec)
    && not (not_positive c.shards)
    && (same c.backend (codes "urcu") || same c.backend (codes "atomsnap"))
    && (if same c.backend (codes "urcu")
        then (same c.reclaim (codes "async") || same c.reclaim (codes "sync-batch"))
        else true)

module _ (atoi : Text → ℤ) (strtoull : Text → ℕ) where
  abbrev pub parse_i : Text → ℤ
  parse_i v = atoi v

  abbrev pub parse_u64 : Text → ℕ
  parse_u64 v = strtoull v % 2 ^ 64

  abbrev pub parse_sz : Text → ℕ
  parse_sz v = strtoull v % 2 ^ 64

  -- The chain of `else if` from one option on: the option's value is stored, or the rest is tried.
  unfoldable pub option : (a k : Text) → (Text → Config) → Option Config → Option Config
  option a k set rest = elim (getv a k) [ some v ↦ some (set v) | none ↦ rest ]

  -- The body of the loop; `none` is an unknown argument.
  unfoldable pub parse_arg : Text → Config → Option Config
  unfolding option
  parse_arg a c =
      option a (codes "--backend") (λ v. record c { backend = v })
        (option a (codes "--reclaim") (λ v. record c { reclaim = v })
          (option a (codes "--readers") (λ v. record c { readers = parse_i v })
            (option a (codes "--writers") (λ v. record c { writers = parse_i v })
              (option a (codes "--duration") (λ v. record c { duration_sec = parse_i v })
                (option a (codes "--cs-ns") (λ v. record c { cs_ns = parse_u64 v })
                  (option a (codes "--payload") (λ v. record c { payload_bytes = parse_sz v })
                    (option a (codes "--updates-per-sec")
                      (λ v. record c { updates_per_sec = parse_u64 v })
                      (option a (codes "--sync-batch")
                        (λ v. record c { sync_batch = parse_u64 v % 2 ^ 32 })
                        (option a (codes "--shards") (λ v. record c { shards = parse_i v })
                          (option a (codes "--pin") (λ v. record c { pin = not_zero (parse_i v) })
                            (option a (codes "--pin-base-cpu")
                              (λ v. record c { pin_base = parse_i v })
                              (option a (codes "--sample-pow2")
                                (λ v. record c { sample_pow2 = parse_u64 v % 2 ^ 32 })
                                (option a (codes "--csv")
                                  (λ v. record c { csv = not_zero (parse_i v) }) none)))))))))))))

  unfoldable pub parse_loop : List Text → Config → Option Config
  parse_loop [] c = some c
  parse_loop (a ∷ argv) c = elim (parse_arg a c) [ some c' ↦ parse_loop argv c' | none ↦ none ]

  -- The configuration that `main` goes on with; `none` is false.
  unfoldable pub parse_args : List Text → Option Config
  parse_args argv = elim (parse_loop argv default_config) [
    | some c ↦ if is_valid c then some c else none
    | none ↦ none
  ]
