-- ===== src/Load/Parsed.antt =====
-- What `parse_args` accepts, and what it makes of the options.
pub mod Known
use atomsnap.Common.{
  inl, inr, ap, Option-cases, ℕ, zero, suc, ◌%◌, ◌^◌, ◌<◌, ◌≡◌, ◌⊎◌, ◌↔◌, refl, Bool, true, false,
  Option, none, some, List, [], ◌∷◌, ◌++◌, arith, if◌then◌else◌,
}
use atomsnap.Common.Int.{ℤ, pos, negsuc}
use atomsnap.Load.Options.{
  Text, codes, Config, default_config, starts_with, drop, after_equals, getv, same, not_positive,
  not_zero, option, parse_arg, parse_loop, is_valid, parse_args,
}
use atomsnap.Load.Parsed.Known.{AreOptions, settled, parse_loop_lem}

abbrev pub IsPositive : ℤ → Type 0
IsPositive z = (n : ℕ) × (z ≡ pos (suc n))

-- A configuration that the benchmark can run.
abbrev pub CanRun : Config → Type 0
CanRun c =
    IsPositive c.readers
    × IsPositive c.writers
    × IsPositive c.duration_sec
    × IsPositive c.shards
    × ((c.backend ≡ codes "urcu") ⊎ (c.backend ≡ codes "atomsnap"))
    × (c.backend ≡ codes "urcu" → (c.reclaim ≡ codes "async") ⊎ (c.reclaim ≡ codes "sync-batch"))

same_refl : (s : Text) → same s s ≡ true
unfolding same
same_refl [] = refl
same_refl (b ∷ s) = ground (arith, same_refl s)

same_eq : (s t : Text) → same s t ≡ true → s ≡ t
unfolding same
same_eq [] [] h = refl
same_eq [] (c ∷ t) h = ground arith
same_eq (b ∷ s) [] h = ground arith
same_eq (b ∷ s) (c ∷ t) h = ground (arith, same_eq s t)

positive : (z : ℤ) → not_positive z ≡ false → IsPositive z
positive (pos zero) h = ground arith
positive (pos (suc n)) h = (n, refl)
positive (negsuc n) h = ground arith

valid-CanRun : (c : Config) → is_valid c ≡ true → CanRun c
valid-CanRun c h = (
  positive c.readers (ground arith),
  positive c.writers (ground arith),
  positive c.duration_sec (ground arith),
  positive c.shards (ground arith),
  ground (arith, same_eq c.backend (codes "urcu"), same_eq c.backend (codes "atomsnap")),
  λ e. ground (
    arith,
    same_eq c.reclaim (codes "async"),
    same_eq c.reclaim (codes "sync-batch"),
    e,
    same_refl (codes "urcu"),
  ),
)

CanRun-valid : (c : Config) → CanRun c → is_valid c ≡ true
CanRun-valid c can = ground (
  arith,
  can,
  same_refl (codes "urcu"),
  same_refl (codes "atomsnap"),
  same_refl (codes "async"),
  same_refl (codes "sync-batch"),
  same_eq c.backend (codes "urcu"),
)

kept :
    (b : Bool) (c' c : Config)
    → (if b then some c' else none) ≡ some c
    → (b ≡ true) × (some c' ≡ some c)
kept true c' c h = (refl, h)
kept false c' c h = ground arith

-- The test of what the loop left.
checked_lem :
    (r : Option Config) (c : Config)
    → ((elim r [ some c' ↦ if is_valid c' then some c' else none | none ↦ none ]) ≡ some c)
      ↔ ((r ≡ some c) × CanRun c)
checked_lem none c = (λ h. ground arith, λ h. h.0)
checked_lem (some c') c = (
  λ h. let (valid, e) = kept (is_valid c') c' c h in (e, ground (arith, e, valid-CanRun c' valid)),
  λ h. ground (arith, h, CanRun-valid c h.1),
)

module _ (atoi : Text → ℤ) (strtoull : Text → ℕ) where
  -- `parse_args` accepts exactly the arguments of which each is one of the fourteen keys, '=' and a value,
  -- and which, set one after the other on the defaults, leave a configuration that can run: at least one
  -- reader, one writer, one second and one shard, a backend of the two, and for `urcu` a reclaim of the
  -- two. That configuration is the result.
  pub parse_args_lem :
      (argv : List Text) (c : Config)
      → (parse_args atoi strtoull argv ≡ some c)
        ↔ (AreOptions argv × (settled atoi strtoull argv default_config ≡ c) × CanRun c)
  unfolding parse_args
  parse_args_lem argv c =
      let checked = checked_lem (parse_loop atoi strtoull argv default_config) c in
      let parsed = parse_loop_lem atoi strtoull argv default_config c in
      (
        λ e. let (ran, can) = checked.0 e in let (known, set) = parsed.0 ran in (known, set, can),
        λ (known, set, can). checked.1 (parsed.1 (known, set), can),
      )

-- `--pin=0` and the like.
abbrev flag : Bool → ℤ
flag true = pos 1
flag false = pos 0

-- The arguments that ask for a configuration.
abbrev pub args : (show_i : ℤ → Text) → (show_u : ℕ → Text) → Config → List Text
args show_i show_u c =
    (codes "--backend=" ++ c.backend)
    ∷ (codes "--reclaim=" ++ c.reclaim)
    ∷ (codes "--readers=" ++ show_i c.readers)
    ∷ (codes "--writers=" ++ show_i c.writers)
    ∷ (codes "--duration=" ++ show_i c.duration_sec)
    ∷ (codes "--cs-ns=" ++ show_u c.cs_ns)
    ∷ (codes "--payload=" ++ show_u c.payload_bytes)
    ∷ (codes "--updates-per-sec=" ++ show_u c.updates_per_sec)
    ∷ (codes "--shards=" ++ show_i c.shards)
    ∷ (codes "--sync-batch=" ++ show_u c.sync_batch)
    ∷ (codes "--pin=" ++ show_i (flag c.pin))
    ∷ (codes "--pin-base-cpu=" ++ show_i c.pin_base)
    ∷ (codes "--sample-pow2=" ++ show_u c.sample_pow2)
    ∷ (codes "--csv=" ++ show_i (flag c.csv))
    ∷ []

-- What `int` can hold.
abbrev pub IsInt : ℤ → Type 0
IsInt (pos n) = n < 2 ^ 31
IsInt (negsuc n) = n < 2 ^ 31

-- The numbers fit their types.
abbrev pub Fits : Config → Type 0
Fits c =
    (c.cs_ns < 2 ^ 64)
    × (c.payload_bytes < 2 ^ 64)
    × (c.updates_per_sec < 2 ^ 64)
    × (c.sync_batch < 2 ^ 32)
    × (c.sample_pow2 < 2 ^ 32)
    × IsInt c.readers
    × IsInt c.writers
    × IsInt c.duration_sec
    × IsInt c.shards
    × IsInt c.pin_base

flag-IsInt : (b : Bool) → IsInt (flag b)
flag-IsInt true = omega arith
flag-IsInt false = omega arith

whole_64 : (n : ℕ) → n < 2 ^ 64 → n % 2 ^ 64 ≡ n
whole_64 n lt = omega (arith, lt)

whole_32 : (n : ℕ) → n < 2 ^ 32 → n % 2 ^ 32 ≡ n
whole_32 n lt = omega (arith, lt)

flag_lem : (b : Bool) → not_zero (flag b) ≡ b
flag_lem true = refl
flag_lem false = refl

-- Whatever the integers are printed as, if `atoi` and `strtoull` read back those of `int` and of 64 bits:
-- the arguments that ask for a configuration that can run, with numbers that fit, are parsed to that
-- configuration.
pub parse_args-args :
    (atoi : Text → ℤ) (strtoull : Text → ℕ) (show_i : ℤ → Text) (show_u : ℕ → Text)
    → ((z : ℤ) → IsInt z → atoi (show_i z) ≡ z)
    → ((n : ℕ) → n < 2 ^ 64 → strtoull (show_u n) ≡ n)
    → (c : Config) → Fits c
    → CanRun c
    → parse_args atoi strtoull (args show_i show_u c) ≡ some c
unfolding parse_args parse_loop parse_arg option getv starts_with drop after_equals
parse_args-args atoi strtoull show_i show_u back_i back_u c fits can =
    let (cs, payload, updates, batch, sample, readers, writers, duration, shards, pin_base) =
      fits in
    rw
      (
        back_i c.readers readers,
        back_i c.writers writers,
        back_i c.duration_sec duration,
        back_i c.shards shards,
        back_i c.pin_base pin_base,
        back_i (flag c.pin) (flag-IsInt c.pin),
        back_i (flag c.csv) (flag-IsInt c.csv),
        back_u c.cs_ns cs,
        back_u c.payload_bytes payload,
        back_u c.updates_per_sec updates,
        back_u c.sync_batch (omega (arith, batch)),
        back_u c.sample_pow2 (omega (arith, sample)),
        flag_lem c.pin,
        flag_lem c.csv,
        whole_64 c.cs_ns cs,
        whole_64 c.payload_bytes payload,
        whole_64 c.updates_per_sec updates,
        whole_64 c.sync_batch (omega (arith, batch)),
        whole_64 c.sample_pow2 (omega (arith, sample)),
        whole_32 c.sync_batch batch,
        whole_32 c.sample_pow2 sample,
        CanRun-valid c can,
      )
      refl
