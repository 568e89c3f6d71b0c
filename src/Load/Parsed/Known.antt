-- ===== src/Load/Parsed/Known.antt =====
-- The arguments that `parse_args` knows, and what its loop sets.
use atomsnap.Common.{
  inl, inr, ap, Option-cases, ℕ, zero, suc, ◌≡◌, ◌⊎◌, ◌↔◌, refl, Option, none, some, List, [], ◌∷◌,
  ◌++◌, arith,
}
use atomsnap.Common.Int.{ℤ}
use atomsnap.Load.Options.{
  Text, codes, Config, starts_with, drop, after_equals, getv, option, parse_arg, parse_loop,
}

-- The keys of the options.
abbrev pub keys : List Text
keys =
    codes "--backend"
    ∷ codes "--reclaim"
    ∷ codes "--readers"
    ∷ codes "--writers"
    ∷ codes "--duration"
    ∷ codes "--cs-ns"
    ∷ codes "--payload"
    ∷ codes "--updates-per-sec"
    ∷ codes "--sync-batch"
    ∷ codes "--shards"
    ∷ codes "--pin"
    ∷ codes "--pin-base-cpu"
    ∷ codes "--sample-pow2"
    ∷ codes "--csv"
    ∷ []

-- `a` is one of the keys, '=' and a value.
abbrev pub IsOption : (a : Text) → List Text → Type 0
IsOption a [] = ⊥
IsOption a (k ∷ ks) = ((v : Text) × (a ≡ k ++ (b'=' ∷ v))) ⊎ IsOption a ks

abbrev pub AreOptions : List Text → Type 0
AreOptions [] = Unit {0}
AreOptions (a ∷ argv) = IsOption a keys × AreOptions argv

getv_lem : (a k v : Text) → getv a k ≡ some v → a ≡ k ++ (b'=' ∷ v)
unfolding getv starts_with drop after_equals
getv_lem [] [] v h = ground (arith, h)
getv_lem (b ∷ a) [] v h = ground (arith, h)
getv_lem [] (c ∷ k) v h = ground (arith, h)
getv_lem (b ∷ a) (c ∷ k) v h = ground (arith, h, getv_lem a k v)

getv-given : (k v : Text) → getv (k ++ (b'=' ∷ v)) k ≡ some v
unfolding getv starts_with drop after_equals
getv-given [] v = refl
getv-given (c ∷ k) v = ground (arith, getv-given k v)

abbrev later_keys : ℕ → List Text → List Text
later_keys zero ks = ks
later_keys (suc n) [] = []
later_keys (suc n) (k ∷ ks) = later_keys n ks

-- Some configuration is given.
abbrev Given : Option Config → Type 0
Given r = (c : Config) × (r ≡ some c)

module _ (atoi : Text → ℤ) (strtoull : Text → ℕ) where
  option-Given :
      (a k : Text) (set : Text → Config) (rest : Option Config) (ks : List Text)
      → (Given rest ↔ IsOption a ks)
      → (Given (option atoi strtoull a k set rest) ↔ IsOption a (k ∷ ks))
  unfolding option
  option-Given a k set rest ks others = elim (Option-cases (getv a k)) [
    | inl not_k ↦ (
      λ (c, e). inr (others.0 (c, ground (arith, e, not_k))),
      λ known. elim known [
        | inl (v, e) ↦ ground (arith, getv-given k v, ap (λ x. getv x k) e, not_k)
        | inr known' ↦ let (c, e) = others.1 known' in (c, ground (arith, not_k, e))
      ],
    )
    | inr (v, at) ↦ (λ given. inl (v, getv_lem a k v at), λ known. (set v, ground (arith, at)))
  ]

  no_keys : (a : Text) → Given none ↔ IsOption a []
  no_keys a = (λ (c, e). ground (arith, e), λ known. absurd known)

  parse_arg-Given : (a : Text) (c : Config) → Given (parse_arg atoi strtoull a c) ↔ IsOption a keys
  unfolding parse_arg option
  parse_arg-Given a c = option-Given a (codes "--backend") _ _ (later_keys 1 keys) (
      option-Given a (codes "--reclaim") _ _ (later_keys 2 keys) (
        option-Given a (codes "--readers") _ _ (later_keys 3 keys) (
          option-Given a (codes "--writers") _ _ (later_keys 4 keys) (
            option-Given a (codes "--duration") _ _ (later_keys 5 keys) (
              option-Given a (codes "--cs-ns") _ _ (later_keys 6 keys) (
                option-Given a (codes "--payload") _ _ (later_keys 7 keys) (
                  option-Given a (codes "--updates-per-sec") _ _ (later_keys 8 keys) (
                    option-Given a (codes "--sync-batch") _ _ (later_keys 9 keys) (
                      option-Given a (codes "--shards") _ _ (later_keys 10 keys) (
                        option-Given a (codes "--pin") _ _ (later_keys 11 keys) (
                          option-Given a (codes "--pin-base-cpu") _ _ (later_keys 12 keys) (
                            option-Given a (codes "--sample-pow2") _ _ (later_keys 13 keys) (
                              option-Given a (codes "--csv") _ _ (later_keys 14 keys)
                                (no_keys a))))))))))))))

  -- What the arguments set, one after the other; one that is no option sets nothing.
  abbrev pub settled : List Text → Config → Config
  settled [] c = c
  settled (a ∷ argv) c =
      settled argv (elim (parse_arg atoi strtoull a c) [ some c' ↦ c' | none ↦ c ])

  pub parse_loop_lem :
      (argv : List Text) (c c' : Config)
      → (parse_loop atoi strtoull argv c ≡ some c') ↔ (AreOptions argv × (settled argv c ≡ c'))
  unfolding parse_loop parse_arg getv starts_with
  parse_loop_lem [] c c' = (λ e. (tt, ground (arith, e)), λ (t, e). ap some e)
  parse_loop_lem (a ∷ argv) c c' = elim (Option-cases (parse_arg atoi strtoull a c)) [
    | inl unknown ↦ (
      λ e. ground (arith, e, unknown),
      λ (known, e).
          let (d, given) = (parse_arg-Given a c).1 known.0 in ground (arith, unknown, given),
    )
    | inr (d, at) ↦
        let both = parse_loop_lem argv d c' in
        rw at (
          λ e. (((parse_arg-Given a c).0 (d, at), (both.0 e).0), (both.0 e).1),
          λ (known, e). both.1 (known.1, e),
        )
  ]
