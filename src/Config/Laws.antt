-- ===== src/Config/Laws.antt =====
-- What `Validate` demands of a configuration, and that `Load` gives no other.
use bqcubbit.Base.{
  Text, codes, str_eq, str_eq_refl, eq_of_str_eq, Bool, Bool-cases, Option-cases, true, false, not,
  Option, none, some, List, [], ◌∷◌, ◌++◌, All, subst, ◌≡◌, ◌≢◌, ◌⊎◌, inl, inr, refl, sym, ap, ◌∙◌,
  arith, pos, lt_int, if◌then◌else◌,
}
use bqcubbit.Config.{
  Config, ConfigError, no_project_id, no_location, no_endpoint, no_bucket, bad_strategy,
  bad_overlap_policy, few_workers, few_max_workers, is_empty, is_strategy, is_overlap_policy,
  validate, loaded, validated, load, path_or_env, default, no_path, read_error, parse_error,
}

-- The rule that an error stands for is broken.
pub data Breaks (c : Config) : ConfigError → Type 0 where
  project_id : c.source.project_id ≡ [] → Breaks c no_project_id
  location : c.source.location ≡ [] → Breaks c no_location
  endpoint : c.destination.endpoint ≡ [] → Breaks c no_endpoint
  bucket : c.destination.bucket ≡ [] → Breaks c no_bucket
  strategy :
      c.sync.incremental_strategy ≢ []
      → c.sync.incremental_strategy ≢ codes "full_refresh"
      → c.sync.incremental_strategy ≢ codes "partition"
      → Breaks c bad_strategy
  policy :
      c.scheduler.overlap_policy ≢ []
      → c.scheduler.overlap_policy ≢ codes "skip"
      → c.scheduler.overlap_policy ≢ codes "queue"
      → c.scheduler.overlap_policy ≢ codes "cancel_and_restart"
      → Breaks c bad_overlap_policy
  workers : lt_int c.worker_pool.min_workers (pos 1) ≡ true → Breaks c few_workers
  max_workers :
      lt_int c.worker_pool.max_workers c.worker_pool.min_workers ≡ true → Breaks c few_max_workers

-- Each rule as the test of the source.
breaks : Config → ConfigError → Bool
breaks c no_project_id = is_empty c.source.project_id
breaks c no_location = is_empty c.source.location
breaks c no_endpoint = is_empty c.destination.endpoint
breaks c no_bucket = is_empty c.destination.bucket
breaks c bad_strategy = not (is_strategy c.sync.incremental_strategy)
breaks c bad_overlap_policy = not (is_overlap_policy c.scheduler.overlap_policy)
breaks c few_workers = lt_int c.worker_pool.min_workers (pos 1)
breaks c few_max_workers = lt_int c.worker_pool.max_workers c.worker_pool.min_workers
breaks c _ = false

empty_of : (t : Text) → is_empty t ≡ true → t ≡ []
empty_of [] e = refl
empty_of (x ∷ t) e = absurd (cc)

is_empty_of : (t : Text) → t ≡ [] → is_empty t ≡ true
is_empty_of t e = ap is_empty e

eq_test : (t u : Text) → t ≡ u → str_eq t u ≡ true
eq_test t u e = ap (str_eq t) (sym e) ∙ str_eq_refl t

breaks_sound : (c : Config) (e : ConfigError) → breaks c e ≡ true → Breaks c e
unfolding breaks
breaks_sound c no_project_id h = project_id (empty_of c.source.project_id h)
breaks_sound c no_location h = location (empty_of c.source.location h)
breaks_sound c no_endpoint h = endpoint (empty_of c.destination.endpoint h)
breaks_sound c no_bucket h = bucket (empty_of c.destination.bucket h)
breaks_sound c bad_strategy h =
    let t : Text = c.sync.incremental_strategy in
    strategy (λ z. ground (arith, is_empty_of t z))
      (λ z. ground (arith, eq_test t (codes "full_refresh") z))
      (λ z. ground (arith, eq_test t (codes "partition") z))
breaks_sound c bad_overlap_policy h =
    let t : Text = c.scheduler.overlap_policy in
    policy (λ z. ground (arith, is_empty_of t z)) (λ z. ground (arith, eq_test t (codes "skip") z))
      (λ z. ground (arith, eq_test t (codes "queue") z))
      (λ z. ground (arith, eq_test t (codes "cancel_and_restart") z))
breaks_sound c few_workers h = workers h
breaks_sound c few_max_workers h = max_workers h
breaks_sound c no_path h = absurd (cc)
breaks_sound c read_error h = absurd (cc)
breaks_sound c parse_error h = absurd (cc)

breaks_complete : (c : Config) (e : ConfigError) → Breaks c e → breaks c e ≡ true
unfolding breaks
breaks_complete c e (project_id h) = is_empty_of c.source.project_id h
breaks_complete c e (location h) = is_empty_of c.source.location h
breaks_complete c e (endpoint h) = is_empty_of c.destination.endpoint h
breaks_complete c e (bucket h) = is_empty_of c.destination.bucket h
breaks_complete c e (strategy a b d) =
    let t : Text = c.sync.incremental_strategy in
    ground (
      arith,
      a,
      b,
      d,
      empty_of t,
      eq_of_str_eq t (codes "full_refresh"),
      eq_of_str_eq t (codes "partition"),
    )
breaks_complete c e (policy a b d f) =
    let t : Text = c.scheduler.overlap_policy in
    ground (
      arith,
      a,
      b,
      d,
      f,
      empty_of t,
      eq_of_str_eq t (codes "skip"),
      eq_of_str_eq t (codes "queue"),
      eq_of_str_eq t (codes "cancel_and_restart"),
    )
breaks_complete c e (workers h) = h
breaks_complete c e (max_workers h) = h

-- The rules in the order of the tests.
abbrev pub rules : List ConfigError
rules =
    no_project_id ∷ no_location ∷ no_endpoint ∷ no_bucket ∷ bad_strategy ∷ bad_overlap_policy
    ∷ few_workers ∷ few_max_workers ∷ []

first_broken : Config → List ConfigError → Option ConfigError
first_broken c [] = none
first_broken c (e ∷ es) = if breaks c e then some e else first_broken c es

validate_lem : (c : Config) → validate c ≡ first_broken c rules
unfolding validate first_broken breaks
validate_lem c = refl

first_broken_exact :
    (c : Config) (es : List ConfigError)
    → ((e : ConfigError) × (before after : List ConfigError) × (es ≡ before ++ e ∷ after)
        × (first_broken c es ≡ some e)
        × Breaks c e
        × All (λ f. ¬ (Breaks c f)) before)
      ⊎ ((first_broken c es ≡ none) × All (λ f. ¬ (Breaks c f)) es)
unfolding first_broken
first_broken_exact c [] = inr (refl, tt)
first_broken_exact c (e ∷ es) = elim (Bool-cases (breaks c e)) [
  | inl broken' ↦ inl (e, [], es, refl, rw (broken', first_broken), breaks_sound c e broken', tt)
  | inr kept ↦ elim (first_broken_exact c es) [
    | inl (f, before, after, split, found, bad, good) ↦ inl (
      f,
      e ∷ before,
      after,
      ap (λ (xs : List ConfigError). e ∷ xs) split,
      rw (kept, first_broken) found,
      bad,
      (holds kept, good),
    )
    | inr (nothing, good) ↦ inr (rw (kept, first_broken) nothing, (holds kept, good))
  ]
]
  where
    holds : breaks c e ≡ false → ¬ (Breaks c e)
    holds kept b = let h : breaks c e ≡ true = breaks_complete c e b in cc

-- `Validate` returns the error of the first rule that is broken, in the order of its tests, or nil
-- when every rule holds.
pub validate_exact :
    (c : Config)
    → ((e : ConfigError) × (before after : List ConfigError) × (rules ≡ before ++ e ∷ after)
        × (validate c ≡ some e)
        × Breaks c e
        × All (λ f. ¬ (Breaks c f)) before)
      ⊎ ((validate c ≡ none) × All (λ f. ¬ (Breaks c f)) rules)
validate_exact c = rw (validate_lem c) (first_broken_exact c rules)

-- What `Load` returns without an error is what the file says over the defaults, and breaks no rule.
pub load-loaded :
    (env : Text) (read_file : Text → Option Text) (unmarshal : Text → Config → Option Config)
    (path : Text) (c : Config)
    → load env read_file unmarshal path ≡ loaded c
    → ((content : Text) × (read_file (path_or_env path env) ≡ some content)
        × (unmarshal content default ≡ some c))
      × All (λ f. ¬ (Breaks c f)) rules
unfolding load
load-loaded env read_file unmarshal path c h = named (path_or_env path env) refl h
  where
    checked : (d : Config) → validated d ≡ loaded c → (d ≡ c) × All (λ f. ¬ (Breaks c f)) rules
    checked d e = elim (validate_exact d) [
      | inl (f, before, after, split, found, bad, kept) ↦ absurd (ground (arith, found, e))
      | inr (nothing, good) ↦
          let same : d ≡ c = ground (arith, nothing, e) in
          (same, subst (λ (x : Config). All (λ f. ¬ (Breaks x f)) rules) same good)
    ]

    named :
        (p : Text)
        → path_or_env path env ≡ p
        → load env read_file unmarshal path ≡ loaded c
        → ((content : Text) × (read_file (path_or_env path env) ≡ some content)
            × (unmarshal content default ≡ some c))
          × All (λ f. ¬ (Breaks c f)) rules
    named [] e h = absurd (cc (rw (e, load) at h))
    named (a ∷ p) e h = elim (Option-cases (read_file (a ∷ p))) [
      | inl missing ↦ absurd (cc (rw (e, load, missing) at h))
      | inr (content, found) ↦ elim (Option-cases (unmarshal content default)) [
        | inl broken' ↦ absurd (cc (rw (e, load, found, broken') at h))
        | inr (d, parsed) ↦
            let (same, good) = checked d (rw (e, load, found, parsed) at h) in
            ((content, ap read_file e ∙ found, parsed ∙ ap some same), good)
      ]
    ]
