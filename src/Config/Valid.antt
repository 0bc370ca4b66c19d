-- ===== src/Config/Valid.antt =====
-- The ranges of the policies of src/config.rs, and its validation.
use mathlib.Core.Path.{subst}
use cpa_stg.Base.Map.{Map, get}
use cpa_stg.ErrorMapping.Delay.{Bytes}
use cpa_stg.Base.Result.{Result, ok, err, ◌>>◌}
use cpa_stg.Base.{
  ◌≤◌, String, Bool, Option, is_empty, some, [], ◌∷◌, ◌≡◌, ◌↔◌, Bool-cases, Option-cases, refl,
  ◌==◌, string_eq, ℕ_eq, arith, inl, inr,
}
use cpa_stg.Config.{
  Policy, Config, validate_policy, validate_overrides, validate_limits, validate_count,
  valid_identifier, validate, policy, in_range, parse, default_config,
}
use cpa_stg.ErrorMapping

-- The ranges of the policy fields.
pub record IsValid (p : Policy) : Type 0 where
  pub burst_pos : 1 ≤ p.burst
  pub burst_le : p.burst ≤ 1_000_000
  pub rate_le : p.requests_per_minute ≤ 60_000_000
  pub concurrency_le : p.max_concurrency ≤ 100_000
  pub queue_le : p.max_queue ≤ 100_000
  pub timeout_pos : 1 ≤ p.queue_timeout_ms
  pub timeout_le : p.queue_timeout_ms ≤ 300_000

-- A policy passes its validation exactly if each of its fields is in range.
pub validate_policy-ok_iff : (p : Policy) → (validate_policy p ≡ ok tt) ↔ IsValid p
unfolding validate_policy
validate_policy-ok_iff p = (λ h. ground arith, λ v. ground arith)

>>-ok_left : {E : Type 0} (m k : Result E (Unit {0})) → (m >> k) ≡ ok tt → (m ≡ ok tt) × (k ≡ ok tt)
>>-ok_left (ok tt') k h = (refl, h)
>>-ok_left (err e) k h = absurd (ground arith)

override_parts :
    (j : String) (q : Policy) (m : Map String Policy)
    → validate_overrides ((j, q) ∷ m) ≡ ok tt
    → (validate_policy q ≡ ok tt) × (validate_overrides m ≡ ok tt)
unfolding validate_overrides
override_parts j q m h = elim (Bool-cases (valid_identifier j)) [
  | inl good ↦ >>-ok_left (validate_policy q) (validate_overrides m) (rw good at h)
  | inr bad ↦ absurd (ground (arith, bad, h))
]

overrides-IsValid :
    (m : Map String Policy) (id : String) (p : Policy)
    → validate_overrides m ≡ ok tt
    → get id m ≡ some p
    → IsValid p
unfolding get
overrides-IsValid [] id p h found = absurd (ground arith)
overrides-IsValid ((j, q) ∷ m) id p h found =
    let (first, rest) = override_parts j q m h in
    elim (Bool-cases (j == id)) [
      | inl here ↦
          let same : q ≡ p = ground arith in subst IsValid same ((validate_policy-ok_iff q).0 first)
      | inr later ↦ overrides-IsValid m id p rest (ground arith)
    ]

validate_parts :
    (c : Config)
    → validate c ≡ ok tt
    → (validate_policy c.credentials.default ≡ ok tt)
      × (validate_overrides c.credentials.overrides ≡ ok tt)
unfolding validate
validate_parts c h =
    let a = >>-ok_left (ErrorMapping.validate c.error_mapping) _ h in
    let b = >>-ok_left (validate_limits c) _ a.1 in
    let d = >>-ok_left (validate_policy c.credentials.default) _ b.1 in
    (d.0, (>>-ok_left (validate_count c) _ d.1).1)

-- Switching a policy off does not change its ranges.
switched-IsValid : (p : Policy) (on : Bool) → IsValid p → IsValid (record p { enabled = on })
switched-IsValid p on v = ground arith

-- Under an accepted configuration the policy in force for any credential, its own or the default
-- one, is in range.
pub policy-IsValid : (c : Config) (id : String) → validate c ≡ ok tt → IsValid (policy c id)
unfolding policy
policy-IsValid c id h =
    let (default_ok, overrides_ok) = validate_parts c h in
    elim (Option-cases (get id c.credentials.overrides)) [
      | inl none_set ↦ rw none_set (switched-IsValid _ _ ((validate_policy-ok_iff _).0 default_ok))
      | inr (p, found) ↦
          rw found (switched-IsValid p _ (overrides-IsValid _ id p overrides_ok found))
    ]

validate_limits-tracked :
    (c : Config) → validate_limits c ≡ ok tt → c.max_tracked_requests ≤ 100_000
unfolding validate_limits in_range
validate_limits-tracked c h = ground arith

-- An accepted configuration limits the requests to 100000.
pub validate-tracked : (c : Config) → validate c ≡ ok tt → c.max_tracked_requests ≤ 100_000
unfolding validate
validate-tracked c h =
    let a = >>-ok_left (ErrorMapping.validate c.error_mapping) _ h in
    validate_limits-tracked c (>>-ok_left (validate_limits c) _ a.1).0

checked :
    (c d : Config) (r : Result String (Unit {0})) (accepted : Result String Config)
    → accepted ≡ ok c
    → (r >> ok d) ≡ accepted
    → (r ≡ ok tt) × (d ≡ c)
checked c d (ok tt') accepted h k = (refl, ground (arith, h, k))
checked c d (err message) accepted h k = absurd (ground (arith, h, k))

accepted-validate :
    (c d : Config) (accepted : Result String Config)
    → (validate d >> ok d) ≡ accepted
    → accepted ≡ ok c
    → validate c ≡ ok tt
accepted-validate c d accepted k h =
    let (fine, same) = checked c d (validate d) accepted h k in
    subst (λ x. validate x ≡ ok tt) same fine

-- What is parsed has passed the validation.
pub parse-validate :
    (from_yaml : Bytes → Option Config) (yaml : Bytes) (c : Config)
    → parse from_yaml yaml ≡ ok c
    → validate c ≡ ok tt
unfolding parse
parse-validate from_yaml yaml c h = elim (Bool-cases (is_empty yaml)) [
  | inl e ↦ accepted-validate c default_config _ refl (rw e at h)
  | inr e ↦ elim (Option-cases (from_yaml yaml)) [
    | inl k ↦ absurd (ground (arith, rw (e, k) at h))
    | inr (d, k) ↦ accepted-validate c d _ refl (rw (e, k) at h)
  ]
]
