-- ===== src/Engine/Types.antt =====
-- src/engine.rs: the data of the engine other than its buckets. An `Instant` is a number of
-- nanoseconds on one clock.
use cpa_stg.Base.{ℕ, String, Bool, true, ◌≡◌, ◌↔◌, ap, Keyed, ◌==◌, string_eq, ==_iff}

pub data ScopeKey : Type 0 where
  credential : String → ScopeKey

abbrev pub scope_name : ScopeKey → String
scope_name (credential name) = name

abbrev pub same_scope : ScopeKey → ScopeKey → Bool
same_scope (credential a) (credential b) = a == b

pub same_scope_iff : (a b : ScopeKey) → (same_scope a b ≡ true) ↔ (a ≡ b)
same_scope_iff (credential a) (credential b) =
    (λ h. ap credential ((==_iff a b).0 h), λ h. (==_iff a b).1 (ap scope_name h))

instance abbrev pub scope_eq : Keyed ScopeKey
scope_eq = record { same = same_scope; same_iff = same_scope_iff }

pub data Rejection : Type 0 where
  queue_full queue_timeout request_ended duplicate_wait capacity stopping : Rejection

pub data Decision : Type 0 where
  admit : Decision
  wait_until : ℕ → Decision
  reject : Rejection → Decision

pub data Phase : Type 0 where
  idle : Phase
  active : ScopeKey → Phase
  queued : ScopeKey → ℕ → Phase
