-- ===== src/Runtime/Notify/Asleep.antt =====
-- src/runtime.rs: a request that waits and is not to be admitted yet, in exact
-- arithmetic.
use mathlib.Core.Path.{subst}
use cpa_stg.Base.Map.{get, get-insert}
use cpa_stg.Base.Result.{Result, ok, err}
use cpa_stg.Base.{
  ℕ, ◌≤◌, ◌<◌, String, true, false, ◌&&◌, some, ◌≡◌, refl, sym, ap, ◌∙◌, inl, inr, ◌==◌, ==_iff,
  ==_refl, string_eq, if◌then◌else◌, arith, Bool-cases, if_cases,
}
use cpa_stg.Engine.Buckets.{Bucket, refill, available, wake_at}
use cpa_stg.Engine.Rate.Wake.{refill-refill, wake_at-not_ready}
use cpa_stg.Engine.Types.{ScopeKey, scope_eq, Phase, idle, queued, Rejection}
use cpa_stg.Engine.{Engine, is_front, put_bucket, begin, begin_child, begun, link}
use cpa_stg.Float.Fixed.{fixed}
use cpa_stg.Runtime.Notify.{Slept}

-- The request waits and is not to be admitted before `w`, as seen from the time `s`.
pub record Asleep (id : String) (w s : ℕ) (e : Engine ℕ) : Type 0 where
  pub runs : e.stopping ≡ false
  pub key : ScopeKey
  pub deadline : ℕ
  pub waits : get id e.requests ≡ some (queued key deadline)
  pub by_deadline : w ≤ deadline
  pub bucket : Bucket ℕ
  pub found : get key e.buckets ≡ some bucket
  pub enabled : bucket.policy.enabled ≡ true
  pub past : bucket.updated ≤ s
  pub not_yet :
      (t : ℕ) → s ≤ t → t < w → (is_front id bucket.queue && available (refill bucket t)) ≡ false

wake_at-le-deadline : (b : Bucket ℕ) (now d : ℕ) → wake_at b now d ≤ d
unfolding wake_at
wake_at-le-deadline b now d = ground arith

here :
    (key : ScopeKey) (b : Bucket ℕ) (e : Engine ℕ) → get key (put_bucket key b e).buckets ≡ some b
here key b e = get-insert key key b e.buckets ∙ rw (==_refl key) refl

module _ (id : String) (w : ℕ) where
  front_waits :
      (b : Bucket ℕ) (now d t : ℕ)
      → b.updated ≡ now
      → (is_front id b.queue && available b) ≡ false
      → w ≡ (if is_front id b.queue then wake_at b now d else d)
      → now ≤ t
      → t < w
      → (is_front id b.queue && available (refill b t)) ≡ false
  front_waits b now d t fresh busy wake later early = elim (Bool-cases (is_front id b.queue)) [
    | inr behind ↦ rw behind refl
    | inl first ↦
        let busy' : available b ≡ false = rw first at busy in
        let wake' : w ≡ wake_at b now d = rw first at wake in
        rw first (wake_at-not_ready b now d t fresh busy' later (omega (arith, wake', early)))
  ]

  wake_le_deadline :
      (b : Bucket ℕ) (now d : ℕ) → w ≡ (if is_front id b.queue then wake_at b now d else d) → w ≤ d
  wake_le_deadline b now d wake = elim (Bool-cases (is_front id b.queue)) [
    | inr behind ↦ let same : w ≡ d = rw behind at wake in omega (arith, same)
    | inl first ↦
        let same : w ≡ wake_at b now d = rw first at wake in
        omega (arith, same, wake_at-le-deadline b now d)
  ]

  pub Slept-Asleep : (now : ℕ) (e e' : Engine ℕ) → Slept id now e e' w → Asleep id w now e'
  Slept-Asleep now e e' z =
      let b = refill z.bucket now in
      subst (Asleep id w now) (sym z.moved) (record {
        runs = z.runs;
        key = z.key;
        deadline = z.deadline;
        waits = z.waits;
        by_deadline = wake_le_deadline b now z.deadline z.wake;
        bucket = b;
        found = here z.key b e;
        enabled = unfold refill in z.enabled;
        past = unfold refill in omega arith;
        not_yet = λ t later early.
            front_waits b now z.deadline t (unfold refill in refl) z.busy z.wake later early;
      })

  -- What touches neither the buckets nor this request.
  untouched :
      (s : ℕ) (e e' : Engine ℕ)
      → e'.stopping ≡ e.stopping
      → e'.buckets ≡ e.buckets
      → ((p : Phase) → get id e.requests ≡ some p → get id e'.requests ≡ some p)
      → Asleep id w s e
      → Asleep id w s e'
  untouched s e e' same_flag same_buckets same_phase a = record {
    runs = same_flag ∙ a.runs;
    key = a.key;
    deadline = a.deadline;
    waits = same_phase (queued a.key a.deadline) a.waits;
    by_deadline = a.by_deadline;
    bucket = a.bucket;
    found = ap (get a.key) same_buckets ∙ a.found;
    enabled = a.enabled;
    past = a.past;
    not_yet = a.not_yet;
  }

  begin-keeps :
      (e : Engine ℕ) (other : String) (p : Phase)
      → get id e.requests ≡ some p
      → get id (begin e other).0.requests ≡ some p
  unfolding begin
  begin-keeps e other p h = ground (arith, h, get-insert other id idle e.requests, ==_iff other id)

  pub begin-Asleep :
      (s : ℕ) (e : Engine ℕ) (other : String) → Asleep id w s e → Asleep id w s (begin e other).0
  begin-Asleep s e other a =
      untouched s e (begin e other).0 (unfold begin in ground arith) (unfold begin in ground arith)
        (begin-keeps e other) a

  begun-Asleep :
      (s : ℕ) (e : Engine ℕ) (other parent : String) (r : Result Rejection (Unit {0}))
      → Asleep id w s e
      → Asleep id w s (begun other parent (e, r)).0
  unfolding begun link
  begun-Asleep s e other parent (ok u) a = untouched s e _ refl refl (λ p h. h) a
  begun-Asleep s e other parent (err x) a = a

  pub begin_child-Asleep :
      (s : ℕ) (e : Engine ℕ) (other parent : String)
      → Asleep id w s e
      → Asleep id w s (begin_child e other parent).0
  unfolding begin_child
  begin_child-Asleep s e other parent a =
      if_cases (λ (x : Engine ℕ × Result Rejection (Unit {0})). Asleep id w s x.0) _ _ _
        (λ refused. a)
        λ allowed.
          begun-Asleep s (begin e other).0 other parent (begin e other).1 (begin-Asleep s e other a)

  -- The bucket is brought up to date, and nothing else.
  pub refilled :
      (s t : ℕ) (key : ScopeKey) (b : Bucket ℕ) (e : Engine ℕ)
      → get key e.buckets ≡ some b
      → s ≤ t
      → Asleep id w s e
      → Asleep id w t (put_bucket key (refill b t) e)
  refilled s t key b e found later a = elim (Bool-cases (key == a.key)) [
    | inr ne ↦ record {
      runs = a.runs;
      key = a.key;
      deadline = a.deadline;
      waits = a.waits;
      by_deadline = a.by_deadline;
      bucket = a.bucket;
      found = get-insert key a.key (refill b t) e.buckets ∙ rw ne a.found;
      enabled = a.enabled;
      past = omega (arith, a.past);
      not_yet = λ u from early. a.not_yet u (omega (arith, from, later)) early;
    }
    | inl is ↦
        let same : key ≡ a.key = (==_iff key a.key).0 is in
        let one : b ≡ a.bucket =
          let both : some b ≡ some a.bucket =
            sym found ∙ ap (λ k. get k e.buckets) same ∙ a.found in
          cc in
        record {
          runs = a.runs;
          key = a.key;
          deadline = a.deadline;
          waits = a.waits;
          by_deadline = a.by_deadline;
          bucket = refill a.bucket t;
          found =
              get-insert key a.key (refill b t) e.buckets ∙ rw is (ap (λ x. some (refill x t)) one);
          enabled = unfold refill in a.enabled;
          past = unfold refill in omega arith;
          not_yet = λ u from early.
              let again = refill-refill a.bucket t u (omega (arith, a.past, later)) from in
              let still = a.not_yet u (omega (arith, from, later)) early in
              rw again (unfold refill in still);
        }
  ]
