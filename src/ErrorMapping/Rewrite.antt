-- ===== src/ErrorMapping/Rewrite.antt =====
-- What src/error_mapping.rs does to a failure event that a rule matches.
use cpa_stg.Base.Partial.{◌>>=◌, >>=-eq-some}
use cpa_stg.Base.{
  List, [], ◌∷◌, ◌++◌, any, ℕ, String, true, false, none, some, ◌≡◌, refl, sym, ap, ◌∙◌, inl, inr,
  ◌==◌, ==_iff, string_eq, if◌then◌else◌, arith, Option-cases, Bool-cases,
}
use cpa_stg.ErrorMapping.{
  ErrorMapping, ErrorRule, matches, RetryableError, map_error, map_failed, error_object, is_mapped,
  find_rule, detail, set_response, rewrite,
}
use cpa_stg.Json.{
  Value, object, string, null, Fields, end, field, get, get_field, set_field, set_index, index,
  as_object,
}

get_field-set_field :
    (fs : Fields) (k j : String) (v : Value)
    → get_field (set_field fs k v) j ≡ (if k == j then some v else get_field fs j)
unfolding get_field set_field
get_field-set_field end k j v = ground arith
get_field-set_field (field i w fs) k j v =
    ground (arith, get_field-set_field fs k j v, ==_iff i k, ==_iff i j, ==_iff k j)

get-set_index :
    (v w : Value) (k j : String) {v' : Value}
    → set_index v k w ≡ some v'
    → get v' j ≡ (if k == j then some w else get v j)
unfolding get set_index
get-set_index null w k j h = ground (arith, h)
get-set_index (object fs) w k j {v'} h =
    let same : object (set_field fs k w) ≡ v' = cc in
    ap (λ x. get x j) (sym same) ∙ get_field-set_field fs k j w
get-set_index (Value.bool b) w k j h = cc
get-set_index (Value.number n) w k j h = cc
get-set_index (string s) w k j h = cc
get-set_index (Value.array xs) w k j h = cc

detail-is_mapped : (r : RetryableError) → is_mapped (detail r) ≡ true
unfolding is_mapped detail get_field
detail-is_mapped r = refl

-- What one assignment below "response" leaves there.
set_response-get :
    (v w : Value) (k : String) {v' : Value}
    → set_response v k w ≡ some v'
    → (response : Value) × (set_index (index v "response") k w ≡ some response)
      × (get v' "response" ≡ some response)
unfolding set_response
set_response-get v w k h =
    let (response, first, second) =
      >>=-eq-some (set_index (index v "response") k w) (λ x. set_index v "response" x) h in
    (response, first, get-set_index v response "response" "response" second)

index-get : (v w : Value) (k : String) → get v k ≡ some w → index v k ≡ w
unfolding index
index-get v w k h = rw h refl

-- The event that `rewrite` gives holds the detail as its error.
rewrite-error_object :
    (r : RetryableError) (v : Value) {v' : Value}
    → rewrite r v ≡ some v'
    → error_object v' ≡ some (detail r)
unfolding rewrite error_object
rewrite-error_object r v h =
    let (v1, first, second) =
      >>=-eq-some (set_response v "error" (object (detail r)))
        (λ x. set_response x "status" (string "failed")) h in
    let (r1, s1, g1) = set_response-get v (object (detail r)) "error" first in
    let (r2, s2, g2) = set_response-get v1 (string "failed") "status" second in
    let kept : get r2 "error" ≡ some (object (detail r)) =
      get-set_index (index v1 "response") (string "failed") "status" "error" s2
      ∙ ap (λ x. get x "error") (index-get v1 r1 "response" g1)
      ∙ get-set_index (index v "response") (object (detail r)) "error" "error" s1 in
    rw (g2, kept) refl

-- A rewritten event is never mapped again, by any mapping.
pub rewrite-map_error :
    (r : RetryableError) (v : Value) {v' : Value} (m : ErrorMapping) (status : ℕ)
    → rewrite r v ≡ some v'
    → map_error m status v' ≡ none
unfolding map_error map_failed
rewrite-map_error r v m status h = ground (arith, rewrite-error_object r v h, detail-is_mapped r)

set_index-total :
    (v x w : Value) (k j : String) → get v k ≡ some w → (v' : Value) × (set_index v j x ≡ some v')
unfolding get set_index
set_index-total (object fs) x w k j h = (_, refl)
set_index-total null x w k j h = (_, refl)
set_index-total (Value.bool b) x w k j h = cc
set_index-total (Value.number n) x w k j h = cc
set_index-total (string s) x w k j h = cc
set_index-total (Value.array xs) x w k j h = cc

set_response-total :
    (v w response error : Value) (k : String)
    → get v "response" ≡ some response
    → get response "error" ≡ some error
    → (v' : Value) × (set_response v k w ≡ some v')
unfolding set_response
set_response-total v w response error k h e =
    let (inner, first) = set_index-total response w error "error" k e in
    let (outer, second) = set_index-total v inner response "response" "response" h in
    (outer, rw (index-get v response "response" h, first) second)

error_object-parts :
    (v : Value) (fs : Fields)
    → error_object v ≡ some fs
    → (response : Value) × (error : Value) × (get v "response" ≡ some response)
      × (get response "error" ≡ some error)
unfolding error_object
error_object-parts v fs h =
    let (response, g, h1) =
      >>=-eq-some (get v "response") (λ response. get response "error" >>= as_object) h in
    let (error, e, h2) = >>=-eq-some (get response "error") as_object h1 in (response, error, g, e)

-- What `rewrite` makes of an event with an error: the detail of the rule stands in the place of
-- the error, and the status is "failed".
pub record Rewritten (r : RetryableError) (v' : Value) : Type 0 where
  pub error : error_object v' ≡ some (detail r)
  pub status : (get v' "response" >>= λ response. get response "status") ≡ some (string "failed")

rewrite-Rewritten :
    (r : RetryableError) (v : Value) (fs : Fields)
    → error_object v ≡ some fs
    → (v' : Value) × (rewrite r v ≡ some v') × Rewritten r v'
unfolding rewrite
rewrite-Rewritten r v fs h =
    let (response, error, g, e) = error_object-parts v fs h in
    let D = object (detail r) in
    let (v1, first) = set_response-total v D response error "error" g e in
    let (r1, s1, g1) = set_response-get v D "error" first in
    let e1 : get r1 "error" ≡ some D = get-set_index (index v "response") D "error" "error" s1 in
    let (v2, second) = set_response-total v1 (string "failed") r1 D "status" g1 e1 in
    let (r2, s2, g2) = set_response-get v1 (string "failed") "status" second in
    let done : rewrite r v ≡ some v2 = rw first second in
    (
      v2,
      done,
      record {
        error = rewrite-error_object r v done;
        status = rw g2 (get-set_index (index v1 "response") (string "failed") "status" "status" s2);
      },
    )

-- An event that a mapping maps has an error object.
map_error-parts :
    (m : ErrorMapping) (status : ℕ) (v : Value) {r : RetryableError}
    → map_error m status v ≡ some r
    → (fs : Fields) × (error_object v ≡ some fs)
      × (is_mapped fs ≡ false)
      × (find_rule m.rules status fs ≡ some r)
unfolding map_error map_failed
map_error-parts m status v h = elim (Option-cases (error_object v)) [
  | inl e ↦ absurd (ground (arith, h, e))
  | inr (fs, e) ↦ (fs, e, ground (arith, h, e), ground (arith, h, e))
]

-- An event that a mapping maps is rewritten with no panic: the detail of the rule that is chosen
-- takes the place of the whole error, with the code that marks it as retryable, the status is
-- "failed", and no mapping maps the result again.
pub map_error-rewrite :
    (m : ErrorMapping) (status : ℕ) (v : Value) (r : RetryableError) (n : ErrorMapping) (other : ℕ)
    → map_error m status v ≡ some r
    → (v' : Value) × (rewrite r v ≡ some v')
      × Rewritten r v'
      × (is_mapped (detail r) ≡ true)
      × (map_error n other v' ≡ none)
map_error-rewrite m status v r n other h =
    let (fs, e, _, _) = map_error-parts m status v h in
    let (v', done, w) = rewrite-Rewritten r v fs e in
    (v', done, w, detail-is_mapped r, rewrite-map_error r v n other done)

-- The rule that is chosen is the first that matches.
pub record Chosen (rules : List ErrorRule) (status : ℕ) (fs : Fields) (r : RetryableError)
    : Type 0 where
  pub before : List ErrorRule
  pub rule : ErrorRule
  pub after : List ErrorRule
  pub stands : rules ≡ before ++ rule ∷ after
  pub none_before : any (λ x. matches x.matcher status fs) before ≡ false
  pub matched : matches rule.matcher status fs ≡ true
  pub answers : r ≡ rule.retryable

find_rule-Chosen :
    (rules : List ErrorRule) (status : ℕ) (fs : Fields) (r : RetryableError)
    → find_rule rules status fs ≡ some r
    → Chosen rules status fs r
unfolding find_rule
find_rule-Chosen [] status fs r h = absurd (ground arith)
find_rule-Chosen (rule ∷ rules) status fs r h = elim (Bool-cases (matches rule.matcher status fs)) [
  | inl yes_here ↦ record {
    before = [];
    rule = rule;
    after = rules;
    stands = refl;
    none_before = refl;
    matched = yes_here;
    answers = ground arith;
  }
  | inr not_here ↦
      let later = find_rule-Chosen rules status fs r (ground arith) in
      record {
        before = rule ∷ later.before;
        rule = later.rule;
        after = later.after;
        stands = ap (λ xs. rule ∷ xs) later.stands;
        none_before = ground (arith, later.none_before);
        matched = later.matched;
        answers = later.answers;
      }
]

-- An event is mapped only if it has an error object that is not marked as retryable yet, and then
-- by the first rule that matches the status and the error.
pub map_error-Chosen :
    (m : ErrorMapping) (status : ℕ) (v : Value) (r : RetryableError)
    → map_error m status v ≡ some r
    → (fs : Fields) × (error_object v ≡ some fs)
      × (is_mapped fs ≡ false)
      × Chosen m.rules status fs r
map_error-Chosen m status v r h =
    let (fs, e, fresh, found) = map_error-parts m status v h in
    (fs, e, fresh, find_rule-Chosen m.rules status fs r found)
