-- ===== src/Protocol/Nested.antt =====
-- The header by which src/protocol.rs ties a request to the one that it is nested in.
use cpa_stg.Base.Result.{ok, err}
use cpa_stg.Base.Text.{eq_ignore_case}
use cpa_stg.Base.{
  false, ◌<◌, none, if◌then◌else◌, String, Bool, true, ◌&&◌, some, ◌≡◌, refl, ap, ◌∙◌, string_eq,
  arith,
}
use cpa_stg.Engine.Nested.{NestedIn, begin_child-NestedIn}
use cpa_stg.Engine.{Engine}
use cpa_stg.Base.Map.{contains_key, size}
use cpa_stg.ErrorMapping.Delay.{Bytes}
use cpa_stg.Float.{F64}
use cpa_stg.Json.{is_text, Value, string, get, index, find_field}
use cpa_stg.Protocol.Envelope
use cpa_stg.Protocol.Handle.{
  is_responses, mark_headers, header_parent, marked, parent_of, enroll, intercept_before,
}
use cpa_stg.Protocol.{Codec, Request, request, respond, empty}

-- The headers that an answer tells the host to add.
abbrev pub headers_of : Value → Value
headers_of v = index (index v "result") "Headers"

header_parent-mark_headers : (id : String) → header_parent (mark_headers id) ≡ some id
unfolding header_parent find_field eq_ignore_case
header_parent-mark_headers id = refl

headers_of-marked : (id : String) → headers_of (Envelope.ok (marked id)) ≡ mark_headers id
unfolding Envelope.ok index get
headers_of-marked id = refl

if_both {ℓ} :
    {A : Type ℓ} (a b : Bool) (x y : A) → a ≡ true → b ≡ true → (if a && b then x else y) ≡ x
if_both a b x y p q = ground arith

parent_of-mark_headers :
    (req : Request) (id : String)
    → req.headers ≡ mark_headers id
    → is_responses req ≡ true
    → index req.metadata "source" ≡ string "plugin_host_model_callback"
    → parent_of req ≡ some id
unfolding parent_of
parent_of-mark_headers req id headers streams source =
    if_both (is_responses req) (is_text (index req.metadata "source") "plugin_host_model_callback")
      (header_parent req.headers) none streams
      (ap (λ v. is_text v "plugin_host_model_callback") source)
    ∙ ap header_parent headers
    ∙ header_parent-mark_headers id

module _ (c : Codec) {T : Type 0} ⦃f : F64 T⦄ where
  intercept_before-marked :
      (e : Engine T) (raw : Bytes) (req : Request)
      → request c raw ≡ ok req
      → is_responses req ≡ true
      → (enroll e req).1 ≡ ok tt
      → (intercept_before c e raw).1 ≡ Envelope.ok (marked req.id)
  unfolding intercept_before
  intercept_before-marked e raw req read streams done =
      ap
        (λ r.
          (elim r as (λ _. Engine T × Value) [
            | err v ↦ (e, v)
            | ok q ↦ (
              (enroll e q).0,
              respond c.printer (if is_responses q then marked q.id else empty) (enroll e q).1,
            )
          ]).1)
        read
      ∙ ap (respond c.printer (if is_responses req then marked req.id else empty)) done
      ∙ ap (λ b. Envelope.ok (if b then marked req.id else empty)) streams

  -- Let a streaming Responses request be registered, and let the host make a streaming Responses
  -- request on behalf of a plugin, with the headers that the answer to the first has told it to
  -- add. Let the engine by then not be stopping, still have the first, not have the second, and
  -- have room for it. Then the second is registered, idle, nested in the first and the last of its
  -- children.
  pub enroll-nested :
      (e e' : Engine T) (raw : Bytes) (outer inner : Request)
      → request c raw ≡ ok outer
      → is_responses outer ≡ true
      → (enroll e outer).1 ≡ ok tt
      → inner.headers ≡ headers_of (intercept_before c e raw).1
      → is_responses inner ≡ true
      → index inner.metadata "source" ≡ string "plugin_host_model_callback"
      → e'.stopping ≡ false
      → contains_key outer.id e'.requests ≡ true
      → contains_key inner.id e'.requests ≡ false
      → size e'.requests < e'.config.max_tracked_requests
      → ((enroll e' inner).1 ≡ ok tt) × NestedIn inner.id outer.id e' (enroll e' inner).0
  unfolding enroll
  enroll-nested e e' raw outer inner read streams done headers streams' source runs known fresh
        room =
      let marks : inner.headers ≡ mark_headers outer.id =
        headers
        ∙ ap headers_of (intercept_before-marked e raw outer read streams done)
        ∙ headers_of-marked outer.id in
      rw (parent_of-mark_headers inner outer.id marks streams' source, enroll)
        (begin_child-NestedIn e' inner.id outer.id runs known fresh room)
