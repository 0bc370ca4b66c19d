-- ===== src/Engine/Nested.antt =====
-- src/engine.rs: `begin_child` of a new id.
use cpa_stg.Base.Map.{Map, get, insert, contains_key, size, get-insert}
use cpa_stg.Base.Result.{ok}
use cpa_stg.Base.{
  String, true, false, some, ◌∷◌, ◌++◌, [], ◌<◌, ◌≡◌, refl, ap, inl, inr, not, ◌||◌, ◌==◌,
  string_eq, ==_iff, ==_refl, Bool-cases, arith,
}
use cpa_stg.Engine.Types.{idle}
use cpa_stg.Engine.{Engine, begin, begin_child, begun, link, or_nil}

get-inserted : {V : Type 0} (k : String) (v : V) (m : Map String V) → get k (insert k v m) ≡ some v
get-inserted k v m = ground (arith, get-insert k k v m, ==_refl k)

module _ {T : Type 0} where
  -- An execution is registered, idle, nested in another, and the last of its children.
  pub record NestedIn (id parent : String) (before after : Engine T) : Type 0 where
    pub registered : get id after.requests ≡ some idle
    pub below : get id after.parents ≡ some parent
    pub child : get parent after.children ≡ some (or_nil (get parent before.children) ++ id ∷ [])

  abbrev entered : String → Engine T → Engine T
  entered id e = record e { requests = insert id idle e.requests }

  begin-new :
      (e : Engine T) (id : String)
      → e.stopping ≡ false
      → contains_key id e.requests ≡ false
      → size e.requests < e.config.max_tracked_requests
      → begin e id ≡ (entered id e, ok tt)
  unfolding begin
  begin-new e id runs fresh room = ground (arith, runs, fresh, room)

  link-NestedIn :
      (e : Engine T) (id parent : String) → NestedIn id parent e (link id parent (entered id e))
  unfolding link
  link-NestedIn e id parent = record {
    registered = get-inserted id idle e.requests;
    below = get-inserted id parent e.parents;
    child = get-inserted parent _ e.children;
  }

  may_begin :
      (id parent : String) (e : Engine T)
      → contains_key parent e.requests ≡ true
      → contains_key id e.requests ≡ false
      → (id == parent || not (contains_key parent e.requests) || contains_key id e.requests) ≡ false
  may_begin id parent e known fresh = elim (Bool-cases (id == parent)) [
    | inl same ↦
        let h : id ≡ parent = (==_iff id parent).0 same in
        ground (arith, known, fresh, ap (λ (k : String). contains_key k e.requests) h)
    | inr other ↦ ground (arith, known, fresh, other)
  ]

  -- A registered execution gets a new one nested in it, where there is room.
  pub begin_child-NestedIn :
      (e : Engine T) (id parent : String)
      → e.stopping ≡ false
      → contains_key parent e.requests ≡ true
      → contains_key id e.requests ≡ false
      → size e.requests < e.config.max_tracked_requests
      → ((begin_child e id parent).1 ≡ ok tt) × NestedIn id parent e (begin_child e id parent).0
  unfolding begin_child begun
  begin_child-NestedIn e id parent runs known fresh room =
      rw (may_begin id parent e known fresh, begin-new e id runs fresh room, begin_child)
        (refl, link-NestedIn e id parent)
