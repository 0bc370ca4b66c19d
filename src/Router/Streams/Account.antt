-- ===== src/Router/Streams/Account.antt =====
-- The streams that the host opens for src/router.rs, who has them, and what becomes of one when
-- its request is settled.
use cpa_stg.Base.Partial.{◌>>=◌}
use cpa_stg.Base.Result.{Result, ok, err}
use cpa_stg.Base.{
  ℕ, ◌+◌, ◌≤◌, String, Bool, true, not, Option, none, some, List, [], ◌∷◌, ◌++◌, ◌≡◌, refl, ap, ◌∙◌,
  inl, inr, ◌==◌, string_eq, if◌then◌else◌, arith, if_cases, Option-cases, Bool-cases, ==_iff,
}
use cpa_stg.Host.{Fault, Host, Journal}
use cpa_stg.Json.{Value}
use cpa_stg.Router.Execute.{Prepared, Settlement, settle, start, settled, launched, fail_open}
use cpa_stg.Router.Closings.{closes, close-closes, close-Grows}
use cpa_stg.Router.Streams.{Thread, Pending, asking, answered, House}
use cpa_stg.Router.{Worker, Router, Codec, text_field, close}

abbrev pub names : String → Option String → ℕ
names id none = 0
names id (some nested) = if nested == id then 1 else 0

-- An answer that opens the stream `id`.
abbrev pub opens : String → Result Fault Value → ℕ
opens id (ok v) = names id (text_field v "stream_id")
opens id (err fault) = 0

abbrev pub waits_with : String → Pending → ℕ
waits_with id (asking req p) = 0
waits_with id (answered p answer) = opens id answer

abbrev pub serves : String → Thread → ℕ
serves id t = if t.worker.nested == id then 1 else 0

abbrev pub tally {ℓ} : {A : Type ℓ} → (A → ℕ) → List A → ℕ
tally w [] = 0
tally w (a ∷ rest) = w a + tally w rest

module _ {A : Type 0} (w : A → ℕ) where
  pub tally-split :
      (before after : List A) (a : A)
      → tally w (before ++ a ∷ after) ≡ w a + tally w (before ++ after)
  tally-split [] after a = refl
  tally-split (b ∷ before) after a = omega (arith, tally-split before after a)

  pub tally-move :
      (xs before after : List A) (a b : A)
      → xs ≡ before ++ a ∷ after
      → w b ≡ w a
      → tally w (before ++ b ∷ after) ≡ tally w xs
  tally-move xs before after a b h same =
      omega (arith, ap (tally w) h, tally-split before after a, tally-split before after b, same)

  pub tally-take :
      (xs before after : List A) (a : A)
      → xs ≡ before ++ a ∷ after
      → tally w xs ≡ w a + tally w (before ++ after)
  tally-take xs before after a h = ap (tally w) h ∙ tally-split before after a

-- Every stream that the host has opened is closed, or a request or a thread has it.
abbrev pub Accounted : House → Type 0
Accounted h =
    (id : String)
    → tally (opens id) h.answers
      ≤ closes id h.journal + tally (waits_with id) h.pending + tally (serves id) h.threads

abbrev pub handed : String → Option Worker → ℕ
handed id none = 0
handed id (some w) = if w.nested == id then 1 else 0

-- The stream of the answer is closed or handed on.
abbrev pub Passes : String → Result Fault Value → Journal → Option Settlement → Type 0
Passes id answer j none = Unit
Passes id answer j (some s) =
    opens id answer + closes id j ≤ closes id s.journal + handed id s.started

module _ (c : Codec) (host : Host) (there : host.installed ≡ true) where
  closed_again :
      (j : Journal) (nested id : String)
      → names id (some nested) + closes id j
        ≤ closes id (close c host j "host.model.stream_close" nested)
  closed_again j nested id = elim (Bool-cases (nested == id)) [
    | inl is ↦
        let same : nested ≡ id = (==_iff nested id).0 is in
        rw is (
          omega (
            arith,
            close-closes c host j id there,
            ap (λ n. closes id (close c host j "host.model.stream_close" n)) same,
          ))
    | inr ne ↦ rw ne (omega (arith, close-Grows c host j "host.model.stream_close" nested id))
  ]

  abbrev PassesOn : String → String → Journal → Settlement → Type 0
  PassesOn id nested j s =
      names id (some nested) + closes id j ≤ closes id s.journal + handed id s.started

  start-Passes :
      (finished : Worker → Bool) (spawned : Bool) (r : Router) (j : Journal) (p : Prepared)
      (nested : String) (upstream : Value) (id : String)
      → PassesOn id nested j (start c host finished spawned r j p nested upstream)
  unfolding start settled launched
  start-Passes finished spawned r j p nested upstream id =
      let again = closed_again j nested id in
      if_cases (PassesOn id nested j) r.stopping _ _ (λ halted. omega (arith, again))
        (λ goes.
          if_cases (PassesOn id nested j) (not spawned) _ _ (λ failed. omega (arith, again))
            (λ fine. omega arith))

  refused-Passes :
      (r : Router) (j : Journal) (fault : Fault) (id : String) (o : Option (Result Fault Value))
      → Passes id (err fault) j (do result ← o; some (settled r j result))
  unfolding settled
  refused-Passes r j fault id none = tt
  refused-Passes r j fault id (some result) = omega arith

  pub settle-Passes :
      (finished : Worker → Bool) (spawned : Bool) (r : Router) (j : Journal) (p : Prepared)
      (answer : Result Fault Value) (id : String)
      → Passes id answer j (settle c host finished spawned r j p answer)
  unfolding settle settled
  settle-Passes finished spawned r j p (err fault) id =
      refused-Passes r j fault id (fail_open c host finished spawned p fault)
  settle-Passes finished spawned r j p (ok upstream) id =
      elim (Option-cases (text_field upstream "stream_id")) [
        | inl h ↦ rw (h, settle) (omega (arith, ap (names id) h))
        | inr (nested, h) ↦
            rw (h, settle)
              (omega
                (arith, ap (names id) h, start-Passes finished spawned r j p nested upstream id))
      ]
