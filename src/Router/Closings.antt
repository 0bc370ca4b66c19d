-- ===== src/Router/Closings.antt =====
-- The calls of src/router.rs that close a stream of the host, as the journal grows.
use cpa_stg.Base.Result.{Result}
use cpa_stg.Base.{
  ℕ, ◌+◌, ◌≤◌, String, true, not, ◌&&◌, List, [], ◌∷◌, ◌++◌, ◌≡◌, refl, ◌==◌, ==_refl, string_eq,
  if◌then◌else◌, arith, if_cases, is_empty,
}
use cpa_stg.ErrorMapping.Delay.{Bytes}
use cpa_stg.Host.{Fault, Host, HostCall, Journal, call}
use cpa_stg.Json.{Value, index, is_text, get}
use cpa_stg.Router.Handle.{close_all}
use cpa_stg.Router.{Emitted, Codec, Worker, stream_id, close, emit}

-- A call that closes the nested stream `id`.
abbrev pub closes_one : String → HostCall → ℕ
closes_one id (method, request) =
    if method == "host.model.stream_close" && is_text (index request "stream_id") id then 1 else 0

-- How often a journal closes it.
abbrev pub closes : String → Journal → ℕ
closes id [] = 0
closes id (made ∷ j) = closes_one id made + closes id j

abbrev pub Grows : Journal → Journal → Type 0
Grows j j' = (id : String) → closes id j ≤ closes id j'

pub closes-append :
    (id : String) (calls : List HostCall) (j : Journal) → closes id j ≤ closes id (calls ++ j)
closes-append id [] j = omega arith
closes-append id (made ∷ calls) j = omega (arith, closes-append id calls j)

pub Grows-trans : (i j k : Journal) → Grows i j → Grows j k → Grows i k
Grows-trans i j k g h id = omega (arith, g id, h id)

pub stays : (j : Journal) → Grows j j
stays j id = omega arith

module _ (c : Codec) (host : Host) where
  pub call-Grows :
      (j : Journal) (method : String) (request : Value)
      → Grows j (call c.library host j method request).0
  unfolding call
  call-Grows j method request id =
      if_cases (λ (r : Journal × Result Fault Value). closes id j ≤ closes id r.0)
        (not host.installed) _ _ (λ missing. omega arith) (λ there. omega arith)

  pub close-Grows : (j : Journal) (method id : String) → Grows j (close c host j method id)
  unfolding close
  close-Grows j method id = call-Grows j method (stream_id id)

  pub close-closes :
      (j : Journal) (id : String)
      → host.installed ≡ true
      → closes id (close c host j "host.model.stream_close" id) ≡ 1 + closes id j
  unfolding close call index get
  close-closes j id there = rw (there, call) (rw (==_refl id) refl)

  pub close_all-Grows : (ws : List Worker) (j : Journal) → Grows j (close_all c host j ws)
  unfolding close_all
  close_all-Grows [] j id = omega arith
  close_all-Grows (w ∷ ws) j id =
      let first = close c host j "host.stream.close" w.downstream in
      let second = close c host first "host.model.stream_close" w.nested in
      omega (
        arith,
        close-Grows j "host.stream.close" w.downstream id,
        close-Grows first "host.model.stream_close" w.nested id,
        close_all-Grows ws second id,
      )

  pub emit-Grows :
      (j : Journal) (id : String) (payload : Bytes) → Grows j (emit c host j id payload).0
  unfolding emit
  emit-Grows j id payload other =
      if_cases (λ (r : Emitted). closes other j ≤ closes other r.0) (is_empty payload) _ _
        (λ nothing. omega arith) (λ some_bytes. call-Grows j "host.stream.emit" _ other)
