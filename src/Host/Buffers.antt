-- ===== src/Host/Buffers.antt =====
-- src/host.rs: what `call` does to memory, the buffer that the callback fills included. The
-- callback and the host's `free_buffer` are parameters.
use cpa_stg.ErrorMapping.Delay.{Bytes}
use mathlib.Core.Path.{subst}
use cpa_stg.Base.Map.{get, insert, remove}
use cpa_stg.Base.Memory.{
  Memory, Buffer, buffer_at, load, load-insert, get-insert-here, remove-insert,
}
use cpa_stg.Base.Partial.{◌>>=◌}
use cpa_stg.Base.Result
use cpa_stg.Base.Result.{Result, ok, err}
use cpa_stg.Base.{
  ℕ, String, true, false, not, ◌||◌, Option, none, some, List, ◌∷◌, ◌==◌, ℕ_eq, if◌then◌else◌, ltb,
  length, ◌≡◌, refl, sym, ap, ◌∙◌, inl, inr, Bool-cases,
}
use cpa_stg.ErrorMapping.Sse.{Library}
use cpa_stg.Host.{
  Fault, new_fault, Journal, Reply, Host, max_output, open_envelope, decode_reply, call,
}
use cpa_stg.Json.{Value}

-- The callback table. A callback leaves the memory, its code and the buffer.
pub record Table : Type 0 where
  pub callback : Journal → Memory → Memory × ℕ × Buffer
  pub free_buffer : ℕ → ℕ → Memory → Option Memory

-- The bytes of the output, read and parsed.
unfoldable pub read_output : Library → ℕ → Buffer → Memory → Option (Result Fault Value)
read_output library code output m = elim output.ptr [
  | none ↦ some (err (new_fault "Invalid host callback response"))
  | some p ↦
      if not (code == 0) || ltb max_output output.len
      then some (err (new_fault "Invalid host callback response"))
      else (load p output.len m >>= λ bytes. some (elim (library.from_slice bytes) [
        | none ↦ err (new_fault "Invalid host response JSON")
        | some v ↦ ok v
      ]))
]

unfoldable pub free_output : Table → Buffer → Memory → Option Memory
free_output t output m = elim output.ptr [ none ↦ some m | some p ↦ t.free_buffer p output.len m ]

-- After the callback.
unfoldable pub take_output :
    Library → Table → Memory × ℕ × Buffer → Option (Memory × Result Fault Value)
take_output library t (m, code, output) = do
  result ← read_output library code output m
  m' ← free_output t output m
  some (m', Result.◌>>=◌ result open_envelope)

unfoldable pub call_in :
    Library
    → Option Table
    → Memory
    → Journal
    → String
    → Value
    → Option (Memory × Journal × Result Fault Value)
call_in library none m journal method request =
    some (m, journal, err (new_fault "Host callbacks unavailable"))
call_in library (some t) m journal method request =
    let journal' = (method, request) ∷ journal in
    do (m', result) ← take_output library t (t.callback journal' m); some (m', journal', result)

-- What the host promises of one callback, by what it answers: the output is a new block, as long
-- as the buffer says, or none.
abbrev pub Fills : Memory → Reply → Memory × ℕ × Buffer → Type 0
Fills m reply r = elim reply.output [
  | none ↦ (len : ℕ) × (r ≡ (m, reply.code, record { ptr = none; len = len }))
  | some bytes ↦
      (p : ℕ) × (get p m ≡ none) × (r ≡ (insert p bytes m, reply.code, buffer_at p bytes))
]

-- The table's functions serve the host, and `free_buffer` gives a live block back.
pub record Serves (host : Host) (t : Table) : Type 0 where
  pub fills : (journal : Journal) (m : Memory) → Fills m (host.reply journal) (t.callback journal m)
  pub frees :
      (p : ℕ) (bytes : List ℕ) (m : Memory)
      → get p m ≡ some bytes
      → t.free_buffer p (length bytes) m ≡ some (remove p m)

abbrev pub Installed : Host → Option Table → Type 0
Installed host none = host.installed ≡ false
Installed host (some t) = (host.installed ≡ true) × Serves host t

module _ (library : Library) (host : Host) (t : Table) (serves : Serves host t) where
  abbrev Takes : Memory → Reply → Memory × ℕ × Buffer → Type 0
  Takes m reply r = take_output library t r ≡ some (m, decode_reply library reply)

  no_output :
      (m : Memory) (code len : ℕ)
      → Takes m (record { code = code; output = none }) (m, code, record { ptr = none; len = len })
  unfolding take_output read_output free_output decode_reply
  no_output m code len = refl

  abbrev parsed : Option Value → Result Fault Value
  parsed o = elim o [ none ↦ err (new_fault "Invalid host response JSON") | some v ↦ ok v ]

  parsed-open_envelope :
      (o : Option Value)
      → Result.◌>>=◌ (parsed o) open_envelope
        ≡ elim o [ none ↦ err (new_fault "Invalid host response JSON") | some v ↦ open_envelope v ]
  parsed-open_envelope none = refl
  parsed-open_envelope (some v) = refl

  frees_new :
      (m : Memory) (p : ℕ) (bytes : List ℕ)
      → get p m ≡ none
      → t.free_buffer p (length bytes) (insert p bytes m) ≡ some m
  frees_new m p bytes dead =
      serves.frees p bytes (insert p bytes m) (get-insert-here p bytes m)
      ∙ ap some (remove-insert p bytes m dead)

  new_output :
      (m : Memory) (code p : ℕ) (bytes : List ℕ)
      → get p m ≡ none
      → Takes m
          (record { code = code; output = some bytes })
          (insert p bytes m, code, buffer_at p bytes)
  unfolding take_output read_output free_output decode_reply
  new_output m code p bytes dead =
      elim (Bool-cases (not (code == 0) || ltb max_output (length bytes))) [
        | inl bad ↦ rw (bad, frees_new m p bytes dead) refl
        | inr good ↦
            rw
              (
                good,
                load-insert p bytes m,
                frees_new m p bytes dead,
                parsed-open_envelope (library.from_slice bytes),
              )
              refl
      ]

  take_output-Takes :
      (m : Memory) (code : ℕ) (output : Option Bytes) (r : Memory × ℕ × Buffer)
      → Fills m (record { code = code; output = output }) r
      → Takes m (record { code = code; output = output }) r
  take_output-Takes m code none r (len, same) =
      subst (Takes m (record { code = code; output = none })) (sym same) (no_output m code len)
  take_output-Takes m code (some bytes) r (p, dead, same) =
      subst (Takes m (record { code = code; output = some bytes })) (sym same)
        (new_output m code p bytes dead)

-- A call of the host returns what `call` returns, and leaves the memory as it was: it reads its
-- output while that is live, and gives it back once, on every path. The callback table, if there
-- is one, serves the host: an output is a new block as long as the callback says, and
-- `free_buffer` gives a live block back.
pub call_in-call :
    (library : Library) (host : Host) (table : Option Table)
    → Installed host table
    → (m : Memory) (journal : Journal) (method : String) (request : Value)
    → call_in library table m journal method request ≡ (
        let (journal', result) = call library host journal method request in
        some (m, journal', result))
unfolding call_in call
call_in-call library host none missing m journal method request = rw missing refl
call_in-call library host (some t) (there, serves) m journal method request =
    let journal' = (method, request) ∷ journal in
    let reply = host.reply journal' in
    let taken =
      take_output-Takes library host t serves m reply.code reply.output (t.callback journal' m)
        (serves.fills journal' m) in
    rw (there, taken) refl
