-- ===== src/Plugin/Buffers.antt =====
-- src/lib.rs: what `plugin_call` leaves in memory, `plugin_free`, and `plugin_shutdown`. The
-- allocator is a parameter, and so is the printing of JSON.
use cpa_stg.Base.Map.{get, insert, get-insert}
use cpa_stg.Base.Memory.{
  Memory, Buffer, null_buffer, buffer_at, load, release, load-insert, release-insert,
}
use cpa_stg.Base.{
  ℕ, String, Bool, true, false, Option, none, some, ◌≡◌, refl, ==_iff, ℕ_eq, if◌then◌else◌, arith,
}
use cpa_stg.ErrorMapping.Delay.{Bytes}
use cpa_stg.Json.{Value}
use cpa_stg.Plugin.{Incoming, Called, failed, wrote, waits, plugin_call}
use cpa_stg.Protocol.Envelope.{Printer}
use cpa_stg.Protocol.Handle.{Answer}

-- The call returns its code, and leaves the memory and the response, none if the host passed no
-- place for it; or its thread waits.
pub data Returned (S : Type 0) : Type 0 where
  returned : S → Memory → Option Buffer → ℕ → Returned S
  waiting : S → Memory → Option Buffer → Option ℕ → Returned S

-- The response at the start.
abbrev pub cleared : Bool → Option Buffer
cleared response_null = if response_null then none else some null_buffer

module _ {S : Type 0} (place : Memory → ℕ) (print : Value → Bytes) where
  -- `value.to_string().into_bytes().into_boxed_slice()` in a new block.
  unfoldable pub deliver : Memory → Bool → Called S → Returned S
  deliver m response_null (failed s) = returned s m (cleared response_null) 1
  deliver m response_null (wrote s v) =
      returned s (insert (place m) (print v) m) (some (buffer_at (place m) (print v))) 0
  deliver m response_null (waits s deadline) = waiting s m (cleared response_null) deadline

  unfoldable pub plugin_call_in :
      Printer
      → (S → String → Bytes → Option (S × Answer))
      → (S → S)
      → S
      → Memory
      → S
      → Incoming
      → Returned S
  plugin_call_in p serve halt left_by_panic m s x =
      deliver m x.response_null (plugin_call p serve halt left_by_panic s x)

-- `none` is an undefined access.
unfoldable pub plugin_free : Option ℕ → ℕ → Memory → Option Memory
plugin_free none len m = some m
plugin_free (some p) len m = release p len m

-- What the host does with a response that it has read.
abbrev pub free_response : Option Buffer → Memory → Option Memory
free_response none m = some m
free_response (some buffer) m = plugin_free buffer.ptr buffer.len m

-- The bytes of a response.
abbrev pub read_response : Buffer → Memory → Option Bytes
read_response buffer m = elim buffer.ptr [ none ↦ none | some p ↦ load p buffer.len m ]

-- `plugin_shutdown`, from what `router::shutdown` does in a build with the router, else nothing;
-- `none` is a panic. There may be no runtime yet.
unfoldable pub plugin_shutdown :
    {R S : Type 0} → (R → Option R) → (S → S) → R → R → Option S → R × Option S
plugin_shutdown shutdown stop left_by_panic r runtime = elim (shutdown r) [
  | none ↦ (left_by_panic, runtime)
  | some r' ↦ (r', elim runtime [ none ↦ none | some s ↦ some (stop s) ])
]

module _ (m : Memory) where
  free_cleared : (response_null : Bool) → free_response (cleared response_null) m ≡ some m
  unfolding plugin_free
  free_cleared true = refl
  free_cleared false = refl

  others_kept :
      (p q : ℕ) (bytes block : Bytes)
      → get p m ≡ none
      → get q m ≡ some block
      → get q (insert p bytes m) ≡ some block
  others_kept p q bytes block dead live = ground (arith, get-insert p q bytes m, ==_iff p q)

module _ {S : Type 0} (place : Memory → ℕ) (print : Value → Bytes) (m : Memory) where
  -- What the host finds after a call, by what the call did.
  pub data Responds : Called S → Returned S → Type 0 where
    fails :
        (s : S) (response : Option Buffer)
        → free_response response m ≡ some m
        → Responds (failed s) (returned s m response 1)
    responds :
        (s : S) (v : Value) (m' : Memory) (buffer : Buffer)
        → read_response buffer m' ≡ some (print v)
        → free_response (some buffer) m' ≡ some m
        → ((p : ℕ) (block : Bytes) → get p m ≡ some block → get p m' ≡ some block)
        → Responds (wrote s v) (returned s m' (some buffer) 0)
    blocks :
        (s : S) (response : Option Buffer) (deadline : Option ℕ)
        → free_response response m ≡ some m
        → Responds (waits s deadline) (waiting s m response deadline)

  deliver-Responds :
      get (place m) m ≡ none
      → (response_null : Bool) (o : Called S) → Responds o (deliver place print m response_null o)
  unfolding deliver plugin_free
  deliver-Responds dead response_null (failed s) = fails s _ (free_cleared m response_null)
  deliver-Responds dead response_null (wrote s v) =
      responds s v _ _ (load-insert (place m) (print v) m)
        (release-insert (place m) (print v) m dead)
        (λ p block live. others_kept m (place m) p (print v) block dead live)
  deliver-Responds dead response_null (waits s d) = blocks s _ d (free_cleared m response_null)

-- After a call of the plugin, whatever the handler: if the call returns 0, the response holds the
-- printed value, every block that was live is as it was, and `plugin_free` of the response leaves
-- the memory as it was before the call; if it returns 1 or waits, the memory is as it was, and
-- the response, if there is one, is safe to free. The allocator gives an address that is not in
-- use.
pub plugin_call_in-free :
    {S : Type 0} (p : Printer) (serve : S → String → Bytes → Option (S × Answer)) (halt : S → S)
    (left_by_panic : S) (place : Memory → ℕ) (m : Memory)
    → get (place m) m ≡ none
    → (s : S) (x : Incoming)
    → Responds place p.print m
        (plugin_call p serve halt left_by_panic s x)
        (plugin_call_in place p.print p serve halt left_by_panic m s x)
unfolding plugin_call_in
plugin_call_in-free p serve halt left_by_panic place m dead s x =
    deliver-Responds place p.print m dead x.response_null
      (plugin_call p serve halt left_by_panic s x)
