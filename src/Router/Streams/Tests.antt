-- ===== src/Router/Streams/Tests.antt =====
-- The threads of src/router.rs at one request, which is launched, or finds a stopping router.
use cpa_stg.Base.Result.{ok}
use cpa_stg.Base.{◌*◌, length, ◌+◌, ◌≤◌, String, true, [], ◌∷◌, ◌≡◌, refl}
use cpa_stg.Host.{Journal, call, decode_reply, open_envelope}
use cpa_stg.Json.{index, get}
use cpa_stg.Router.Execute.{claim, execution}
use cpa_stg.Router.Handle.{shutdown}
use cpa_stg.Router.Closings.{closes}
use cpa_stg.Router.Samples.{request, chunk, codec, host, asked, prepared}
use cpa_stg.Router.Streams.Account.{opens, waits_with, serves, tally}
use cpa_stg.Router.Streams.Closed.{run-opens-le}
use cpa_stg.Router.Streams.Drains.{run-drains}
use cpa_stg.Router.Streams.Turns.{turns, run-turns-le}
use cpa_stg.Router.Streams.{
  asking, answered, House, empty_house, asks, calls, stops, Run, here, step,
}
use cpa_stg.Router.{initial}

abbrev asked_house : House
asked_house = record empty_house { router = claim initial; pending = asking request asked ∷ [] }

abbrev asking_call : Journal
asking_call = ("host.model.execute_stream", execution request "k") ∷ []

abbrev opened : House
opened = record asked_house {
  journal = asking_call;
  answers = ok chunk ∷ [];
  pending = answered asked (ok chunk) ∷ [];
}

host_opens :
    call codec.library host [] "host.model.execute_stream" (execution request "k")
    ≡ (asking_call, ok chunk)
unfolding call decode_reply open_envelope index get
host_opens = refl

run-opened : Run codec host empty_house opened
run-opened =
    step (step here (asks request asked prepared))
      (calls [] [] request asked (ok chunk) refl host_opens)

abbrev stopped : House
stopped = record opened {
  router = record opened.router { stopping = true };
  journal = (shutdown codec host opened.router opened.journal).1;
}

run-stopped : Run codec host empty_house stopped
unfolding shutdown
run-stopped = step run-opened stops

run-opens-le_example :
    tally (opens "n") opened.answers
    ≤ closes "n" opened.journal
      + tally (waits_with "n") opened.pending
      + tally (serves "n") opened.threads
run-opens-le_example = run-opens-le codec host refl opened run-opened "n"

-- A run to the end.
drained : (h' : House) × Run codec host stopped h'
drained = let (h', run, _, _, _) = run-drains codec host refl stopped run-stopped refl in (h', run)

run-turns-le_example :
    turns codec host drained.1 ≤ 2 * (length stopped.pending + length stopped.threads)
run-turns-le_example = run-turns-le codec host stopped drained.0 drained.1 refl

run-drains_example :
    (h' : House) × Run codec host stopped h'
    × (h'.pending ≡ [])
    × (h'.threads ≡ [])
    × ((id : String) → tally (opens id) h'.answers ≤ closes id h'.journal)
run-drains_example = run-drains codec host refl stopped run-stopped refl
