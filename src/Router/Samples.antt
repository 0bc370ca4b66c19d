-- ===== src/Router/Samples.antt =====
-- A codec and a host for the runs of src/router.rs: the host answers every read with one last
-- chunk.
use Prim.Native.Char.{code}
use cpa_stg.Base.Partial.{◌>>=◌}
use cpa_stg.Base.Text.{append}
use cpa_stg.Base.Result.{ok}
use cpa_stg.Base.{
  ℕ, zero, suc, ◌+◌, String, true, Option, none, some, [], ◌∷◌, ◌≡◌, refl, ap, ◌∙◌, ◌==◌, ℕ_eq,
  if◌then◌else◌, arith,
}
use cpa_stg.ErrorMapping.Delay.{Bytes}
use cpa_stg.ErrorMapping.{default_mapping}
use cpa_stg.Host.{Host}
use cpa_stg.Json.{Value, bool, string, object, field, end, index, get}
use cpa_stg.Router.Execute.{Prepared, prepare, claim}
use cpa_stg.Router.{Codec, Worker, initial, is_stream_request}

-- Numbers as strokes, in place of base64.
strokes : ℕ → String → String
unfolding append
strokes zero rest = append "." rest
strokes (suc n) rest = append "i" (strokes n rest)

pub encode : Bytes → String
unfolding strokes
encode [] = ""
encode (b ∷ bs) = strokes b (encode bs)

pub count : ℕ → String → Option Bytes
count n String.[] = some []
count n (String.◌∷◌ c s) =
    let on = count (n + 1) s in
    let next = count 0 s in if code c == 105 then on else (do bs ← next; some (n ∷ bs))

count-strokes :
    (n b : ℕ) (s : String) → count n (strokes b s) ≡ (do bs ← count 0 s; some ((n + b) ∷ bs))
unfolding count strokes append
count-strokes n zero s = ap (λ k. count 0 s >>= λ bs. some (k ∷ bs)) (omega arith)
count-strokes n (suc b) s =
    count-strokes (n + 1) b s ∙ ap (λ k. count 0 s >>= λ bs. some (k ∷ bs)) (omega arith)

pub decode-encode : (bs : Bytes) → count 0 (encode bs) ≡ some bs
unfolding encode count
decode-encode [] = refl
decode-encode (b ∷ bs) =
    count-strokes 0 b (encode bs)
    ∙ ap (λ k. count 0 (encode bs) >>= λ cs. some (k ∷ cs)) (omega arith)
    ∙ ap (λ o. o >>= λ cs. some (b ∷ cs)) (decode-encode bs)

abbrev pub request : Value
request = object (
    field "SourceFormat" (string "openai-response") (
      field "Stream" (bool true)
        (field "stream_id" (string "d") (field "host_callback_id" (string "k") end))))

-- The nested stream, and its one chunk.
abbrev pub chunk : Value
chunk = object (
    field "stream_id" (string "n") (field "payload" (string "iii.") (field "done" (bool true) end)))

abbrev pub codec : Codec
codec = record {
  library = record {
    from_utf8 = λ bytes. none;
    from_str = λ text. none;
    from_slice = λ bytes. some (elim bytes [
      | [] ↦ object (field "ok" (bool true) (field "result" chunk end))
      | b ∷ bs ↦ request
    ]);
    print = λ v. [];
  };
  encode = encode;
  decode = count 0;
  from_yaml = λ bytes. none;
}

abbrev pub host : Host
host = record { installed = true; reply = λ calls. record { code = 0; output = some [] } }

abbrev pub worker : Worker
worker = record { nested = "n"; downstream = "d" }

abbrev pub asked : Prepared
asked = record { mapping = default_mapping; downstream = "d"; callback = "k" }

pub prepared : prepare initial request ≡ (claim initial, ok asked)
unfolding prepare is_stream_request index get
prepared = refl
