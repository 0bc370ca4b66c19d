-- ===== src/Router/Pump/Traffic.antt =====
-- What a worker of src/router.rs has read and what it has sent, as its calls of the host tell it.
use mathlib.Core.List.{append-nil}
use mathlib.Core.Path.{subst}
use cpa_stg.Base.Result.{Result, ok, err}
use cpa_stg.Base.{
  String, Bool, true, Option, none, some, List, [], ◌∷◌, ◌++◌, ◌≡◌, refl, sym, ap, ◌∙◌,
  if◌then◌else◌, ◌==◌, string_eq, ==_refl, ◌&&◌,
}
use cpa_stg.ErrorMapping.Delay.{Bytes}
use cpa_stg.Host.{Fault, Host, Journal, call, decode_reply}
use cpa_stg.Json.{Value, index, get, as_str, is_text}
use cpa_stg.Router.{Emitted, Codec, text_field, stream_id, emit, emission, discard}

module _ (c : Codec) where
  abbrev pub listed : Option Bytes → List Bytes
  listed none = []
  listed (some b) = b ∷ []

  -- The bytes of a text in base64, if it is one.
  abbrev pub bytes_of : Option String → List Bytes
  bytes_of none = []
  bytes_of (some text) = listed (c.decode text)

  abbrev pub all_of : List Bytes → Bytes
  all_of [] = []
  all_of (b ∷ bs) = b ++ all_of bs

  -- The payload in an emission.
  abbrev pub emitted : Value → Bytes
  emitted v = all_of (bytes_of (as_str (index v "payload")))

  -- The payload of a chunk that the host has answered with, if it is no error.
  unfoldable pub payload : Value → List Bytes
  payload chunk = elim (text_field chunk "error") [
    | some message ↦ []
    | none ↦ bytes_of (as_str (index chunk "payload"))
  ]

  abbrev pub payload_of : Result Fault Value → List Bytes
  payload_of (err fault) = []
  payload_of (ok chunk) = payload chunk

  -- The message of a terminal error that the host has answered with.
  abbrev pub terminal_of : Result Fault Value → Option String
  terminal_of (err fault) = none
  terminal_of (ok chunk) = text_field chunk "error"

  -- All that was handed to the host for a stream.
  unfoldable pub sent : String → Journal → Bytes
  sent id [] = []
  sent id ((method, request) ∷ j) =
      let before = sent id j in
      if method == "host.stream.emit" && is_text (index request "stream_id") id
      then before ++ emitted request
      else before

  module _ (host : Host) where
    -- All payloads that the host has answered with for a nested stream.
    unfoldable pub received : String → Journal → List Bytes
    received id [] = []
    received id ((method, request) ∷ j) =
        let before = received id j in
        if method == "host.model.stream_read" && is_text (index request "stream_id") id
        then before ++ payload_of (decode_reply c.library (host.reply ((method, request) ∷ j)))
        else before

    -- The message of the terminal error in the newest answer to a read of a nested stream.
    unfoldable pub terminal : String → Journal → Option String
    terminal id [] = none
    terminal id ((method, request) ∷ j) =
        let before = terminal id j in
        if method == "host.model.stream_read" && is_text (index request "stream_id") id
        then terminal_of (decode_reply c.library (host.reply ((method, request) ∷ j)))
        else before

    module _ (there : host.installed ≡ true) where
      pub call-journal :
          (j : Journal) (method : String) (request : Value)
          → call c.library host j method request
            ≡ ((method, request) ∷ j, decode_reply c.library (host.reply ((method, request) ∷ j)))
      unfolding call
      call-journal j method request = rw (there, call) refl

      pub sent-read :
          (id : String) (j : Journal) (request : Value)
          → sent id (call c.library host j "host.model.stream_read" request).0 ≡ sent id j
      unfolding sent
      sent-read id j request =
          ap (λ x. sent id x.0) (call-journal j "host.model.stream_read" request)

      abbrev read : Journal → String → Journal × Result Fault Value
      read j id = call c.library host j "host.model.stream_read" (stream_id id)

      pub received-read :
          (id : String) (j : Journal)
          → received id (read j id).0 ≡ received id j ++ payload_of (read j id).1
      unfolding received index get
      received-read id j =
          let fresh =
            payload_of (
              decode_reply c.library (host.reply (("host.model.stream_read", stream_id id) ∷ j))) in
          ap (λ x. received id x.0) (call-journal j "host.model.stream_read" (stream_id id))
          ∙ ap (λ (b : Bool). if b then received id j ++ fresh else received id j)
              (==_refl ⦃e = string_eq⦄ id)
          ∙ ap (λ x. received id j ++ payload_of x.1)
              (sym (call-journal j "host.model.stream_read" (stream_id id)))

      pub call-answer :
          (j : Journal) (method : String) (request : Value)
          → decode_reply c.library (host.reply (call c.library host j method request).0)
            ≡ (call c.library host j method request).1
      call-answer j method request =
          ap (λ x. decode_reply c.library (host.reply x.0)) (call-journal j method request)
          ∙ ap (λ x. x.1) (sym (call-journal j method request))

      pub terminal-read :
          (id : String) (j : Journal) → terminal id (read j id).0 ≡ terminal_of (read j id).1
      unfolding terminal index get
      terminal-read id j =
          let fresh =
            terminal_of (
              decode_reply c.library (host.reply (("host.model.stream_read", stream_id id) ∷ j))) in
          ap (λ x. terminal id x.0) (call-journal j "host.model.stream_read" (stream_id id))
          ∙ ap (λ (b : Bool). if b then fresh else terminal id j) (==_refl ⦃e = string_eq⦄ id)
          ∙ ap (λ x. terminal_of x.1) (sym (call-journal j "host.model.stream_read" (stream_id id)))

      module _ (law : (b : Bytes) → c.decode (c.encode b) ≡ some b) where
        emitted-emission : (id : String) (b : Bytes) → emitted (emission c host id b) ≡ b
        unfolding index get
        emitted-emission id b = ap (λ o. all_of (listed o)) (law b) ∙ append-nil b

        discard-err :
            (answer : Result Fault Value) (fault : Fault)
            → discard c host answer ≡ err fault
            → answer ≡ err fault
        discard-err (ok v) fault h = cc
        discard-err (err other) fault h = cc

        -- An emission is for its stream, nothing is read, and a failure is the host's own.
        pub record Sent (nested id : String) (j : Journal) (b : Bytes) (r : Emitted) : Type 0 where
          pub out : sent id r.0 ≡ sent id j ++ b
          pub unread : received nested r.0 ≡ received nested j
          pub same_end : terminal nested r.0 ≡ terminal nested j
          pub answer :
              (fault : Fault)
              → r.1 ≡ err fault
              → decode_reply c.library (host.reply r.0) ≡ err fault

        emit-some :
            (nested id : String) (j : Journal) (b : Bytes)
            → Sent nested id j b (
              ("host.stream.emit", emission c host id b) ∷ j,
              discard c host (
                  decode_reply c.library
                    (host.reply (("host.stream.emit", emission c host id b) ∷ j))),
            )
        unfolding sent received terminal index get
        emit-some nested id j b = record {
          out =
              ap
                (λ (y : Bool). if y then sent id j ++ emitted (emission c host id b) else sent id j)
                (==_refl ⦃e = string_eq⦄ id)
              ∙ ap (λ x. sent id j ++ x) (emitted-emission id b);
          unread = refl;
          same_end = refl;
          answer = λ fault h. discard-err _ fault h;
        }

        pub emit-Sent :
            (nested id : String) (j : Journal) (b : Bytes) → Sent nested id j b (emit c host j id b)
        unfolding emit
        emit-Sent nested id j [] = record {
          out = sym (append-nil (sent id j));
          unread = refl;
          same_end = refl;
          answer = λ fault h. cc;
        }
        emit-Sent nested id j (x ∷ b) =
            subst (λ r. Sent nested id j (x ∷ b) (r.0, discard c host r.1))
              (sym (call-journal j "host.stream.emit" (emission c host id (x ∷ b))))
              (emit-some nested id j (x ∷ b))
