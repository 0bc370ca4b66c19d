-- ===== src/Protocol/Register.antt =====
-- Registration and reconfiguration in src/protocol.rs.
use cpa_stg.Base.Result.{Result-cases, ok}
use cpa_stg.Base.{ℕ, String, true, false, ◌≡◌, refl, ◌⊎◌, inl, inr, arith}
use cpa_stg.Config
use cpa_stg.Config.{Config}
use cpa_stg.Engine.Admission.{reconfigure}
use cpa_stg.Engine.Reconfigure.{reconfigure_accepted, reconfigure_refused}
use cpa_stg.Engine.{Engine}
use cpa_stg.ErrorMapping.Delay.{Bytes}
use cpa_stg.Float.{F64}
use cpa_stg.Json.{index, get}
use cpa_stg.Protocol.Envelope
use cpa_stg.Protocol.Handle.{register}
use cpa_stg.Protocol.Verdict.{succeeded}
use cpa_stg.Protocol.{Codec, read_config, registration}

read_config-disabled :
    (c : Codec) (raw : Bytes) (cfg : Config)
    → read_config c raw ≡ ok cfg
    → cfg.error_mapping.enabled ≡ false
unfolding read_config
read_config-disabled c raw cfg h = ground (arith, h)

succeeded-error : (message : String) → succeeded (Envelope.error message) ≡ false
unfolding succeeded index get Envelope.error
succeeded-error message = refl

succeeded-registration : (n : ℕ) → succeeded (registration n) ≡ true
unfolding succeeded index get registration Envelope.ok
succeeded-registration n = refl

module _ (c : Codec) {T : Type 0} ⦃f : F64 T⦄ (e : Engine T) (now : ℕ) (raw : Bytes) where
  -- The configuration that the payload holds, which is valid and maps no errors, is now in
  -- force, and every request has kept its phase.
  pub record Configured (e' : Engine T) : Type 0 where
    pub cfg : Config
    pub reads : read_config c raw ≡ ok cfg
    pub valid : Config.validate cfg ≡ ok tt
    pub unmapped : cfg.error_mapping.enabled ≡ false
    pub in_force : e'.config ≡ cfg
    pub same_requests : e'.requests ≡ e.requests

  -- A registration or reconfiguration either succeeds, and then it is `Configured`, or it reports
  -- an error, and then the engine is exactly as it was.
  pub register-Configured :
      ((succeeded (register c e now raw).1 ≡ true) × Configured (register c e now raw).0)
      ⊎ ((succeeded (register c e now raw).1 ≡ false) × ((register c e now raw).0 ≡ e))
  unfolding register
  register-Configured = elim (Result-cases (read_config c raw)) [
    | inr (message, h) ↦ rw (h, register) (inr (succeeded-error message, refl))
    | inl (cfg, h) ↦ elim (Result-cases (reconfigure e cfg now).1) [
      | inr (message, refused) ↦
          rw (h, register, refused)
            (inr (succeeded-error message, reconfigure_refused e cfg now message refused))
      | inl (tt', done) ↦
          let (taken, kept, good) = reconfigure_accepted e cfg now done in
          rw (h, register, done)
            (inl (
              succeeded-registration 2,
              record {
                cfg = cfg;
                reads = h;
                valid = good;
                unmapped = read_config-disabled c raw cfg h;
                in_force = taken;
                same_requests = kept;
              },
            ))
    ]
  ]
