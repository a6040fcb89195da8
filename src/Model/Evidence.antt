-- ===== src/Model/Evidence.antt =====
-- src/model/evidence.ts, with the attestations of src/core/clock.ts and src/core/signing.ts.
use nyst.Base.{ℕ, String, Bool, true, Option, ◌≡◌, ◌↔◌, arith, eqb, Eq, eq_by_rank}

-- `EVIDENCE_KINDS`
pub data EvidenceKind : Type 0 where
  provider_response provider_read provider_event downstream_state transport_error
        compensation_confirmation absence_probe manual_attestation :
      EvidenceKind

abbrev pub evidence_kind_rank : EvidenceKind → ℕ
evidence_kind_rank EvidenceKind.provider_response = 0
evidence_kind_rank EvidenceKind.provider_read = 1
evidence_kind_rank EvidenceKind.provider_event = 2
evidence_kind_rank EvidenceKind.downstream_state = 3
evidence_kind_rank EvidenceKind.transport_error = 4
evidence_kind_rank EvidenceKind.compensation_confirmation = 5
evidence_kind_rank EvidenceKind.absence_probe = 6
evidence_kind_rank EvidenceKind.manual_attestation = 7

pub evidence_kind_rank_iff :
    (a b : EvidenceKind) → (eqb (evidence_kind_rank a) (evidence_kind_rank b) ≡ true) ↔ (a ≡ b)
evidence_kind_rank_iff a b = ground arith

instance abbrev pub evidence_kind_eq : Eq EvidenceKind
evidence_kind_eq = eq_by_rank evidence_kind_rank evidence_kind_rank_iff

-- `VERIFICATION_METHODS`
pub data VerificationMethod : Type 0 where
  provider_read_back event_correlation response_inspection downstream_check absence_window_probe
        manual_review none :
      VerificationMethod

abbrev pub verification_method_rank : VerificationMethod → ℕ
verification_method_rank VerificationMethod.provider_read_back = 0
verification_method_rank VerificationMethod.event_correlation = 1
verification_method_rank VerificationMethod.response_inspection = 2
verification_method_rank VerificationMethod.downstream_check = 3
verification_method_rank VerificationMethod.absence_window_probe = 4
verification_method_rank VerificationMethod.manual_review = 5
verification_method_rank VerificationMethod.none = 6

pub verification_method_rank_iff :
    (a b : VerificationMethod)
    → (eqb (verification_method_rank a) (verification_method_rank b) ≡ true) ↔ (a ≡ b)
verification_method_rank_iff a b = ground arith

instance abbrev pub verification_method_eq : Eq VerificationMethod
verification_method_eq = eq_by_rank verification_method_rank verification_method_rank_iff

-- `EVIDENCE_DISPOSITIONS`
pub data EvidenceDisposition : Type 0 where
  effect_present effect_absent indeterminate : EvidenceDisposition

abbrev pub disposition_rank : EvidenceDisposition → ℕ
disposition_rank EvidenceDisposition.effect_present = 0
disposition_rank EvidenceDisposition.effect_absent = 1
disposition_rank EvidenceDisposition.indeterminate = 2

pub disposition_rank_iff :
    (a b : EvidenceDisposition) → (eqb (disposition_rank a) (disposition_rank b) ≡ true) ↔ (a ≡ b)
disposition_rank_iff a b = ground arith

instance abbrev pub disposition_eq : Eq EvidenceDisposition
disposition_eq = eq_by_rank disposition_rank disposition_rank_iff

-- `EVIDENCE_ATTRIBUTIONS`
pub data EvidenceAttribution : Type 0 where
  attributed unattributed indeterminate : EvidenceAttribution

abbrev pub attribution_rank : EvidenceAttribution → ℕ
attribution_rank EvidenceAttribution.attributed = 0
attribution_rank EvidenceAttribution.unattributed = 1
attribution_rank EvidenceAttribution.indeterminate = 2

pub attribution_rank_iff :
    (a b : EvidenceAttribution) → (eqb (attribution_rank a) (attribution_rank b) ≡ true) ↔ (a ≡ b)
attribution_rank_iff a b = ground arith

instance abbrev pub attribution_eq : Eq EvidenceAttribution
attribution_eq = eq_by_rank attribution_rank attribution_rank_iff

-- `EVIDENCE_STRENGTHS`
pub data EvidenceStrength : Type 0 where
  authoritative corroborative circumstantial transport_only : EvidenceStrength

abbrev pub strength_rank : EvidenceStrength → ℕ
strength_rank EvidenceStrength.authoritative = 0
strength_rank EvidenceStrength.corroborative = 1
strength_rank EvidenceStrength.circumstantial = 2
strength_rank EvidenceStrength.transport_only = 3

pub strength_rank_iff :
    (a b : EvidenceStrength) → (eqb (strength_rank a) (strength_rank b) ≡ true) ↔ (a ≡ b)
strength_rank_iff a b = ground arith

instance abbrev pub strength_eq : Eq EvidenceStrength
strength_eq = eq_by_rank strength_rank strength_rank_iff

-- `CLOCK_SOURCES`
pub data ClockSource : Type 0 where
  local_system_clock ntp_disciplined roughtime rfc3161_tsa : ClockSource

pub record ClockAttestation : Type 0 where
  pub source : ClockSource
  pub timestamp : String
  pub trusted : Bool
  pub monotonic_ns : Option ℕ

-- The algorithm and the canonicalization of an envelope are constants of the source.
pub record SignatureEnvelope : Type 0 where
  pub key_id : String
  pub signature_b64 : String

pub record Correlation : Type 0 where
  pub method : String
  pub value : Option String

-- `NewEvidence`: a record as a caller supplies it. The payload is opaque to the core.
pub record NewEvidence (Payload : Type 0) : Type 0 where
  pub action_id : String
  pub evidence_schema_version : ℕ
  pub source : String
  pub verification_method : VerificationMethod
  pub kind : EvidenceKind
  pub strength : EvidenceStrength
  pub observed_disposition : EvidenceDisposition
  pub attribution : EvidenceAttribution
  pub provider_object_id : Option String
  pub provider_event_id : Option String
  pub observed_at : String
  pub provider_timestamp : Option String
  pub payload : Payload
  pub correlation : Correlation
  pub signing : Option SignatureEnvelope
  pub clock : ClockAttestation
  pub supersedes_evidence_id : Option String

-- `EvidenceRecord`: with what the ledger itself assigns.
pub record EvidenceRecord (Payload : Type 0) : Type 0 where
  pub evidence_id : String
  pub seq : ℕ
  pub payload_hash : String
  pub given : NewEvidence Payload
  pub open given use *
