-- ===== src/Outcome/Facts.antt =====
-- The records of src/product/outcome/invariantEngine.ts. The sentences for people are left out.
use nyst.Base.{ℕ, String, Bool, true, Option, List, eqb, Eq, eq_by_rank, ◌≡◌, ◌↔◌, arith}

-- `INVARIANT_OPERATORS`
pub data InvariantOperator : Type 0 where
  equals not_equals exists all any count zero freshness capability_present : InvariantOperator

-- `InvariantResult`: "true", "false" and "indeterminate".
pub data InvariantResult : Type 0 where
  holds fails indeterminate : InvariantResult

abbrev pub result_rank : InvariantResult → ℕ
result_rank InvariantResult.holds = 0
result_rank InvariantResult.fails = 1
result_rank InvariantResult.indeterminate = 2

pub result_rank_iff :
    (a b : InvariantResult) → (eqb (result_rank a) (result_rank b) ≡ true) ↔ (a ≡ b)
result_rank_iff a b = ground arith

instance abbrev pub result_eq : Eq InvariantResult
result_eq = eq_by_rank result_rank result_rank_iff

-- An integer: `negsuc n` is -(n + 1).
pub data ℤ : Type 0 where
  pos negsuc : ℕ → ℤ

pub data FactValue : Type 0 where
  text : String → FactValue
  integer : ℤ → FactValue
  boolean : Bool → FactValue
  string_set : List String → FactValue
  timestamp : String → FactValue
  absent : FactValue

pub record WorldFact : Type 0 where
  pub fact_id : String
  pub subject_ref : String
  pub provider : String
  pub property : String
  pub value : FactValue
  pub observed_at : String
  pub fresh_until : String
  pub evidence_id : Option String
  pub source_type : String
  pub authoritative : Bool
  pub adapter_version : String

pub record Invariant : Type 0 where
  pub invariant_id : String
  pub statement : String
  pub operator : InvariantOperator
  pub subject_ref : String
  pub property : String
  pub expected : Option FactValue
  pub members : Option (List String)
  pub any_is_safe : Bool
  pub expected_count : Option ℕ
  pub max_age_seconds : Option ℕ
  pub capability : Option String
  pub accepts_corroborative : Bool

-- The moment `now` in milliseconds.
pub record InvariantContext : Type 0 where
  pub facts : List WorldFact
  pub held_capabilities : List String
  pub freshness_seconds : ℕ
  pub now : ℕ

pub record InvariantEvaluation : Type 0 where
  pub invariant_id : String
  pub statement : String
  pub operator : InvariantOperator
  pub result : InvariantResult
  pub facts_used : List String
  pub evidence_ids : List String
  pub oldest_observed_at : Option String
  pub missing_facts : List String
  pub contradictions : List String

-- What JavaScript does: `new Date(text).getTime()`, which may be no number, `JSON.stringify`,
-- `localeCompare`, the default order and sort of texts, and `String(value)`.
pub record Script : Type 0 where
  pub time : String → Option ℕ
  pub stringify : FactValue → String
  pub text_lt : String → String → Bool
  pub code_lt : String → String → Bool
  pub sort : List String → List String
  pub show : FactValue → String
  pub join : List String → String
