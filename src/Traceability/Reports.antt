-- ===== src/Traceability/Reports.antt =====
-- The report of traceability/trace.go.
use clanker_foundry.Prelude.{ℕ, List}
use clanker_foundry.Text.{Str}
use clanker_foundry.Traceability.{AcceptanceCase}

pub record ElementRef : Type 0 where
  pub kind : Str
  pub id : Str
  pub detail : Str

pub record RequirementTrace : Type 0 where
  pub id : Str
  pub title : Str
  pub statement : Str
  pub status : Str
  pub gaps : List Str
  pub model_links : List ElementRef
  pub acceptance_links : List AcceptanceCase

pub record ElementTrace : Type 0 where
  pub kind : Str
  pub id : Str
  pub detail : Str
  pub traced_by : List Str
  pub traced_via_guard : List Str

pub record CaseTrace : Type 0 where
  pub case : AcceptanceCase
  pub traced_by : List Str

pub record Summary : Type 0 where
  pub requirements : ℕ
  pub linked : ℕ
  pub incomplete : ℕ
  pub model_elements : ℕ
  pub untraced_model_elements : ℕ
  pub acceptance_cases : ℕ
  pub pending_acceptance_cases : ℕ
  pub unlinked_acceptance_cases : ℕ

pub record Inputs : Type 0 where
  pub requirements_digest : Str
  pub model_id : Str
  pub model_digest : Str
  pub catalog_sha256 : Str

pub record TraceReport : Type 0 where
  pub inputs : Inputs
  pub summary : Summary
  pub requirements : List RequirementTrace
  pub model_elements : List ElementTrace
  pub acceptance_cases : List CaseTrace
