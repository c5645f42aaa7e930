-- ===== src/Domain.antt =====
-- internal/domain/domain.go: the types that the stages share.
pub mod Labels
pub mod Durations
use sayari.Prelude.{ℕ, ℤ, Text, Option}
use Labels.{DocStatus, TokenStatus, Category}

-- `RerunMode`: how a process request treats an existing document.
pub data RerunMode : Type 0 where
  partial full : RerunMode

pub record Position : Type 0 where
  pub page : ℕ
  pub sentence : ℕ
  pub char_offset : ℕ

pub record Entity : Type 0 where
  pub text : Text
  pub context : Text
  pub position : Position

-- A `time.Time` is a number of nanoseconds, a nil `*time.Time` is `none`.
pub record Document : Type 0 where
  pub id : Text
  pub text : Text
  pub content_hash : Text
  pub status : DocStatus
  pub run_version : ℕ
  pub total_tokens : ℕ
  pub classified_count : ℕ
  pub extraction_started_at : Option ℕ
  pub extraction_completed_at : Option ℕ
  pub classification_started_at : Option ℕ
  pub classification_completed_at : Option ℕ
  pub created_at : ℕ
  pub updated_at : ℕ

-- A float64 that is only stored and passed on is its bit pattern.
abbrev pub Float : Type 0
Float = ℕ

pub record Token : Type 0 where
  pub id : ℕ
  pub document_id : Text
  pub run_version : ℕ
  pub text : Text
  pub context : Text
  pub position : Position
  pub status : TokenStatus
  pub classification : Option Category
  pub confidence : Option Float
  pub reasoning : Option Text
  pub created_at : ℕ
  pub classified_at : Option ℕ

pub record Classification : Type 0 where
  pub category : Category
  pub confidence : Float
  pub reasoning : Text

-- The zero value matches every token of a document. A status from a request is any text.
pub record TokenFilter : Type 0 where
  pub classification : Option Category
  pub status : Option Text
  pub page : Option ℤ
  pub limit : ℤ
  pub offset : ℤ
