-- ===== src/Store.antt =====
-- internal/store: the tables of internal/store/migrations as one state. `documents` is a function
-- of its primary key; `tokens` and `outbox` are lists in the order of their serial ids.
pub mod Sha256
pub mod Tx
pub mod Real
pub mod Robust
pub mod Documents
pub mod Tokens
pub mod Outbox
pub mod Query
use sayari.Prelude.{ℕ, Text, Option, List}
use sayari.Domain.{Document, Token}
use sayari.Json.{Payload}

pub record OutboxRow : Type 0 where
  pub id : ℕ
  pub stream : Text
  pub key : Text
  pub payload : Payload

pub record Db : Type 0 where
  pub documents : Text → Option Document
  pub tokens : List Token
  pub outbox : List OutboxRow
  -- The sequences of the two BIGSERIAL columns.
  pub next_token : ℕ
  pub next_outbox : ℕ
