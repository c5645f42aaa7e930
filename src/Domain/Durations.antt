-- ===== src/Domain/Durations.antt =====
-- internal/domain/domain.go: `Document.Durations`. A duration is a signed number of nanoseconds.
use sayari.Prelude.{ℕ, ℤ, pos, sub_ℕ, Option, none, some}
use sayari.Domain.{Document}

-- `completed.Sub(*started)` when both times are there, and zero otherwise.
unfoldable pub elapsed : Option ℕ → Option ℕ → ℤ
elapsed none completed = pos 0
elapsed (some started) none = pos 0
elapsed (some started) (some completed) = sub_ℕ completed started

-- The wall-clock time of the extraction and of the classification.
unfoldable pub durations : Document → ℤ × ℤ
unfolding elapsed
durations d = (
  elapsed d.extraction_started_at d.extraction_completed_at,
  elapsed d.classification_started_at d.classification_completed_at,
)
