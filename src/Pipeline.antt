-- ===== src/Pipeline.antt =====
-- internal/pipeline: the jobs and the two stages.
pub mod Jobs
pub mod Runner
pub mod Extraction
pub mod Classification
