-- ===== src/Analysis.antt =====
-- Game reports: pkg/analysis/score.go, and the worker that makes them,
-- services/analysis-worker/internal/worker/worker.go.
pub mod Score
pub mod Summary
pub mod Accuracy
pub mod Worker
pub mod Examples
