-- ===== src/Tests.antt =====
-- Runs of the model at concrete inputs, and each theorem of the header at an input that meets its
-- hypotheses.
mod Edges
mod Concurrent
mod Whole
mod Fixed
mod Books
mod Parts
mod Program
mod Queues
mod Reference
mod Session
