-- ===== src/Protocol.antt =====
-- packages/protocol: the closure protocol. Its state machine and its evaluator.
pub mod State
pub mod Evaluator
