-- ===== src/Ai.antt =====
-- internal/ai: the hidden Markov model, the features, the regimes, the scorer and the filter over them.
pub mod Hmm
pub mod Features
pub mod Regime
pub mod Scorer
pub mod Filter
