-- ===== src/Ruleset.antt =====
-- internal/engine/manifold/ruleset/arrow: rules on a manifest that the runtime relies on.
pub mod MethodStates
