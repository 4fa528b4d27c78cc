-- ===== src/Permission.antt =====
-- pkg/harness/permission/policy.go: what a policy decides about a step.
pub mod Evaluator
pub mod Rules
use harness_core.Base.{String}

pub data Action : Type 0 where
  allow ask deny : Action
  unknown : String → Action

pub record Decision : Type 0 where
  pub action : Action
  pub reason : String
  pub matched_rule : String
