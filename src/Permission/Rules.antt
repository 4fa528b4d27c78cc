-- ===== src/Permission/Rules.antt =====
-- Which rule decides about a step: pkg/harness/permission/rules_evaluator.go.
use harness_core.Base.{Option, none, some}
use harness_core.Base.Result.{Result, ok}
use harness_core.Session.State.{State}
use harness_core.Permission.{Decision}
use harness_core.Permission.Evaluator.{Rule, decision_of_rule}

-- What a rule that applies decides, or else the policy that is asked after the rules.
abbrev pub by_rule : Option Rule → Result Decision → Result Decision
by_rule none otherwise = otherwise
by_rule (some rule) otherwise = ok (decision_of_rule rule)
