-- ===== src/Permission/Evaluator.antt =====
-- pkg/harness/permission/evaluator.go and rules_evaluator.go: the policies that decide about a step.
-- `sprint` is `fmt.Sprint` on a value of the arguments; other evaluators are the embedding program's.
use harness_core.Base.{
  String, Bool, true, false, not, ◌&&◌, ◌||◌, ◌==◌, if◌then◌else◌, Option, none, some, List, [],
  ◌∷◌,
}
use harness_core.Base.Text.{concat}
use harness_core.Base.Strings.{trim_space, has_prefix, split, cut}
use harness_core.Base.Dict.{lookup}
use harness_core.Base.Result.{Result, ok}
use harness_core.Metadata.{Value, Metadata, text_of}
use harness_core.Session.State.{State}
use harness_core.Plan.Spec.{StepSpec}
use harness_core.Permission.{Action, Decision, allow, ask, deny}

abbrev pub Evaluator : Type 0
Evaluator = State → StepSpec → Result Decision

pub record Rule : Type 0 where
  pub permission : String
  pub pattern : String
  pub action : Action

pub record RulesEvaluator : Type 0 where
  pub rules : List Rule
  pub fallback : Option Evaluator

-- DefaultEvaluator.Evaluate
unfoldable pub evaluate_default : Evaluator
evaluate_default state step =
    let name = step.action.tool_name in
    if name == ""
    then ok (record { action = deny; reason = "missing tool name"; matched_rule = "" })
    else if has_prefix name "windows."
    then ok (record {
      action = ask;
      reason = "windows executor is high risk by default";
      matched_rule = "default/windows/*";
    })
    else if name == "shell.exec"
    then if text_of (lookup "mode" step.action.args) == "pipe"
      then ok (record {
        action = allow;
        reason = "shell.exec in pipe mode allowed by default in v1";
        matched_rule = "default/shell.exec:pipe";
      })
      else ok (record {
        action = ask;
        reason = "non-pipe shell execution requires approval";
        matched_rule = "default/shell.exec:*";
      })
    else ok (record {
      action = allow;
      reason = "default allow for registered low-risk tools";
      matched_rule = "default/*";
    })

-- What a rule that applies decides.
abbrev pub decision_of_rule : Rule → Decision
decision_of_rule rule = record {
  action = rule.action;
  reason = concat "matched module default policy rule for " rule.permission;
  matched_rule = concat "module/" (concat rule.permission (concat ":" rule.pattern));
}

-- `if e.Fallback != nil { return e.Fallback.Evaluate(...) }`, and the decision without one.
abbrev pub answer_of : Option Evaluator → Decision → Evaluator
answer_of none decision state step = ok decision
answer_of (some evaluate) decision state step = evaluate state step

module _ (sprint : Value → String) where
  abbrev pub is_value : Option Value → String → Bool
  is_value none expected = false
  is_value (some actual) expected = sprint actual == expected

  abbrev pub matches_parts : Option (String × String) → Metadata → Bool
  matches_parts none args = false
  matches_parts (some parts) args = is_value (lookup (trim_space parts.0) args) (trim_space parts.1)

  -- A clause `name=value`; 61 is the code of `=`.
  unfoldable pub matches_clause : String → Metadata → Bool
  matches_clause clause args = matches_parts (cut 61 (trim_space clause)) args

  unfoldable pub matches_clauses : List String → Metadata → Bool
  unfolding matches_clause
  matches_clauses [] args = true
  matches_clauses (clause ∷ clauses) args =
      let rest = matches_clauses clauses args in if matches_clause clause args then rest else false

  -- matchesRulePattern; 44 is the code of a comma.
  unfoldable pub matches_rule_pattern : String → Metadata → Bool
  unfolding matches_clauses
  matches_rule_pattern pattern args =
      if trim_space pattern == "" || trim_space pattern == "*"
      then true
      else matches_clauses (split 44 (trim_space pattern)) args

  -- The loop over the rules; `rest` is what follows it.
  unfoldable pub evaluate_rules : List Rule → StepSpec → Result Decision → Result Decision
  unfolding matches_rule_pattern
  evaluate_rules [] step rest = rest
  evaluate_rules (rule ∷ rules) step rest =
      let next = evaluate_rules rules step rest in
      if not (rule.permission == step.action.tool_name)
      then next
      else if not (matches_rule_pattern rule.pattern step.action.args)
      then next
      else ok (decision_of_rule rule)

  -- RulesEvaluator.Evaluate
  unfoldable pub evaluate : RulesEvaluator → Evaluator
  unfolding evaluate_rules
  evaluate e state step =
      if step.action.tool_name == ""
      then answer_of e.fallback
          (record { action = deny; reason = "missing tool name"; matched_rule = "" }) state step
      else evaluate_rules e.rules step (
          answer_of e.fallback
            (record { action = allow; reason = "default allow"; matched_rule = "default/*" }) state
            step)

  -- A rule is about a step if it names its tool and every clause of its pattern is met.
  abbrev pub applies : StepSpec → Rule → Bool
  applies step rule =
      (rule.permission == step.action.tool_name)
      && matches_rule_pattern rule.pattern step.action.args
