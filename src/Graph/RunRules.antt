-- ===== src/Graph/RunRules.antt =====
-- runRules and checkDesign of packages/graph/src/engine.ts. A rule that throws returns its message.
pub mod Isolation
use whiteboard_ai.Base.{
  ℕ, zero, suc, min, Bool, true, false, ◌⊎◌, inl, inr, Option, none, some, List, [], ◌∷◌, ◌++◌,
  if◌then◌else◌, ◌==◌, ltb, get_or_else, or_option, sort,
}
use whiteboard_ai.Graph.{DesignGraph, Severity, critical, warning, info, Finding, Texts}
use whiteboard_ai.Graph.Board.{RawShape}
use whiteboard_ai.Graph.Extract.{extract_graph}
use whiteboard_ai.Graph.Index.{position}

pub record CheckOptions : Type 0 where
  pub max_sync_depth : ℕ

pub record Rule : Type 0 where
  pub id : ℕ
  pub check : DesignGraph → CheckOptions → List Finding ⊎ ℕ

pub record RuleError : Type 0 where
  pub rule_id : ℕ
  pub message : ℕ

pub record RuleResults : Type 0 where
  pub findings : List Finding
  pub rule_errors : List RuleError

-- `findings.set(f.id, f)`: a finding that is there keeps its place.
unfoldable pub set_finding : Finding → List Finding → List Finding
set_finding f [] = f ∷ []
set_finding f (x ∷ xs) = if x.id == f.id then f ∷ xs else x ∷ set_finding f xs

unfoldable pub set_findings : List Finding → List Finding → List Finding
set_findings [] all = all
set_findings (f ∷ fs) all = set_findings fs (set_finding f all)

abbrev pub record_result : ℕ → RuleResults → List Finding ⊎ ℕ → RuleResults
record_result rule r (inl fs) = record r { findings = set_findings fs r.findings }
record_result rule r (inr message) = record r {
  rule_errors = r.rule_errors ++ record { rule_id = rule; message = message } ∷ [];
}

-- The `for` loop.
unfoldable pub run_all : DesignGraph → CheckOptions → List Rule → RuleResults → RuleResults
run_all g options [] r = r
run_all g options (rule ∷ rules) r =
    run_all g options rules (record_result rule.id r (rule.check g options))

abbrev pub severity_rank : Severity → ℕ
severity_rank critical = 0
severity_rank warning = 1
severity_rank info = 2

-- `ruleOrder.get(id)`: the last place of the id
abbrev pub order_in : ℕ → ℕ → List Rule → Option ℕ
order_in v i [] = none
order_in v i (rule ∷ rules) =
    or_option (order_in v (suc i) rules) (if rule.id == v then some i else none)

abbrev pub rule_order : List Rule → Finding → ℕ
rule_order rules f = get_or_else (order_in f.rule_id 0 rules) 0

-- `Math.min(...)`, with a number above all positions for that of none
abbrev pub min_position : DesignGraph → List ℕ → ℕ
min_position g [] = 9007199254740992
min_position g (v ∷ vs) = min (position g v) (min_position g vs)

-- Compares by a key first.
abbrev pub by_key : (Finding → ℕ) → (Finding → Finding → Bool) → Finding → Finding → Bool
by_key key next a b =
    if ltb (key a) (key b) then true else if ltb (key b) (key a) then false else next a b

unfoldable pub finding_before : DesignGraph → List Rule → Finding → Finding → Bool
finding_before g rules =
    by_key (λ f. severity_rank f.severity)
      (by_key (rule_order rules) (by_key (λ f. min_position g f.shape_ids) (λ a b. ltb a.id b.id)))

unfoldable pub run_rules : DesignGraph → List Rule → CheckOptions → RuleResults
run_rules g rules options =
    let r = run_all g options rules (record { findings = []; rule_errors = [] }) in
    record r { findings = sort (finding_before g rules) r.findings }

unfoldable pub check_design :
    Texts → List RawShape → List Rule → CheckOptions → DesignGraph × RuleResults
check_design texts raws rules options =
    let g = extract_graph texts raws in (g, run_rules g rules options)
