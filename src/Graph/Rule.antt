-- ===== src/Graph/Rule.antt =====
-- makeFinding of packages/graph/src/rule.ts, and the rules' identifiers.
pub mod Stable
use whiteboard_ai.Base.{
  ℕ, Bool, true, false, List, [], ◌∷◌, ◌++◌, Option, none, some, if◌then◌else◌, includes, ltb, sort,
}
use whiteboard_ai.Graph.{Finding, Severity, Texts}

-- `new Set(xs)`, after the items of `seen`
unfoldable pub unique_after : List ℕ → List ℕ → List ℕ
unique_after seen [] = seen
unique_after seen (x ∷ xs) = unique_after (if includes x seen then seen else seen ++ x ∷ []) xs

unfoldable pub make_finding : Texts → ℕ → Severity → List ℕ → Finding
make_finding texts rule severity shape_ids =
    let unique = unique_after [] shape_ids in
    record {
      id = texts.finding_id rule (sort ltb unique);
      rule_id = rule;
      severity = severity;
      shape_ids = unique;
    }

-- The numbers of the rules' ids.
abbrev pub client_direct_db : ℕ
client_direct_db = 1

abbrev pub db_spof : ℕ
db_spof = 2

abbrev pub disconnected : ℕ
disconnected = 3

abbrev pub no_load_balancer : ℕ
no_load_balancer = 4

abbrev pub queue_no_dlq : ℕ
queue_no_dlq = 5

abbrev pub read_path_no_cache : ℕ
read_path_no_cache = 6

abbrev pub storage_no_cdn : ℕ
storage_no_cdn = 7

-- Whether an optional value satisfies a test.
abbrev pub some_is {ℓ} : {A : Type ℓ} → (A → Bool) → Option A → Bool
some_is p none = false
some_is p (some a) = p a
