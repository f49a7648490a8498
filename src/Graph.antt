-- ===== src/Graph.antt =====
-- The architecture graph of a board, packages/graph/src/types.ts, and the checks on it. Ids and labels
-- are numbers in the order of the strings: the code compares them, or asks a regular expression.
pub mod Search
pub mod Index
pub mod Board
pub mod Nodes
pub mod Extract
pub mod Rule
pub mod Rules
pub mod RunRules
pub mod Tests
use whiteboard_ai.Base.{ℕ, Bool, true, false, Option, List, ◌==◌}

pub data ComponentKind : Type 0 where
  client cdn load_balancer api_gateway service database : ComponentKind
  cache queue object_storage search_index worker external_api : ComponentKind

-- Place in SYSTEM_SHAPE_TYPES
pub kind_index : ComponentKind → ℕ
kind_index client = 0
kind_index cdn = 1
kind_index load_balancer = 2
kind_index api_gateway = 3
kind_index service = 4
kind_index database = 5
kind_index cache = 6
kind_index queue = 7
kind_index object_storage = 8
kind_index search_index = 9
kind_index worker = 10
kind_index external_api = 11

pub data EdgeType : Type 0 where
  sync async replication : EdgeType

pub data Engine : Type 0 where
  sql nosql : Engine

pub data DbRole : Type 0 where
  primary replica : DbRole

pub data QueueMode : Type 0 where
  queue_mode stream_mode : QueueMode

pub record GraphNodeProps : Type 0 where
  pub unlabeled : Bool
  pub instances : ℕ
  pub group_id : Option ℕ
  pub engine : Option Engine
  pub role : Option DbRole
  pub mode : Option QueueMode

pub record GraphNode : Type 0 where
  pub id : ℕ
  pub kind : ComponentKind
  pub label : ℕ
  pub props : GraphNodeProps

pub record GraphEdge : Type 0 where
  pub id : ℕ
  pub arrow_id : ℕ
  pub from : ℕ
  pub to : ℕ
  pub edge_type : EdgeType
  pub label : ℕ

pub data IgnoredReason : Type 0 where
  not_a_component invalid duplicate_id dangling_arrow arrow_to_non_component : IgnoredReason

pub record IgnoredShape : Type 0 where
  pub shape_id : Option ℕ
  pub shape_type : Option ℕ
  pub reason : IgnoredReason

pub record DesignGraph : Type 0 where
  pub nodes : List GraphNode
  pub edges : List GraphEdge
  pub ignored : List IgnoredShape

-- `a === b` on kinds
unfoldable pub is_kind : ComponentKind → ComponentKind → Bool
is_kind a b = kind_index a == kind_index b

abbrev pub is_sync : EdgeType → Bool
is_sync sync = true
is_sync async = false
is_sync replication = false

abbrev pub is_replication : EdgeType → Bool
is_replication sync = false
is_replication async = false
is_replication replication = true

pub data Severity : Type 0 where
  critical warning info : Severity

-- The texts of a finding are left out.
pub record Finding : Type 0 where
  pub id : ℕ
  pub rule_id : ℕ
  pub severity : Severity
  pub shape_ids : List ℕ

-- What the numbers of the strings stand for, and what the regular expressions say of them.
pub record Texts : Type 0 where
  pub empty : ℕ
  pub trim : ℕ → ℕ
  -- COMPONENT_KIND_LABELS
  pub kind_label : ComponentKind → ℕ
  -- The number that a pattern of EXPLICIT_COUNT_PATTERNS finds.
  pub count_found : ℕ → ℕ → Option ℕ
  -- instanceLabelKey
  pub instance_key : ℕ → ℕ
  -- `#${id}`
  pub unlabeled_key : ℕ → ℕ
  -- `${arrow}:${source}->${target}`
  pub part_id : ℕ → ℕ → ℕ → ℕ
  -- `${rule}:${ids}`, of sorted ids
  pub finding_id : ℕ → List ℕ → ℕ
  -- The tests of keywords.ts
  pub reads : ℕ → Bool
  pub dead_letter : ℕ → Bool
  pub retry_edge : ℕ → Bool
  pub static_content : ℕ → Bool
