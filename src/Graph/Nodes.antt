-- ===== src/Graph/Nodes.antt =====
-- The nodes of an architecture graph: toNodes of packages/graph/src/extract.ts, and
-- explicitInstanceCount of instances.ts.
use whiteboard_ai.Base.{
  ℕ, zero, suc, max, Bool, false, ◌&&◌, Option, none, some, List, [], ◌∷◌, filter, length,
  if◌then◌else◌, ◌==◌, leb, get_or_else,
}
use whiteboard_ai.Graph.{is_kind, database, queue, GraphNode, GraphNodeProps, Texts}
use whiteboard_ai.Graph.Board.{SystemShape, plain, system, arrow, Shape, components}

module _ (texts : Texts) where
  -- The patterns from number `i` on, `n` of them.
  unfoldable pub count_by : ℕ → ℕ → ℕ → Option ℕ
  count_by i zero label = none
  count_by i (suc n) label =
      let rest = count_by (suc i) n label in
      elim (texts.count_found i label) [
        | none ↦ rest
        | some count ↦ if leb 1 count && leb count 10000 then some count else rest
      ]

  unfoldable pub explicit_instance_count : ℕ → Option ℕ
  explicit_instance_count label = count_by 0 3 label

  -- Whether two shapes have the same set key.
  abbrev in_set : SystemShape → Shape → Bool
  in_set c s = elim s.body [
    | system d ↦ is_kind c.kind d.kind && (texts.instance_key c.label == texts.instance_key d.label)
    | plain t ↦ false
    | arrow a ↦ false
  ]

  -- The size of the set of a component, or 1 where it has no key.
  unfoldable pub set_size : List Shape → SystemShape → ℕ
  set_size shapes c =
      if texts.instance_key c.label == texts.empty
      then 1
      else length (filter (in_set c) (components shapes))

  unfoldable pub node_props : List Shape → Option ℕ → SystemShape → GraphNodeProps
  node_props shapes group c =
      let label = texts.trim c.label in
      record {
        unlabeled = label == texts.empty;
        instances = max (set_size shapes c) (get_or_else (explicit_instance_count label) 1);
        group_id = group;
        engine = if is_kind c.kind database then c.engine else none;
        role = if is_kind c.kind database then c.role else none;
        mode = if is_kind c.kind queue then c.mode else none;
      }

  unfoldable pub to_node : List Shape → Shape → SystemShape → GraphNode
  to_node shapes s c =
      let label = texts.trim c.label in
      record {
        id = s.id;
        kind = c.kind;
        label = if label == texts.empty then texts.kind_label c.kind else label;
        props = node_props shapes s.group_id c;
      }

  unfoldable pub nodes_from : List Shape → List Shape → List GraphNode
  nodes_from shapes [] = []
  nodes_from shapes (s ∷ rest) = elim s.body [
    | system c ↦ to_node shapes s c ∷ nodes_from shapes rest
    | plain t ↦ nodes_from shapes rest
    | arrow a ↦ nodes_from shapes rest
  ]

  abbrev pub to_nodes : List Shape → List GraphNode
  to_nodes shapes = nodes_from shapes shapes
