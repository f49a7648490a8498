-- ===== src/Graph/Rules/ClientDirectDb.antt =====
-- packages/graph/src/rules/clientDirectDb.ts: a client that is connected to a database.
use whiteboard_ai.Base.{ℕ, ◌&&◌, Option, none, some, List, [], ◌∷◌, ◌++◌, map, if◌then◌else◌, ◌==◌}
use whiteboard_ai.Graph.{
  DesignGraph, GraphNode, GraphEdge, ComponentKind, client, database, is_kind, critical, Finding,
  Texts,
}
use whiteboard_ai.Graph.Index.{node}
use whiteboard_ai.Graph.Rule.{make_finding, client_direct_db}

pub record Pair : Type 0 where
  pub client_id : ℕ
  pub db_id : ℕ
  pub arrows : List ℕ

-- The arrow is added to its pair, which is new the first time.
unfoldable pub add_arrow_to : ℕ → ℕ → ℕ → List Pair → List Pair
add_arrow_to c d arrow [] = record { client_id = c; db_id = d; arrows = arrow ∷ [] } ∷ []
add_arrow_to c d arrow (p ∷ ps) =
    if p.client_id == c && p.db_id == d
    then record p { arrows = p.arrows ++ arrow ∷ [] } ∷ ps
    else p ∷ add_arrow_to c d arrow ps

-- The first of two nodes that is of the kind.
abbrev one_of_kind : ComponentKind → GraphNode → GraphNode → Option GraphNode
one_of_kind kind a b =
    if is_kind a.kind kind then some a else if is_kind b.kind kind then some b else none

unfoldable pub add_edge_to : DesignGraph → List Pair → GraphEdge → List Pair
add_edge_to g pairs e = elim (node g e.from) [
  | none ↦ pairs
  | some a ↦ elim (node g e.to) [
    | none ↦ pairs
    | some b ↦ elim (one_of_kind client a b) [
      | none ↦ pairs
      | some c ↦ elim (one_of_kind database a b) [
        | none ↦ pairs
        | some d ↦ add_arrow_to c.id d.id e.arrow_id pairs
      ]
    ]
  ]
]

unfoldable pub pairs_from : DesignGraph → List Pair → List GraphEdge → List Pair
pairs_from g pairs [] = pairs
pairs_from g pairs (e ∷ edges) = pairs_from g (add_edge_to g pairs e) edges

unfoldable pub client_direct_db_rule : Texts → DesignGraph → List Finding
client_direct_db_rule texts g =
    map (λ p. make_finding texts client_direct_db critical (p.client_id ∷ p.db_id ∷ p.arrows))
      (pairs_from g [] g.edges)
