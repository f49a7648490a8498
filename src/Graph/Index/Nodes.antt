-- ===== src/Graph/Index/Nodes.antt =====
-- The node of an id.
use whiteboard_ai.Base.{
  ℕ, ◌≡◌, inl, inr, sym, ap, ◌∙◌, true, none, some, List, [], ◌∷◌, map, arith, includes,
  Option-cases, Bool-cases, ◌==◌, ==_iff,
}
use whiteboard_ai.Graph.{DesignGraph, GraphNode}
use whiteboard_ai.Graph.Index.{node, node_in, has_node}

node_in-found :
    (v : ℕ) (ns : List GraphNode) (n : GraphNode)
    → node_in v ns ≡ some n
    → (n.id ≡ v) × (includes v (map (λ m. m.id) ns) ≡ true)
node_in-found v [] n e = cc
node_in-found v (x ∷ xs) n e = elim (Option-cases (node_in v xs)) [
  | inl none_found ↦ elim (Bool-cases (x.id == v)) [
    | inl t ↦
        let same : some x ≡ some n = ground arith in
        (ap (λ o. elim o [ none ↦ 0 | some m ↦ m.id ]) (sym same) ∙ (==_iff _ _).0 t, ground arith)
    | inr f ↦ absurd (ground arith)
  ]
  | inr (m, found) ↦
      let same : some m ≡ some n = ground arith in
      let (k, j) = node_in-found v xs n (found ∙ same) in (k, ground arith)
]

-- The node of an id has that id.
pub node-found :
    (g : DesignGraph) (v : ℕ) (n : GraphNode)
    → node g v ≡ some n
    → (n.id ≡ v) × (has_node g v ≡ true)
unfolding node
node-found g v n e = node_in-found v g.nodes n e
