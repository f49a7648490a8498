-- ===== src/Graph/Rules/ReadPathNoCache.antt =====
-- packages/graph/src/rules/readPathNoCache.ts: reads that go to a database with no cache beside.
use whiteboard_ai.Base.{
  concat_map, Bool, not, ◌&&◌, none, some, List, [], ◌∷◌, map, any, filter, if◌then◌else◌,
}
use whiteboard_ai.Graph.{
  DesignGraph, GraphNode, GraphEdge, service, api_gateway, database, cache, is_kind, is_sync,
  warning, Finding, Texts,
}
use whiteboard_ai.Graph.Index.{touching, other, node, in_}
use whiteboard_ai.Graph.Rule.{make_finding, read_path_no_cache, some_is}

unfoldable pub is_read_heavy : Texts → DesignGraph → GraphEdge → GraphNode → GraphNode → Bool
is_read_heavy texts g e from to =
    let calls_in = filter (λ d. is_sync d.edge_type) (in_ g from.id) in
    any texts.reads (e.label ∷ from.label ∷ to.label ∷ map (λ d. d.label) calls_in)

unfoldable pub has_cache : DesignGraph → GraphNode → GraphNode → Bool
has_cache g from to =
    any (λ v. any (λ d. some_is (λ n. is_kind n.kind cache) (other g d v)) (touching g v))
      (from.id ∷ to.id ∷ [])

-- The rule's verdict on an edge between two nodes.
unfoldable pub check_path : Texts → DesignGraph → GraphEdge → GraphNode → GraphNode → List Finding
check_path texts g e from to =
    if not (is_kind to.kind database)
    then []
    else if not (is_kind from.kind service) && not (is_kind from.kind api_gateway)
    then []
    else if not (is_read_heavy texts g e from to)
    then []
    else if has_cache g from to
    then []
    else make_finding texts read_path_no_cache warning (from.id ∷ to.id ∷ e.arrow_id ∷ []) ∷ []

unfoldable pub check_edge : Texts → DesignGraph → GraphEdge → List Finding
check_edge texts g e = if not (is_sync e.edge_type) then [] else elim (node g e.from) [
  | none ↦ []
  | some from ↦ elim (node g e.to) [ none ↦ [] | some to ↦ check_path texts g e from to ]
]

unfoldable pub read_path_no_cache_rule : Texts → DesignGraph → List Finding
read_path_no_cache_rule texts g = concat_map (check_edge texts g) g.edges
