-- ===== src/Graph/Index.antt =====
-- GraphIndex of packages/graph/src/context.ts. Its maps are filled once from the graph, so that a
-- lookup is a function of the graph: the last node with an id, and the edges at a node in order.
pub mod Reachable
pub mod Nodes
pub mod Neighbours
pub mod Islands
use whiteboard_ai.Base.{
  ℕ, zero, suc, ◌+◌, Bool, true, false, not, ◌&&◌, ◌||◌, Option, none, some, List, [], ◌∷◌, ◌++◌,
  map, any, filter, length, is_none, if◌then◌else◌, ◌==◌, includes, or_option, get_or_else,
}
use whiteboard_ai.Graph.{DesignGraph, GraphNode, GraphEdge, ComponentKind, is_kind}
use whiteboard_ai.Graph.Search.{Search, search, begin_search}

abbrev node_in : ℕ → List GraphNode → Option GraphNode
node_in v [] = none
node_in v (n ∷ ns) = or_option (node_in v ns) (if n.id == v then some n else none)

unfoldable pub node : DesignGraph → ℕ → Option GraphNode
node g v = node_in v g.nodes

abbrev pub has_node : DesignGraph → ℕ → Bool
has_node g v = includes v (map (λ n. n.id) g.nodes)

abbrev position_in : ℕ → ℕ → List GraphNode → Option ℕ
position_in v i [] = none
position_in v i (n ∷ ns) = or_option (position_in v (suc i) ns) (if n.id == v then some i else none)

unfoldable pub position : DesignGraph → ℕ → ℕ
position g v = get_or_else (position_in v 0 g.nodes) 9007199254740991

unfoldable pub out : DesignGraph → ℕ → List GraphEdge
out g v = if has_node g v then filter (λ e. e.from == v) g.edges else []

unfoldable pub in_ : DesignGraph → ℕ → List GraphEdge
in_ g v = if has_node g v then filter (λ e. e.to == v) g.edges else []

-- A self-loop appears once.
unfoldable pub touching : DesignGraph → ℕ → List GraphEdge
touching g v = out g v ++ filter (λ e. not (e.from == e.to)) (in_ g v)

abbrev pub other_end : GraphEdge → ℕ → ℕ
other_end e v = if e.from == v then e.to else e.from

unfoldable pub other : DesignGraph → GraphEdge → ℕ → Option GraphNode
other g e v = node g (other_end e v)

unfoldable pub of_kind : DesignGraph → ComponentKind → List GraphNode
of_kind g k = filter (λ n. is_kind n.kind k) g.nodes

-- What `reachable` follows from `u`.
unfoldable pub targets : DesignGraph → (GraphEdge → Bool) → ℕ → List ℕ
targets g use_edge u = map (λ e. e.to) (filter use_edge (out g u))

unfoldable pub reachable : DesignGraph → List ℕ → (GraphEdge → Bool) → List ℕ
reachable g starts use_edge =
    (search (targets g use_edge) (length starts + length g.edges) (begin_search [] starts)).seen

-- What `islands` follows from `u`.
unfoldable pub neighbours : DesignGraph → ℕ → List ℕ
neighbours g u = filter (has_node g) (map (λ e. other_end e u) (touching g u))

unfoldable pub island_from : DesignGraph → List ℕ → ℕ → Search
island_from g seen start =
    search (neighbours g) (1 + length g.nodes) (begin_search seen (start ∷ []))

unfoldable pub islands_from : DesignGraph → List ℕ → List GraphNode → List (List ℕ)
islands_from g seen [] = []
islands_from g seen (n ∷ ns) = elim (includes n.id seen) [
  | true ↦ islands_from g seen ns
  | false ↦ let found = island_from g seen n.id in found.taken ∷ islands_from g found.seen ns
]

unfoldable pub islands : DesignGraph → List (List ℕ)
islands g = islands_from g [] g.nodes
