-- ===== src/Graph/Extract.antt =====
-- From a board's shapes to its architecture graph: packages/graph/src/extract.ts.
pub mod Edges
pub mod Kept
use whiteboard_ai.Base.{
  ℕ, Bool, true, false, not, ◌&&◌, ◌||◌, ◌⊎◌, inl, inr, Option, none, some, List, [], ◌∷◌, ◌++◌,
  map, find, length, is_empty, if◌then◌else◌, ◌==◌,
}
use whiteboard_ai.Graph.{
  GraphEdge, IgnoredReason, not_a_component, invalid, duplicate_id, dangling_arrow,
  arrow_to_non_component, IgnoredShape, DesignGraph, Texts,
}
use whiteboard_ai.Graph.Board.{
  ArrowShape, plain, system, arrow, Shape, RawShape, Reading, ignore, read_all, group_members,
}
use whiteboard_ai.Graph.Nodes.{to_nodes}

pub data ResolvedEnd : Type 0 where
  resolved : List ℕ → Bool → ResolvedEnd
  unresolved : IgnoredReason → ResolvedEnd

abbrev pub by_group : List Shape → Shape → ResolvedEnd
by_group shapes target = elim target.group_id [
  | none ↦ unresolved arrow_to_non_component
  | some group ↦
      if is_empty (group_members shapes group)
      then unresolved arrow_to_non_component
      else resolved (group_members shapes group) false
]

unfoldable pub resolve_end : Option ℕ → List Shape → ResolvedEnd
resolve_end none shapes = unresolved dangling_arrow
resolve_end (some v) shapes = elim (find (λ s. s.id == v) shapes) [
  | none ↦ unresolved dangling_arrow
  | some target ↦ elim target.body [
    | system c ↦ resolved (target.id ∷ []) true
    | arrow a ↦ unresolved arrow_to_non_component
    | plain t ↦ by_group shapes target
  ]
]

unfoldable pub part_pairs : ℕ → List ℕ → Bool → List (ℕ × ℕ)
part_pairs source [] both_direct = []
part_pairs source (target ∷ targets) both_direct =
    let rest = part_pairs source targets both_direct in
    if source == target && not both_direct then rest else (source, target) ∷ rest

unfoldable pub all_pairs : List ℕ → List ℕ → Bool → List (ℕ × ℕ)
all_pairs [] targets both_direct = []
all_pairs (source ∷ sources) targets both_direct =
    part_pairs source targets both_direct ++ all_pairs sources targets both_direct

abbrev pub is_dangling : ResolvedEnd → Bool
is_dangling (resolved ids direct) = false
is_dangling (unresolved dangling_arrow) = true
is_dangling (unresolved not_a_component) = false
is_dangling (unresolved invalid) = false
is_dangling (unresolved duplicate_id) = false
is_dangling (unresolved arrow_to_non_component) = false

-- The pairs that an arrow between both ends joins.
unfoldable pub pairs_of : ResolvedEnd → ResolvedEnd → List (ℕ × ℕ) ⊎ IgnoredReason
pairs_of from to = if is_dangling from || is_dangling to then inr dangling_arrow else elim from [
  | unresolved why ↦ inr why
  | resolved sources direct ↦ elim to [
    | unresolved why ↦ inr why
    | resolved targets target_direct ↦
        let pairs = all_pairs sources targets (direct && target_direct) in
        if is_empty pairs then inr arrow_to_non_component else inl pairs
  ]
]

abbrev pub add_arrow :
    List GraphEdge
    → List IgnoredShape
    → Shape
    → List GraphEdge ⊎ IgnoredReason
    → List GraphEdge × List IgnoredShape
add_arrow edges ignored s (inl more) = (edges ++ more, ignored)
add_arrow edges ignored s (inr why) = (edges, ignored ++ ignore s why ∷ [])

module _ (texts : Texts) where
  abbrev pub edge_of : ℕ → ArrowShape → Bool → ℕ × ℕ → GraphEdge
  edge_of v a single (source, target) = record {
    id = if single then v else texts.part_id v source target;
    arrow_id = v;
    from = source;
    to = target;
    edge_type = a.edge_type;
    label = texts.trim a.label;
  }

  unfoldable pub arrow_edges : ℕ → ArrowShape → List Shape → List GraphEdge ⊎ IgnoredReason
  arrow_edges v a shapes =
      elim (pairs_of (resolve_end a.from_shape_id shapes) (resolve_end a.to_shape_id shapes)) [
        | inl pairs ↦ inl (map (edge_of v a (length pairs == 1)) pairs)
        | inr why ↦ inr why
      ]

  -- The last loop's body, on the edges and the ignored shapes.
  unfoldable pub add_shape :
      List Shape → List GraphEdge × List IgnoredShape → Shape → List GraphEdge × List IgnoredShape
  add_shape shapes (edges, ignored) s = elim s.body [
    | system c ↦ (edges, ignored)
    | plain t ↦ (edges, ignored ++ ignore s not_a_component ∷ [])
    | arrow a ↦ add_arrow edges ignored s (arrow_edges s.id a shapes)
  ]

  unfoldable pub add_shapes :
      List Shape
      → List GraphEdge × List IgnoredShape
      → List Shape
      → List GraphEdge × List IgnoredShape
  add_shapes shapes acc [] = acc
  add_shapes shapes acc (s ∷ rest) = add_shapes shapes (add_shape shapes acc s) rest

  unfoldable pub extract_graph : List RawShape → DesignGraph
  extract_graph raws =
      let r = read_all (record { valid = []; ignored = [] }) raws in
      let all = add_shapes r.valid ([], r.ignored) r.valid in
      record { nodes = to_nodes texts r.valid; edges = all.0; ignored = all.1 }
