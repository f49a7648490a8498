-- ===== src/Graph/Extract/Edges.antt =====
-- The edges of an extracted graph join its nodes.
use whiteboard_ai.Base.{
  ℕ, ◌≡◌, ◌⊎◌, inl, inr, refl, sym, ap, subst, Bool, true, false, ◌&&◌, not, Option, none, some,
  List, [], ◌∷◌, map, find, is_empty, length, arith, includes, Memᴰ, filtered, Bool-cases,
  Option-cases, All, All-append, All-map_Mem, find-eq-some, ◌==◌, ==_iff,
}
use whiteboard_ai.Graph.{GraphEdge, IgnoredReason, IgnoredShape, Texts}
use whiteboard_ai.Graph.Board.{
  ArrowShape, SystemShape, PlainType, ShapeBody, plain, system, arrow, Shape, RawShape, is_system,
  components, group_members, read_all,
}
use whiteboard_ai.Graph.Index.{has_node}
use whiteboard_ai.Graph.Nodes.{to_node, nodes_from, to_nodes}
use whiteboard_ai.Graph.Extract.{
  ResolvedEnd, is_dangling, by_group, resolved, unresolved, resolve_end, part_pairs, all_pairs,
  pairs_of, edge_of, arrow_edges, add_arrow, add_shape, add_shapes, extract_graph,
}

pub ShapeBody-cases :
    (b : ShapeBody)
    → ((c : SystemShape) × (b ≡ system c))
      ⊎ (((a : ArrowShape) × (b ≡ arrow a)) ⊎ ((t : PlainType) × (b ≡ plain t)))
ShapeBody-cases (system c) = inl (c, refl)
ShapeBody-cases (arrow a) = inr (inl (a, refl))
ShapeBody-cases (plain t) = inr (inr (t, refl))

system-body :
    (b : ShapeBody)
    → elim b [ system c ↦ true | plain t ↦ false | arrow a ↦ false ] ≡ true
    → (c : SystemShape) × (b ≡ system c)
system-body (system c) e = (c, refl)
system-body (arrow a) e = absurd (ground arith)
system-body (plain t) e = absurd (ground arith)

-- Both ends of the pairs satisfy what the ids do.
module _ (P : ℕ → Type 0) where
  abbrev Both : ℕ × ℕ → Type 0
  Both (a, b) = P a × P b

  All-part_pairs :
      (v : ℕ) (ids : List ℕ) (d : Bool) → P v → All P ids → All Both (part_pairs v ids d)
  unfolding part_pairs
  All-part_pairs v [] d p h = tt
  All-part_pairs v (x ∷ xs) d p h = elim (Bool-cases (v == x && not d)) [
    | inl t ↦ rw t (All-part_pairs v xs d p h.1)
    | inr t ↦ rw t ((p, h.0), All-part_pairs v xs d p h.1)
  ]

  All-all_pairs :
      (sources targets : List ℕ) (d : Bool)
      → All P sources
      → All P targets
      → All Both (all_pairs sources targets d)
  unfolding all_pairs
  All-all_pairs [] targets d h k = tt
  All-all_pairs (x ∷ xs) targets d h k =
      All-append Both _ _ (All-part_pairs x targets d h.0 k) (All-all_pairs xs targets d h.1 k)

  abbrev AllEnd : ResolvedEnd → Type 0
  AllEnd (resolved ids direct) = All P ids
  AllEnd (unresolved why) = Unit

  abbrev AllPairs : List (ℕ × ℕ) ⊎ IgnoredReason → Type 0
  AllPairs (inl pairs) = All Both pairs
  AllPairs (inr why) = Unit

  pairs_of-Both : (from to : ResolvedEnd) → AllEnd from → AllEnd to → AllPairs (pairs_of from to)
  unfolding pairs_of
  pairs_of-Both (resolved sources d) (resolved targets k) h j =
      elim (Bool-cases (is_empty (all_pairs sources targets (d && k)))) [
        | inl t ↦ rw t tt
        | inr t ↦ rw t (All-all_pairs sources targets (d && k) h j)
      ]
  pairs_of-Both (resolved sources d) (unresolved why) h j =
      elim (Bool-cases (is_dangling (unresolved why))) [ inl t ↦ rw t tt | inr t ↦ rw t tt ]
  pairs_of-Both (unresolved why) to h j = elim (Bool-cases (is_dangling (unresolved why))) [
    | inl t ↦ rw t tt
    | inr t ↦ elim (Bool-cases (is_dangling to)) [ inl k ↦ rw (t, k) tt | inr k ↦ rw (t, k) tt ]
  ]

module _ (texts : Texts) (shapes : List Shape) where
  abbrev pub node_ids : List ℕ
  node_ids = map (λ n. n.id) (to_nodes texts shapes)

  abbrev pub IsNode : ℕ → Type 0
  IsNode v = includes v node_ids ≡ true

  pub system-IsNode :
      (xs : List Shape) (s : Shape) (c : SystemShape)
      → Memᴰ s xs
      → s.body ≡ system c
      → includes s.id (map (λ n. n.id) (nodes_from texts shapes xs)) ≡ true
  unfolding nodes_from to_node
  system-IsNode [] s c m e = elim m [ ]
  system-IsNode (x ∷ xs) s c (Memᴰ.head k) e =
      let same : (x.id == s.id) ≡ true = (==_iff _ _).1 (ap (λ y. y.id) (sym k)) in
      let body : x.body ≡ system c = subst (λ y. y.body ≡ system c) k e in rw body (ground arith)
  system-IsNode (x ∷ xs) s c (Memᴰ.tail m) e =
      let rest = system-IsNode xs s c m e in
      elim (ShapeBody-cases x.body) [
        | inl (d, k) ↦ rw k (ground arith)
        | inr (inl (a, k)) ↦ rw k rest
        | inr (inr (t, k)) ↦ rw k rest
      ]

  component-IsNode : (s : Shape) → Memᴰ s shapes → is_system s ≡ true → IsNode s.id
  component-IsNode s m e = let (c, k) = system-body s.body e in system-IsNode shapes s c m k

  group_members-IsNode : (group : ℕ) → All IsNode (group_members shapes group)
  unfolding group_members components
  group_members-IsNode group =
      All-map_Mem IsNode (λ s. s.id) _
        (λ s m.
          let (k, e) = filtered _ s _ m in
          let (j, d) = filtered is_system s shapes k in component-IsNode s j d)

  by_group-IsNode : (s : Shape) → AllEnd IsNode (by_group shapes s)
  by_group-IsNode s = elim (Option-cases s.group_id) [
    | inl none_found ↦ rw (none_found, AllEnd) tt
    | inr (group, found) ↦ elim (Bool-cases (is_empty (group_members shapes group))) [
      | inl t ↦ rw (found, t, AllEnd) tt
      | inr t ↦ rw (found, t, AllEnd) (group_members-IsNode group)
    ]
  ]

  resolve_end-IsNode : (end : Option ℕ) → AllEnd IsNode (resolve_end end shapes)
  unfolding resolve_end
  resolve_end-IsNode none = tt
  resolve_end-IsNode (some v) = elim (Option-cases (find (λ s. s.id == v) shapes)) [
    | inl none_found ↦ rw (none_found, AllEnd) tt
    | inr (s, found) ↦
        let (m, e) = find-eq-some (λ s. s.id == v) shapes found in
        elim (ShapeBody-cases s.body) [
          | inl (c, k) ↦ rw (found, k, AllEnd) (system-IsNode shapes s c m k, tt)
          | inr (inl (a, k)) ↦ rw (found, k, AllEnd) tt
          | inr (inr (t, k)) ↦ rw (found, k, AllEnd) (by_group-IsNode s)
        ]
  ]

  -- Both ends of the edge are nodes.
  abbrev pub JoinsNodes : GraphEdge → Type 0
  JoinsNodes e = IsNode e.from × IsNode e.to

  AllEdges : List GraphEdge ⊎ IgnoredReason → Type 0
  AllEdges (inl edges) = All JoinsNodes edges
  AllEdges (inr why) = Unit

  edges-JoinsNodes :
      (v : ℕ) (a : ArrowShape) (single : Bool) (pairs : List (ℕ × ℕ))
      → All (Both IsNode) pairs
      → All JoinsNodes (map (edge_of texts v a single) pairs)
  edges-JoinsNodes v a single [] h = tt
  edges-JoinsNodes v a single (p ∷ pairs) h = (h.0, edges-JoinsNodes v a single pairs h.1)

  edges_of-JoinsNodes :
      (v : ℕ) (a : ArrowShape) (r : List (ℕ × ℕ) ⊎ IgnoredReason)
      → AllPairs IsNode r
      → AllEdges (elim r [
        | inl pairs ↦ inl (map (edge_of texts v a (length pairs == 1)) pairs)
        | inr why ↦ inr why
      ])
  unfolding AllEdges
  edges_of-JoinsNodes v a (inl pairs) h = edges-JoinsNodes v a _ pairs h
  edges_of-JoinsNodes v a (inr why) h = tt

  arrow_edges-JoinsNodes : (v : ℕ) (a : ArrowShape) → AllEdges (arrow_edges texts v a shapes)
  unfolding arrow_edges
  arrow_edges-JoinsNodes v a = edges_of-JoinsNodes v a _ (
      pairs_of-Both IsNode _ _ (resolve_end-IsNode a.from_shape_id)
        (resolve_end-IsNode a.to_shape_id))

  joined :
      (edges : List GraphEdge) (ignored : List IgnoredShape) (s : Shape)
      (r : List GraphEdge ⊎ IgnoredReason)
      → AllEdges r
      → All JoinsNodes edges
      → All JoinsNodes (add_arrow edges ignored s r).0
  unfolding AllEdges
  joined edges ignored s (inl more) h k = All-append JoinsNodes edges more k h
  joined edges ignored s (inr why) h k = k

  add_shape-JoinsNodes :
      (acc : List GraphEdge × List IgnoredShape) (s : Shape)
      → All JoinsNodes acc.0
      → All JoinsNodes (add_shape texts shapes acc s).0
  unfolding add_shape
  add_shape-JoinsNodes (edges, ignored) s h = elim (ShapeBody-cases s.body) [
    | inl (c, k) ↦ rw k h
    | inr (inl (a, k)) ↦
        rw k
          (joined edges ignored (record s { body = arrow a }) _ (arrow_edges-JoinsNodes s.id a) h)
    | inr (inr (t, k)) ↦ rw k h
  ]

  add_shapes-JoinsNodes :
      (acc : List GraphEdge × List IgnoredShape) (xs : List Shape)
      → All JoinsNodes acc.0
      → All JoinsNodes (add_shapes texts shapes acc xs).0
  unfolding add_shapes
  add_shapes-JoinsNodes acc [] h = h
  add_shapes-JoinsNodes acc (s ∷ rest) h =
      add_shapes-JoinsNodes (add_shape texts shapes acc s) rest (add_shape-JoinsNodes acc s h)

-- Every edge of an extracted graph joins two of its nodes.
pub extracted_edges_join :
    (texts : Texts) (raws : List RawShape)
    → let g = extract_graph texts raws in
      All (λ e. (has_node g e.from ≡ true) × (has_node g e.to ≡ true)) g.edges
unfolding extract_graph
extracted_edges_join texts raws =
    let r = read_all (record { valid = []; ignored = [] }) raws in
    add_shapes-JoinsNodes texts r.valid ([], r.ignored) r.valid tt
