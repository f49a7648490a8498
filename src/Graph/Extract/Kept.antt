-- ===== src/Graph/Extract/Kept.antt =====
-- No shape of a board is lost when its graph is extracted.
use whiteboard_ai.Base.{
  ℕ, ◌≡◌, ◌⊎◌, inl, inr, refl, subst, Bool, true, false, ◌||◌, length, none, some, List, [], ◌∷◌,
  ◌++◌, map, ◌&&◌, is_empty, arith, includes, includes-map_append, Bool-cases, Option-cases, Memᴰ,
  Sub, All, All-map, ◌==◌, ==_iff,
}
use whiteboard_ai.Base.Memᴰ
use whiteboard_ai.Graph.{
  GraphEdge, IgnoredShape, IgnoredReason, not_a_component, duplicate_id, DesignGraph, Texts,
}
use whiteboard_ai.Graph.Board.{ArrowShape, arrow, Shape, RawShape, read_all, ignore}
use whiteboard_ai.Graph.Index.{has_node}
use whiteboard_ai.Graph.Extract.{
  ResolvedEnd, resolved, unresolved, is_dangling, all_pairs, pairs_of, edge_of, arrow_edges,
  add_arrow, add_shape, add_shapes, extract_graph,
}
use whiteboard_ai.Graph.Extract.Edges.{ShapeBody-cases, system-IsNode, node_ids}
use whiteboard_ai.Graph.Board.ReadShapes.{invalid_shape, read_all-IsRead}

abbrev IsFull : List (ℕ × ℕ) ⊎ IgnoredReason → Type 0
IsFull (inl pairs) = is_empty pairs ≡ false
IsFull (inr why) = Unit

pairs_of-IsFull : (from to : ResolvedEnd) → IsFull (pairs_of from to)
unfolding pairs_of
pairs_of-IsFull (resolved sources d) (resolved targets k) =
    elim (Bool-cases (is_empty (all_pairs sources targets (d && k)))) [
      | inl t ↦ rw t tt
      | inr t ↦ rw t t
    ]
pairs_of-IsFull (resolved sources d) (unresolved why) =
    elim (Bool-cases (is_dangling (unresolved why))) [ inl t ↦ rw t tt | inr t ↦ rw t tt ]
pairs_of-IsFull (unresolved why) to =
    elim (Bool-cases (is_dangling (unresolved why) || is_dangling to)) [
      | inl t ↦ rw t tt
      | inr t ↦ rw t tt
    ]

add_arrow-ignored :
    (edges : List GraphEdge) (ignored : List IgnoredShape) (x : Shape)
    (r : List GraphEdge ⊎ IgnoredReason)
    → Sub ignored (add_arrow edges ignored x r).1
add_arrow-ignored edges ignored x (inl more) a m = m
add_arrow-ignored edges ignored x (inr why) a m = Memᴰ.append_left _ m

module _ (texts : Texts) (shapes : List Shape) where
  -- Where a valid shape is after the last loop.
  abbrev IsShown : List GraphEdge × List IgnoredShape → Shape → Type 0
  IsShown acc s =
      (includes s.id (node_ids texts shapes) ≡ true)
      ⊎ ((includes s.id (map (λ e. e.arrow_id) acc.0) ≡ true)
          ⊎ ((why : IgnoredReason) × Memᴰ (ignore s why) acc.1))

  first_edge :
      (v : ℕ) (a : ArrowShape) (single : Bool) (edges : List GraphEdge) (pairs : List (ℕ × ℕ))
      → is_empty pairs ≡ false
      → includes v (map (λ e. e.arrow_id) (edges ++ map (edge_of texts v a single) pairs)) ≡ true
  first_edge v a single [] [] h = absurd (ground arith)
  first_edge v a single [] (p ∷ pairs) h = let same = (==_iff v v).1 refl in ground arith
  first_edge v a single (e ∷ edges) pairs h =
      let rest = first_edge v a single edges pairs h in ground arith

  drawn :
      (edges : List GraphEdge) (ignored : List IgnoredShape) (s : Shape) (a : ArrowShape)
      (r : List (ℕ × ℕ) ⊎ IgnoredReason)
      → IsFull r
      → IsShown
          (add_arrow edges ignored s (elim r [
            | inl pairs ↦ inl (map (edge_of texts s.id a (length pairs == 1)) pairs)
            | inr why ↦ inr why
          ]))
          s
  drawn edges ignored s a (inl pairs) h = inr (inl (first_edge s.id a _ edges pairs h))
  drawn edges ignored s a (inr why) h = inr (inr (why, Memᴰ.append_right ignored (Memᴰ.head refl)))

  add_shape-IsShown :
      (acc : List GraphEdge × List IgnoredShape) (s : Shape)
      → Memᴰ s shapes
      → IsShown (add_shape texts shapes acc s) s
  unfolding add_shape arrow_edges
  add_shape-IsShown (edges, ignored) s m = elim (ShapeBody-cases s.body) [
    | inl (c, k) ↦ inl (system-IsNode texts shapes shapes s c m k)
    | inr (inl (a, k)) ↦
        rw k (drawn edges ignored (record s { body = arrow a }) a _ (pairs_of-IsFull _ _))
    | inr (inr (t, k)) ↦
        rw k (inr (inr (not_a_component, Memᴰ.append_right ignored (Memᴰ.head refl))))
  ]

  add_arrow-grow :
      (edges : List GraphEdge) (ignored : List IgnoredShape) (x s : Shape)
      (r : List GraphEdge ⊎ IgnoredReason)
      → IsShown (edges, ignored) s
      → IsShown (add_arrow edges ignored x r) s
  add_arrow-grow edges ignored x s r (inl n) = inl n
  add_arrow-grow edges ignored x s (inl more) (inr (inl e)) =
      inr (inl (let both = includes-map_append (λ e. e.arrow_id) s.id edges more in ground arith))
  add_arrow-grow edges ignored x s (inr why) (inr (inl e)) = inr (inl e)
  add_arrow-grow edges ignored x s r (inr (inr (why, m))) =
      inr (inr (why, add_arrow-ignored edges ignored x r _ m))

  add_shape-grow :
      (acc : List GraphEdge × List IgnoredShape) (x s : Shape)
      → IsShown acc s
      → IsShown (add_shape texts shapes acc x) s
  unfolding add_shape
  add_shape-grow (edges, ignored) x s h = elim (ShapeBody-cases x.body) [
    | inl (c, k) ↦ rw k h
    | inr (inl (a, k)) ↦ rw k (add_arrow-grow edges ignored (record x { body = arrow a }) s _ h)
    | inr (inr (t, k)) ↦ rw k (elim h [
      | inl n ↦ inl n
      | inr (inl e) ↦ inr (inl e)
      | inr (inr (why, m)) ↦ inr (inr (why, Memᴰ.append_left _ m))
    ])
  ]

  add_shapes-grow :
      (acc : List GraphEdge × List IgnoredShape) (xs : List Shape) (s : Shape)
      → IsShown acc s
      → IsShown (add_shapes texts shapes acc xs) s
  unfolding add_shapes
  add_shapes-grow acc [] s h = h
  add_shapes-grow acc (x ∷ xs) s h =
      add_shapes-grow (add_shape texts shapes acc x) xs s (add_shape-grow acc x s h)

  add_shapes-IsShown :
      (acc : List GraphEdge × List IgnoredShape) (xs : List Shape) (s : Shape)
      → Sub xs shapes
      → Memᴰ s xs
      → IsShown (add_shapes texts shapes acc xs) s
  unfolding add_shapes
  add_shapes-IsShown acc [] s sub m = elim m [ ]
  add_shapes-IsShown acc (x ∷ xs) s sub (Memᴰ.head k) =
      add_shapes-grow (add_shape texts shapes acc x) xs s (
        subst (λ y. IsShown (add_shape texts shapes acc y) s) k
          (add_shape-IsShown acc s (sub s (Memᴰ.head k))))
  add_shapes-IsShown acc (x ∷ xs) s sub (Memᴰ.tail m) =
      add_shapes-IsShown (add_shape texts shapes acc x) xs s (λ a n. sub a (Memᴰ.tail n)) m

  ignored-grow :
      (acc : List GraphEdge × List IgnoredShape) (xs : List Shape)
      → Sub acc.1 (add_shapes texts shapes acc xs).1
  unfolding add_shapes add_shape
  ignored-grow acc [] a m = m
  ignored-grow (edges, ignored) (x ∷ xs) a m =
      ignored-grow (add_shape texts shapes (edges, ignored) x) xs a (elim (ShapeBody-cases x.body) [
        | inl (c, k) ↦ rw k m
        | inr (inl (b, k)) ↦
            rw k (add_arrow-ignored edges ignored (record x { body = arrow b }) _ a m)
        | inr (inr (t, k)) ↦ rw k (Memᴰ.append_left _ m)
      ])

-- What became of a raw shape: a node, an arrow with edges, or a report.
abbrev pub IsAccounted : DesignGraph → RawShape → Type 0
IsAccounted g raw = elim raw.parsed [
  | none ↦ Memᴰ (invalid_shape raw) g.ignored
  | some s ↦
      (has_node g s.id ≡ true)
      ⊎ ((includes s.id (map (λ e. e.arrow_id) g.edges) ≡ true)
          ⊎ ((why : IgnoredReason) × Memᴰ (ignore s why) g.ignored))
]

-- Nothing is lost: every shape is a node of the extracted graph, an arrow with edges, or reported as
-- ignored with its own id and type, and what is no shape is reported as invalid.
pub nothing_is_lost :
    (texts : Texts) (raws : List RawShape) → All (IsAccounted (extract_graph texts raws)) raws
unfolding extract_graph
nothing_is_lost texts raws =
    let r = read_all (record { valid = []; ignored = [] }) raws in
    All-map _ _ raws
      (λ raw h. elim (Option-cases raw.parsed) [
        | inl e ↦
            rw (e, IsAccounted)
              (ignored-grow texts r.valid ([], r.ignored) r.valid _
                (subst
                  (λ p. elim p [
                    | none ↦ Memᴰ (invalid_shape raw) r.ignored
                    | some s ↦ Memᴰ s r.valid ⊎ Memᴰ (ignore s duplicate_id) r.ignored
                  ])
                  e h))
        | inr (s, e) ↦
            rw (e, IsAccounted)
              (elim (subst
                (λ p. elim p [
                  | none ↦ Memᴰ (invalid_shape raw) r.ignored
                  | some s ↦ Memᴰ s r.valid ⊎ Memᴰ (ignore s duplicate_id) r.ignored
                ])
                e h) [
                  | inl m ↦ add_shapes-IsShown texts r.valid ([], r.ignored) r.valid s (λ a n. n) m
                  | inr m ↦
                      inr
                        (inr (duplicate_id, ignored-grow texts r.valid ([], r.ignored) r.valid _ m))
                ])
      ])
      (read_all-IsRead _ raws)
