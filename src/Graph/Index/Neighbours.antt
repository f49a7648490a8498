-- ===== src/Graph/Index/Neighbours.antt =====
-- The ids next to an id, which GraphIndex.islands follows: those that an edge links it with.
use whiteboard_ai.Base.{
  ℕ, ◌≡◌, ◌⊎◌, inl, inr, refl, sym, subst, ◌∙◌, true, false, not, [], map, filter, arith, includes,
  Memᴰ, includes-map, includes-filter, mapped, Mem-filter, filtered, Bool-cases, if◌then◌else◌,
  ◌==◌, ==_iff,
}
use whiteboard_ai.Base.Memᴰ
use whiteboard_ai.Graph.{DesignGraph, GraphEdge}
use whiteboard_ai.Graph.Index.{neighbours, touching, out, in_, has_node, other_end}
use whiteboard_ai.Graph.Index.Reachable.{Mem-out}

Mem-in :
    (g : DesignGraph) (u : ℕ) (e : GraphEdge)
    → Memᴰ e (in_ g u)
    → Memᴰ e g.edges × (e.to ≡ u) × (has_node g u ≡ true)
unfolding in_
Mem-in g u e m = elim (Bool-cases (has_node g u)) [
  | inl t ↦
      let (k, same) =
        filtered (λ d. d.to == u) e g.edges
          (subst (λ b. Memᴰ e (if b then filter (λ d. d.to == u) g.edges else [])) t m) in
      (k, (==_iff _ _).0 same, t)
  | inr f ↦ elim (subst (λ b. Memᴰ e (if b then filter (λ d. d.to == u) g.edges else [])) f m) [ ]
]

-- An edge joins both nodes, in either direction.
pub record Linked (g : DesignGraph) (u v : ℕ) : Type 0 where
  pub edge : GraphEdge
  pub drawn : Memᴰ edge g.edges
  pub first_known : has_node g u ≡ true
  pub second_known : has_node g v ≡ true
  pub ends : ((edge.from ≡ u) × (edge.to ≡ v)) ⊎ ((edge.to ≡ u) × (edge.from ≡ v))

pub Linked-flip : (g : DesignGraph) (u v : ℕ) → Linked g u v → Linked g v u
Linked-flip g u v h = record {
  edge = h.edge;
  drawn = h.drawn;
  first_known = h.second_known;
  second_known = h.first_known;
  ends = elim h.ends [ inl (a, b) ↦ inr (b, a) | inr (a, b) ↦ inl (b, a) ];
}

other_end-from : (e : GraphEdge) (u : ℕ) → e.from ≡ u → other_end e u ≡ e.to
other_end-from e u h = ground arith

other_end-to :
    (e : GraphEdge) (u : ℕ) → e.to ≡ u → (e.from == e.to) ≡ false → other_end e u ≡ e.from
other_end-to e u h n = ground arith

Mem-of_out :
    (g : DesignGraph) (u : ℕ) (e : GraphEdge)
    → Memᴰ e g.edges
    → e.from ≡ u
    → has_node g u ≡ true
    → Memᴰ e (out g u)
unfolding out
Mem-of_out g u e m h k = rw k (Mem-filter (λ d. d.from == u) e g.edges m ((==_iff _ _).1 h))

Mem-of_in :
    (g : DesignGraph) (u : ℕ) (e : GraphEdge)
    → Memᴰ e g.edges
    → e.to ≡ u
    → has_node g u ≡ true
    → Memᴰ e (in_ g u)
unfolding in_
Mem-of_in g u e m h k = rw k (Mem-filter (λ d. d.to == u) e g.edges m ((==_iff _ _).1 h))

module _ (g : DesignGraph) (u v : ℕ) where
  pub touching-Linked :
      (e : GraphEdge)
      → Memᴰ e (touching g u)
      → other_end e u ≡ v
      → has_node g v ≡ true
      → (l : Linked g u v) × (l.edge ≡ e)
  unfolding touching
  touching-Linked e k same known = elim (Memᴰ.append_cases (out g u) k) [
    | inl o ↦
        let (drawn, source, at) = Mem-out g u e o in
        (
          record {
            edge = e;
            drawn = drawn;
            first_known = at;
            second_known = known;
            ends = inl (source, sym (other_end-from e u source) ∙ same);
          },
          refl,
        )
    | inr i ↦
        let (j, proper) = filtered (λ e. not (e.from == e.to)) e (in_ g u) i in
        let (drawn, goal, at) = Mem-in g u e j in
        (
          record {
            edge = e;
            drawn = drawn;
            first_known = at;
            second_known = known;
            ends = inr (goal, sym (other_end-to e u goal (ground arith)) ∙ same);
          },
          refl,
        )
  ]

  pub neighbour-Linked : includes v (neighbours g u) ≡ true → Linked g u v
  unfolding neighbours
  neighbour-Linked m =
      let both = includes-filter (has_node g) v (map (λ e. other_end e u) (touching g u)) in
      let (e, k, same) = mapped (λ e. other_end e u) v (touching g u) (ground arith) in
      (touching-Linked e k same (ground arith)).0

  pub Mem-touching : (h : Linked g u v) → Memᴰ h.edge (touching g u) × (other_end h.edge u ≡ v)
  unfolding touching
  Mem-touching h = elim h.ends [
    | inl (a, b) ↦ (
      Memᴰ.append_left _ (Mem-of_out g u h.edge h.drawn a h.first_known),
      other_end-from h.edge u a ∙ b,
    )
    | inr (a, b) ↦ elim (Bool-cases (h.edge.from == h.edge.to)) [
      | inl t ↦
          let source = (==_iff _ _).0 t ∙ a in
          (
            Memᴰ.append_left _ (Mem-of_out g u h.edge h.drawn source h.first_known),
            other_end-from h.edge u source ∙ sym ((==_iff _ _).0 t) ∙ b,
          )
      | inr n ↦ (
        Memᴰ.append_right (out g u) (
            Mem-filter _ h.edge (in_ g u) (Mem-of_in g u h.edge h.drawn a h.first_known)
              (ground arith)),
        other_end-to h.edge u a n ∙ b,
      )
    ]
  ]

  pub Linked-neighbour : Linked g u v → includes v (neighbours g u) ≡ true
  unfolding neighbours
  Linked-neighbour h =
      let both = includes-filter (has_node g) v (map (λ e. other_end e u) (touching g u)) in
      let l = h.second_known in
      let (m, same) = Mem-touching h in
      let k = includes-map (λ e. other_end e u) h.edge (touching g u) m in
      let j = subst (λ x. includes x (map (λ e. other_end e u) (touching g u)) ≡ true) same k in
      ground arith
