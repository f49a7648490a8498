-- ===== src/Graph/Index/Reachable.antt =====
-- What GraphIndex.reachable returns: the ends of the routes along the edges that may be used.
use whiteboard_ai.Base.{
  ℕ, ◌+◌, ◌≡◌, ◌↔◌, inl, inr, refl, sym, subst, Bool, true, List, [], map, filter, length, arith,
  includes, Memᴰ, includes-map, mapped, Mem-filter, filtered, Bool-cases, unseen-le, length-reverse,
  length-map, if◌then◌else◌, ◌==◌, ==_iff,
}
use whiteboard_ai.Graph.{DesignGraph, GraphEdge}
use whiteboard_ai.Graph.Search.{search, begin_search}
use whiteboard_ai.Graph.Search.Ends.{search_ends}
use whiteboard_ai.Graph.Search.Correct.{Walk, here, step, search_lem}
use whiteboard_ai.Graph.Index.{reachable, targets, out, has_node}

pub Mem-out :
    (g : DesignGraph) (u : ℕ) (e : GraphEdge)
    → Memᴰ e (out g u)
    → Memᴰ e g.edges × (e.from ≡ u) × (has_node g u ≡ true)
unfolding out
Mem-out g u e m = elim (Bool-cases (has_node g u)) [
  | inl t ↦
      let (k, same) =
        filtered (λ d. d.from == u) e g.edges
          (subst (λ b. Memᴰ e (if b then filter (λ d. d.from == u) g.edges else [])) t m) in
      (k, (==_iff _ _).0 same, t)
  | inr f ↦ elim (subst (λ b. Memᴰ e (if b then filter (λ d. d.from == u) g.edges else [])) f m) [ ]
]

-- The routes along edges that may be used.
pub data Route (g : DesignGraph) (use_edge : GraphEdge → Bool) : ℕ → ℕ → Type 0 where
  arrived : {u : ℕ} → Route g use_edge u u
  along :
      {s : ℕ} (e : GraphEdge)
      → Route g use_edge s e.from
      → has_node g e.from ≡ true
      → Memᴰ e g.edges
      → use_edge e ≡ true
      → Route g use_edge s e.to

module _ (g : DesignGraph) (use_edge : GraphEdge → Bool) where
  target :
      (u v : ℕ)
      → includes v (targets g use_edge u) ≡ true
      → (e : GraphEdge) × Memᴰ e g.edges
        × (e.from ≡ u)
        × (has_node g u ≡ true)
        × (use_edge e ≡ true)
        × (e.to ≡ v)
  unfolding targets
  target u v m =
      let (e, k, same) = mapped (λ d. d.to) v (filter use_edge (out g u)) m in
      let (at, used) = filtered use_edge e (out g u) k in
      let (edge, source, known) = Mem-out g u e at in (e, edge, source, known, used, same)

  targets-Mem :
      (e : GraphEdge)
      → has_node g e.from ≡ true
      → Memᴰ e g.edges
      → use_edge e ≡ true
      → includes e.to (targets g use_edge e.from) ≡ true
  unfolding targets out
  targets-Mem e known edge used =
      let same = (==_iff e.from e.from).1 refl in
      rw known (
        includes-map (λ d. d.to) e _
          (Mem-filter use_edge e _ (Mem-filter (λ d. d.from == e.from) e g.edges edge same) used))

  route : {s v : ℕ} → Walk (targets g use_edge) s v → Route g use_edge s v
  route here = arrived
  route (step {s = s} {u = u} {v = v} walk next) =
      let (e, edge, source, known, used, same) = target u v next in
      let before = subst (λ x. Route g use_edge s x) (sym source) (route walk) in
      subst (λ x. Route g use_edge s x) same
        (along e before (subst (λ x. has_node g x ≡ true) (sym source) known) edge used)

  walk : {s v : ℕ} → Route g use_edge s v → Walk (targets g use_edge) s v
  walk arrived = here
  walk (along e before known edge used) = step (walk before) (targets-Mem e known edge used)

  reachable_ends :
      (starts : List ℕ)
      → (search
          (targets g use_edge)
          (length starts + length g.edges)
          (begin_search [] starts)).stack
        ≡ []
  reachable_ends starts =
      search_ends (map (λ e. e.to) g.edges) (targets g use_edge) _ _
        (λ u v m.
          let (e, edge, source, known, used, same) = target u v m in
          subst (λ x. includes x (map (λ e. e.to) g.edges) ≡ true) same
            (includes-map (λ e. e.to) e g.edges edge))
        (omega (
          arith,
          length-reverse starts,
          unseen-le (map (λ e. e.to) g.edges) starts,
          length-map (λ e. e.to) g.edges,
        ))

  -- The loop of `reachable` ends, and an id is in the result exactly if a route along the edges that
  -- may be used leads to it from one of the starts.
  pub reachable_lem :
      (starts : List ℕ) (v : ℕ)
      → ((search
            (targets g use_edge)
            (length starts + length g.edges)
            (begin_search [] starts)).stack
          ≡ [])
        × ((includes v (reachable g starts use_edge) ≡ true)
            ↔ ((s : ℕ) × (includes s starts ≡ true) × Route g use_edge s v))
  unfolding reachable
  reachable_lem starts v =
      let end = reachable_ends starts in
      let all =
        search_lem (targets g use_edge) [] starts (λ u v o k. absurd (ground arith))
          (λ v o. absurd (ground arith)) _ v end in
      (
        end,
        (
          λ m. elim (all.0 m) [ inl o ↦ absurd (ground arith) | inr (s, k, w) ↦ (s, k, route w) ],
          λ found. all.1 (inr (found.0, found.1, walk found.2)),
        ),
      )
