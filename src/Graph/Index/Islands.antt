-- ===== src/Graph/Index/Islands.antt =====
-- GraphIndex.islands splits the nodes into the sets that the edges connect.
use whiteboard_ai.Base.{
  ℕ, ◌≡◌, ◌↔◌, inl, inr, refl, sym, ap, subst, true, false, ◌||◌, List, [], ◌∷◌, ◌++◌, map, arith,
  includes, Memᴰ, includes-filter, Bool-cases, unseen-le, length-map, All, All-map, All-mem, ◌==◌,
  ==_iff,
}
use whiteboard_ai.Graph.{DesignGraph, GraphNode}
use whiteboard_ai.Graph.Search.Ends.{search_ends}
use whiteboard_ai.Graph.Search.Correct.{
  Walk, here, step, search_lem, taken_lem, taken_sound, taken-fresh, seen-Shut,
}
use whiteboard_ai.Graph.Index.{
  neighbours, island_from, islands_from, islands, has_node, touching, other_end,
}
use whiteboard_ai.Graph.Index.Neighbours.{Linked, Linked-flip, neighbour-Linked, Linked-neighbour}

-- A way from one node to another along edges, in either direction.
pub data Chain (g : DesignGraph) : ℕ → ℕ → Type 0 where
  start : {u : ℕ} → Chain g u u
  link : {u v w : ℕ} → Chain g u v → Linked g v w → Chain g u w

Chain-join : {g : DesignGraph} {u v w : ℕ} → Chain g u v → Chain g v w → Chain g u w
Chain-join c start = c
Chain-join c (link d l) = link (Chain-join c d) l

Chain-flip : {g : DesignGraph} {u v : ℕ} → Chain g u v → Chain g v u
Chain-flip start = start
Chain-flip {g = g} (link {v = v} {w = w} c l) =
    Chain-join (link start (Linked-flip g v w l)) (Chain-flip c)

-- No two islands share an id.
abbrev pub AreApart : List (List ℕ) → Type 0
AreApart [] = Unit
AreApart (i ∷ is) = All (λ j. (v : ℕ) → includes v j ≡ true → includes v i ≡ false) is × AreApart is

module _ (g : DesignGraph) where
  chain : {u v : ℕ} → Walk (neighbours g) u v → Chain g u v
  chain here = start
  chain (step {u = u} {v = v} walk edge) = link (chain walk) (neighbour-Linked g u v edge)

  walk : {u v : ℕ} → Chain g u v → Walk (neighbours g) u v
  walk start = here
  walk (link {v = v} {w = w} c l) = step (walk c) (Linked-neighbour g v w l)

  -- Nothing leads out of the ids.
  abbrev IsShut : List ℕ → Type 0
  IsShut seen =
      (u v : ℕ)
      → includes u seen ≡ true
      → includes v (neighbours g u) ≡ true
      → includes v seen ≡ true

  along_shut :
      (seen : List ℕ)
      → IsShut seen
      → {u v : ℕ} → Chain g u v
      → includes u seen ≡ true
      → includes v seen ≡ true
  along_shut seen h start m = m
  along_shut seen h (link {v = v} {w = w} c l) m =
      h v w (along_shut seen h c m) (Linked-neighbour g v w l)

  module _ (seen : List ℕ) (s : ℕ) (shut : IsShut seen) (n : includes s seen ≡ false) where
    apart : (v : ℕ) → includes v seen ≡ true → includes v (s ∷ []) ≡ false
    apart v m = elim (Bool-cases (s == v)) [
      | inl t ↦ let k = ap (λ x. includes x seen) ((==_iff s v).0 t) in absurd (ground arith)
      | inr f ↦ ground arith
    ]

    island_ends : (island_from g seen s).stack ≡ []
    unfolding island_from neighbours
    island_ends =
        search_ends (map (λ n. n.id) g.nodes) (neighbours g) _ _
          (λ u v m.
            let both = includes-filter (has_node g) v (map (λ e. other_end e u) (touching g u)) in
            ground arith)
          (omega (
            arith,
            unseen-le (map (λ n. n.id) g.nodes) (seen ++ s ∷ []),
            length-map (λ n. n.id) g.nodes,
          ))

    -- The search takes what is connected with its start.
    island_lem : (v : ℕ) → (includes v (island_from g seen s).taken ≡ true) ↔ Chain g s v
    unfolding island_from
    island_lem v = (
      λ m. elim (taken_sound (neighbours g) seen (s ∷ []) shut apart _ v m) [
        | inl o ↦
            absurd
              (let k = taken-fresh (neighbours g) seen (s ∷ []) shut apart _ v m in ground arith)
        | inr (x, k, w) ↦
            let same : s ≡ x = (==_iff s x).0 (ground arith) in
            subst (λ y. Chain g y v) (sym same) (chain w)
      ],
      λ c.
          let self = (==_iff s s).1 refl in
          let found =
            (search_lem (neighbours g) seen (s ∷ []) shut apart _ v island_ends).1
              (inr (s, ground arith, walk c)) in
          let both = taken_lem (neighbours g) seen (s ∷ []) shut apart _ v island_ends in
          elim (Bool-cases (includes v seen)) [
            | inl o ↦ absurd (let back = along_shut seen shut (Chain-flip c) o in ground arith)
            | inr f ↦ ground arith
          ],
    )

    island-Shut : IsShut (island_from g seen s).seen
    unfolding island_from
    island-Shut u v m edge =
        seen-Shut (neighbours g) seen (s ∷ []) shut apart _ u v island_ends m edge

    island-seen :
        (v : ℕ)
        → includes v (island_from g seen s).seen
          ≡ (includes v seen || includes v (island_from g seen s).taken)
    unfolding island_from
    island-seen v = taken_lem (neighbours g) seen (s ∷ []) shut apart _ v island_ends

    island-fresh :
        (v : ℕ) → includes v (island_from g seen s).taken ≡ true → includes v seen ≡ false
    unfolding island_from
    island-fresh v m = taken-fresh (neighbours g) seen (s ∷ []) shut apart _ v m

  -- The island is what is connected with one of its ids.
  abbrev IsIsland : List ℕ → Type 0
  IsIsland island = (s : ℕ) × ((v : ℕ) → (includes v island ≡ true) ↔ Chain g s v)

  islands_from-IsIsland :
      (seen : List ℕ) (ns : List GraphNode) → IsShut seen → All IsIsland (islands_from g seen ns)
  unfolding islands_from
  islands_from-IsIsland seen [] h = tt
  islands_from-IsIsland seen (n ∷ ns) h = elim (Bool-cases (includes n.id seen)) [
    | inl t ↦ rw (t, islands_from) (islands_from-IsIsland seen ns h)
    | inr f ↦
        let rest =
          islands_from-IsIsland (island_from g seen n.id).seen ns (island-Shut seen n.id h f) in
        rw (f, islands_from) ((n.id, island_lem seen n.id h f), rest)
  ]

  -- No island has an id of the list.
  abbrev Avoids : List ℕ → List ℕ → Type 0
  Avoids seen island = (v : ℕ) → includes v island ≡ true → includes v seen ≡ false

  islands_from-Avoids :
      (seen : List ℕ) (ns : List GraphNode)
      → IsShut seen
      → All (Avoids seen) (islands_from g seen ns)
  unfolding islands_from
  islands_from-Avoids seen [] h = tt
  islands_from-Avoids seen (n ∷ ns) h = elim (Bool-cases (includes n.id seen)) [
    | inl t ↦ rw (t, islands_from) (islands_from-Avoids seen ns h)
    | inr f ↦
        let rest =
          islands_from-Avoids (island_from g seen n.id).seen ns (island-Shut seen n.id h f) in
        rw (f, islands_from)
          (
            island-fresh seen n.id h f,
            All-map _ _ _
                (λ i k v m. let a = k v m in let b = island-seen seen n.id h f v in ground arith)
                rest,
          )
  ]

  islands_from-AreApart :
      (seen : List ℕ) (ns : List GraphNode) → IsShut seen → AreApart (islands_from g seen ns)
  unfolding islands_from
  islands_from-AreApart seen [] h = tt
  islands_from-AreApart seen (n ∷ ns) h = elim (Bool-cases (includes n.id seen)) [
    | inl t ↦ rw (t, islands_from) (islands_from-AreApart seen ns h)
    | inr f ↦
        let shut = island-Shut seen n.id h f in
        rw (f, islands_from)
          (
            All-map _ _ _
                (λ i k v m. let a = k v m in let b = island-seen seen n.id h f v in ground arith)
                (islands_from-Avoids (island_from g seen n.id).seen ns shut),
            islands_from-AreApart (island_from g seen n.id).seen ns shut,
          )
  ]

  -- A node that was not seen is on an island.
  islands_from_complete :
      (seen : List ℕ) (ns : List GraphNode) (v : ℕ)
      → IsShut seen
      → includes v (map (λ n. n.id) ns) ≡ true
      → includes v seen ≡ false
      → (island : List ℕ) × Memᴰ island (islands_from g seen ns) × (includes v island ≡ true)
  unfolding islands_from
  islands_from_complete seen [] v h m f = absurd (ground arith)
  islands_from_complete seen (n ∷ ns) v h m f = elim (Bool-cases (includes n.id seen)) [
    | inl t ↦
        rw (t, islands_from)
          (islands_from_complete seen ns v h
            (elim (Bool-cases (n.id == v)) [
              | inl q ↦
                  absurd (let w = ap (λ x. includes x seen) ((==_iff n.id v).0 q) in ground arith)
              | inr q ↦ ground arith
            ])
            f)
    | inr k ↦
        rw (k, islands_from)
          (elim (Bool-cases (includes v (island_from g seen n.id).taken)) [
            | inl t ↦ ((island_from g seen n.id).taken, Memᴰ.head refl, t)
            | inr j ↦
                let all = island-seen seen n.id h k v in
                let (i, at, has) =
                  islands_from_complete (island_from g seen n.id).seen ns v
                    (island-Shut seen n.id h k)
                    (elim (Bool-cases (n.id == v)) [
                      | inl q ↦ absurd (
                          let w =
                            ap (λ x. includes x (island_from g seen n.id).taken)
                              ((==_iff n.id v).0 q) in
                          let own = (island_lem seen n.id h k n.id).1 start in ground arith)
                      | inr q ↦ ground arith
                    ])
                    (ground arith) in
                (i, Memᴰ.tail at, has)
          ])
  ]

  nothing-IsShut : IsShut []
  nothing-IsShut u v m edge = absurd (ground arith)

  -- The islands split the nodes: no id is on two of them, and two nodes are on the same island exactly
  -- if a way along the edges, in either direction, leads from the one to the other.
  pub islands_lem :
      AreApart (islands g)
      × ((a b : ℕ)
          → has_node g a ≡ true
          → ((island : List ℕ) × Memᴰ island (islands g)
              × (includes a island ≡ true)
              × (includes b island ≡ true))
            ↔ Chain g a b)
  unfolding islands
  islands_lem = (
    islands_from-AreApart [] g.nodes nothing-IsShut,
    λ a b known.
        let all = islands_from-IsIsland [] g.nodes nothing-IsShut in
        (
          λ both.
              let (s, same) = All-mem IsIsland both.0 _ all both.1 in
              Chain-join (Chain-flip ((same a).0 both.2)) ((same b).0 both.3),
          λ c.
              let (i, m, has) =
                islands_from_complete [] g.nodes a nothing-IsShut known (ground arith) in
              let (s, same) = All-mem IsIsland i _ all m in
              (i, m, has, (same b).1 (Chain-join ((same a).0 has) c)),
        ),
  )
