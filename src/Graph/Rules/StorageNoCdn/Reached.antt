-- ===== src/Graph/Rules/StorageNoCdn/Reached.antt =====
-- Which components the rule reports.
use whiteboard_ai.Base.{
  ℕ, ◌≡◌, ◌↔◌, inl, inr, sym, subst, true, not, some, List, map, is_empty, arith, includes,
  includes-map, includes-empty, mapped, Memᴰ, any, filter, filtered, Mem-filter, any-found, any-Mem,
  concat_map, concat_map-found, Mem-concat_map, Mem-guarded, Option-cases, Bool-cases,
}
use whiteboard_ai.Graph.{
  DesignGraph, GraphNode, ComponentKind, client, cdn, is_kind, is_replication, Finding, Texts,
}
use whiteboard_ai.Graph.Index.{node, touching, other, other_end, of_kind, reachable, has_node}
use whiteboard_ai.Graph.Index.Nodes.{node-found}
use whiteboard_ai.Graph.Index.Neighbours.{Linked, touching-Linked, Mem-touching}
use whiteboard_ai.Graph.Index.Reachable.{Route, reachable_lem}
use whiteboard_ai.Graph.Rule.{some_is}
use whiteboard_ai.Graph.Rules.StorageNoCdn.{
  serves_static_content, leads_to, storage_finding, check_target, storage_no_cdn_rule,
}

-- An edge links the node with one of the kind.
pub record HasBeside (g : DesignGraph) (kind : ComponentKind) (v : ℕ) : Type 0 where
  pub beside : GraphNode
  pub link : Linked g v beside.id
  pub found : node g beside.id ≡ some beside
  pub kind_known : is_kind beside.kind kind ≡ true

module _ (g : DesignGraph) (kind : ComponentKind) (v : ℕ) where
  any-HasBeside : any (leads_to g kind v) (touching g v) ≡ true → HasBeside g kind v
  unfolding leads_to other
  any-HasBeside h =
      let (e, m, k) = any-found (leads_to g kind v) (touching g v) h in
      elim (Option-cases (node g (other_end e v))) [
        | inl none_found ↦ absurd cc
        | inr (n, found) ↦
            let (same, known) = node-found g (other_end e v) n found in
            let (link, at) =
              touching-Linked g v n.id e m (sym same)
                (subst (λ v. has_node g v ≡ true) (sym same) known) in
            record {
              beside = n;
              link = link;
              found = subst (λ v. node g v ≡ some n) (sym same) found;
              kind_known = subst (λ o. some_is (λ n. is_kind n.kind kind) o ≡ true) found k;
            }
      ]

  HasBeside-any : HasBeside g kind v → any (leads_to g kind v) (touching g v) ≡ true
  unfolding leads_to other
  HasBeside-any h =
      let (m, same) = Mem-touching g v h.beside.id h.link in
      let found = subst (λ v. node g v ≡ some h.beside) (sym same) h.found in
      any-Mem (leads_to g kind v) h.link.edge (touching g v) m (rw (found, leads_to) h.kind_known)

-- A route of calls, not of replication, leads to the id from a client.
abbrev pub IsReached : DesignGraph → ℕ → Type 0
IsReached g v =
    (c : GraphNode) × Memᴰ c g.nodes
    × (is_kind c.kind client ≡ true)
    × Route g (λ e. not (is_replication e.edge_type)) c.id v

abbrev clients_of : DesignGraph → List ℕ
clients_of g = map (λ n. n.id) (of_kind g client)

client-included :
    (g : DesignGraph) {v : ℕ} (h : IsReached g v) → includes h.0.id (clients_of g) ≡ true
unfolding of_kind
client-included g h =
    includes-map (λ n. n.id) h.0 _ (Mem-filter (λ n. is_kind n.kind client) h.0 g.nodes h.1 h.2)

reachable-IsReached :
    (g : DesignGraph) (v : ℕ)
    → (includes v (reachable g (clients_of g) (λ e. not (is_replication e.edge_type))) ≡ true)
      ↔ IsReached g v
unfolding of_kind
reachable-IsReached g v =
    let (end, all) = reachable_lem g (λ e. not (is_replication e.edge_type)) (clients_of g) v in
    (
      λ m.
          let (s, at, route) = all.0 m in
          let (c, k, same) = mapped (λ n. n.id) s (of_kind g client) at in
          let (drawn, kind) = filtered (λ n. is_kind n.kind client) c g.nodes k in
          (
            c,
            drawn,
            kind,
            subst (λ x. Route g (λ e. not (is_replication e.edge_type)) x v) (sym same) route,
          ),
      λ h. all.1 (h.0.id, client-included g h, h.3),
    )

reported :
    (texts : Texts) (g : DesignGraph) (f : Finding)
    → Memᴰ f (
        concat_map
          (check_target texts g
            (reachable g (clients_of g) (λ e. not (is_replication e.edge_type))))
          (filter (serves_static_content texts) g.nodes))
      ↔ ((n : GraphNode) × Memᴰ n g.nodes
          × (serves_static_content texts n ≡ true)
          × IsReached g n.id
          × (¬ HasBeside g cdn n.id)
          × (f ≡ storage_finding texts g n))
unfolding check_target
reported texts g f =
    let reached = reachable g (clients_of g) (λ e. not (is_replication e.edge_type)) in
    (
      λ m.
          let (n, at, k) = concat_map-found (check_target texts g reached) f _ m in
          let (drawn, serves) = filtered (serves_static_content texts) n g.nodes at in
          let (found, none_beside, same) = (Mem-guarded _ _ _ f).0 k in
          (
            n,
            drawn,
            serves,
            (reachable-IsReached g n.id).0 found,
            (λ h. absurd (let r = HasBeside-any g cdn n.id h in ground arith)),
            same,
          ),
      λ h.
          Mem-concat_map (check_target texts g reached) h.0 f _
            (Mem-filter (serves_static_content texts) h.0 g.nodes h.1 h.2)
            ((Mem-guarded _ _ _ f).1 (
              (reachable-IsReached g h.0.id).1 h.3,
              elim (Bool-cases (any (leads_to g cdn h.0.id) (touching g h.0.id))) [
                | inl t ↦ absurd (h.4 (any-HasBeside g cdn h.0.id t))
                | inr n ↦ n
              ],
              h.5,
            )),
    )

-- The rule reports exactly the storage and the services of static content that a route of calls leads
-- to from a client, and that no edge links with a CDN.
pub storage_no_cdn_lem :
    (texts : Texts) (g : DesignGraph) (f : Finding)
    → Memᴰ f (storage_no_cdn_rule texts g) ↔ (
        (n : GraphNode) × Memᴰ n g.nodes
        × (serves_static_content texts n ≡ true)
        × IsReached g n.id
        × (¬ HasBeside g cdn n.id)
        × (f ≡ storage_finding texts g n))
unfolding storage_no_cdn_rule
storage_no_cdn_lem texts g f = elim (Bool-cases (is_empty (clients_of g))) [
  | inl t ↦ rw t (
    λ m. elim m [ ],
    λ h. absurd (
        let k = client-included g h.3 in
        let n = includes-empty h.3.0.id (clients_of g) t in ground arith),
  )
  | inr k ↦ rw k (reported texts g f)
]
