-- ===== src/Graph/Rules/DbSpof/Replicas.antt =====
-- Which databases the rule reports.
use whiteboard_ai.Base.{
  ◌≡◌, ◌↔◌, inl, inr, sym, subst, true, false, not, ◌&&◌, ◌||◌, none, some, [], ◌∷◌, arith, Memᴰ,
  any, filtered, Mem-filter, any-found, any-Mem, concat_map-found, Mem-concat_map, Mem-guarded,
  Option-cases, Bool-cases, ◌==◌,
}
use whiteboard_ai.Graph.{
  DesignGraph, GraphNode, database, is_kind, is_replication, critical, Finding, Texts,
}
use whiteboard_ai.Graph.Index.{node, touching, other, other_end, of_kind, has_node}
use whiteboard_ai.Graph.Index.Nodes.{node-found}
use whiteboard_ai.Graph.Index.Neighbours.{Linked, touching-Linked, Mem-touching}
use whiteboard_ai.Graph.Rule.{make_finding, db_spof}
use whiteboard_ai.Graph.Rules.DbSpof.{is_primary, is_replica, replicates, check_db, db_spof_rule}

-- Another database is linked with this one, by a replication arrow or as a replica.
pub record IsReplicated (g : DesignGraph) (db : GraphNode) : Type 0 where
  pub copy : GraphNode
  pub link : Linked g db.id copy.id
  pub found : node g copy.id ≡ some copy
  pub kind_known : is_kind copy.kind database ≡ true
  pub proper : (copy.id == db.id) ≡ false
  pub copies : (is_replication link.edge.edge_type || is_replica copy.props.role) ≡ true

module _ (g : DesignGraph) (db : GraphNode) where
  replicated : any (replicates g db) (touching g db.id) ≡ true → IsReplicated g db
  unfolding replicates other
  replicated h =
      let (e, m, k) = any-found (replicates g db) (touching g db.id) h in
      elim (Option-cases (node g (other_end e db.id))) [
        | inl none_found ↦ absurd (cc)
        | inr (n, found) ↦
            let (same, known) = node-found g (other_end e db.id) n found in
            let (link, at) =
              touching-Linked g db.id n.id e m (sym same)
                (subst (λ v. has_node g v ≡ true) (sym same) known) in
            let all : is_kind n.kind database
                  && (not (n.id == db.id)
                      && (is_replication e.edge_type || is_replica n.props.role))
                ≡ true =
              subst
                (λ o.
                  elim o [
                    | none ↦ false
                    | some n ↦
                        is_kind n.kind database
                        && (not (n.id == db.id)
                            && (is_replication e.edge_type || is_replica n.props.role))
                  ]
                  ≡ true)
                found k in
            record {
              copy = n;
              link = link;
              found = subst (λ v. node g v ≡ some n) (sym same) found;
              kind_known = ground arith;
              proper = ground arith;
              copies =
                  subst (λ d. (is_replication d.edge_type || is_replica n.props.role) ≡ true)
                    (sym at) (ground arith);
            }
      ]

  replicated_any : IsReplicated g db → any (replicates g db) (touching g db.id) ≡ true
  unfolding replicates other
  replicated_any h =
      let (m, same) = Mem-touching g db.id h.copy.id h.link in
      let found = subst (λ v. node g v ≡ some h.copy) (sym same) h.found in
      any-Mem (replicates g db) h.link.edge (touching g db.id) m
        (rw (found, replicates) (ground arith))

-- The rule reports exactly the primary databases that are not replicated, each with a critical finding
-- on its shape.
pub db_spof_lem :
    (texts : Texts) (g : DesignGraph) (f : Finding)
    → Memᴰ f (db_spof_rule texts g) ↔ (
        (db : GraphNode) × Memᴰ db g.nodes
        × (is_kind db.kind database ≡ true)
        × (is_primary db.props.role ≡ true)
        × (¬ IsReplicated g db)
        × (f ≡ make_finding texts db_spof critical (db.id ∷ [])))
unfolding db_spof_rule check_db of_kind
db_spof_lem texts g f = (
  λ m.
      let (db, at, k) = concat_map-found (check_db texts g) f _ m in
      let (drawn, kind) = filtered (λ n. is_kind n.kind database) db g.nodes at in
      let (primary, alone, same) = (Mem-guarded _ _ _ f).0 k in
      (
        db,
        drawn,
        kind,
        primary,
        (λ h. absurd (let r = replicated_any g db h in ground arith)),
        same,
      ),
  λ found.
      Mem-concat_map (check_db texts g) found.0 f _
        (Mem-filter (λ n. is_kind n.kind database) found.0 g.nodes found.1 found.2)
        ((Mem-guarded _ _ _ f).1 (
          found.3,
          elim (Bool-cases (any (replicates g found.0) (touching g found.0.id))) [
            | inl t ↦ absurd (found.4 (replicated g found.0 t))
            | inr n ↦ n
          ],
          found.5,
        )),
)
