-- ===== src/Graph/Rules/DbSpof.antt =====
-- packages/graph/src/rules/dbSpof.ts: a primary database without a replica.
pub mod Replicas
use whiteboard_ai.Base.{
  concat_map, Bool, true, false, not, ◌&&◌, ◌||◌, Option, none, some, List, [], ◌∷◌, any,
  if◌then◌else◌, ◌==◌,
}
use whiteboard_ai.Graph.{
  DesignGraph, GraphNode, GraphEdge, DbRole, primary, replica, database, is_kind, is_replication,
  critical, Finding, Texts,
}
use whiteboard_ai.Graph.Index.{touching, other, of_kind}
use whiteboard_ai.Graph.Rule.{make_finding, db_spof}

abbrev pub is_primary : Option DbRole → Bool
is_primary none = false
is_primary (some primary) = true
is_primary (some replica) = false

abbrev pub is_replica : Option DbRole → Bool
is_replica none = false
is_replica (some primary) = false
is_replica (some replica) = true

unfoldable pub replicates : DesignGraph → GraphNode → GraphEdge → Bool
replicates g db e = elim (other g e db.id) [
  | none ↦ false
  | some n ↦
      is_kind n.kind database
      && (not (n.id == db.id) && (is_replication e.edge_type || is_replica n.props.role))
]

unfoldable pub check_db : Texts → DesignGraph → GraphNode → List Finding
check_db texts g db =
    if not (is_primary db.props.role)
    then []
    else if any (replicates g db) (touching g db.id)
    then []
    else make_finding texts db_spof critical (db.id ∷ []) ∷ []

unfoldable pub db_spof_rule : Texts → DesignGraph → List Finding
db_spof_rule texts g = concat_map (check_db texts g) (of_kind g database)
