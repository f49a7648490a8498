-- ===== src/Graph/Rules/StorageNoCdn.antt =====
-- packages/graph/src/rules/storageNoCdn.ts: storage that clients reach without a CDN.
pub mod Reached
use whiteboard_ai.Base.{
  concat_map, Bool, true, false, not, ◌&&◌, ◌||◌, Option, none, some, List, [], ◌∷◌, ◌++◌, map, any,
  filter, is_empty, includes, if◌then◌else◌, ◌==◌, ℕ,
}
use whiteboard_ai.Graph.{
  DesignGraph, GraphNode, GraphEdge, client, cdn, service, object_storage, ComponentKind, is_kind,
  is_replication, warning, info, Finding, Texts,
}
use whiteboard_ai.Graph.Index.{touching, other, other_end, of_kind, reachable}
use whiteboard_ai.Graph.Rule.{make_finding, storage_no_cdn, some_is}

unfoldable pub serves_static_content : Texts → GraphNode → Bool
serves_static_content texts n =
    is_kind n.kind object_storage || is_kind n.kind service && texts.static_content n.label

-- Whether the edge leads from the node to one of that kind.
unfoldable pub leads_to : DesignGraph → ComponentKind → ℕ → GraphEdge → Bool
leads_to g kind v e = some_is (λ n. is_kind n.kind kind) (other g e v)

unfoldable pub storage_finding : Texts → DesignGraph → GraphNode → Finding
storage_finding texts g n =
    let direct = filter (leads_to g client n.id) (touching g n.id) in
    let ids = concat_map (λ e. other_end e n.id ∷ e.arrow_id ∷ []) direct in
    make_finding texts storage_no_cdn (if is_empty direct then info else warning) (n.id ∷ ids)

unfoldable pub check_target : Texts → DesignGraph → List ℕ → GraphNode → List Finding
check_target texts g reached n =
    if not (includes n.id reached)
    then []
    else if any (leads_to g cdn n.id) (touching g n.id)
    then []
    else storage_finding texts g n ∷ []

unfoldable pub storage_no_cdn_rule : Texts → DesignGraph → List Finding
storage_no_cdn_rule texts g =
    let clients = map (λ n. n.id) (of_kind g client) in
    if is_empty clients
    then []
    else let reached = reachable g clients (λ e. not (is_replication e.edge_type)) in
      concat_map (check_target texts g reached) (filter (serves_static_content texts) g.nodes)
