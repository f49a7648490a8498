-- ===== src/Graph/Rules/NoLoadBalancer.antt =====
-- packages/graph/src/rules/noLoadBalancer.ts: a service of several instances that is called directly.
use whiteboard_ai.Base.{
  concat_map, ℕ, Bool, not, ◌&&◌, ◌||◌, List, [], ◌∷◌, ◌++◌, map, filter, is_empty, includes, ltb,
  if◌then◌else◌, ◌==◌,
}
use whiteboard_ai.Graph.{
  DesignGraph, GraphNode, GraphEdge, service, load_balancer, api_gateway, is_kind, is_sync, warning,
  Finding, Texts,
}
use whiteboard_ai.Graph.Index.{node, in_, of_kind}
use whiteboard_ai.Graph.Rule.{make_finding, no_load_balancer, some_is, unique_after}

abbrev pub is_balancer : GraphNode → Bool
is_balancer n = is_kind n.kind load_balancer || is_kind n.kind api_gateway

pub record ServiceSet : Type 0 where
  pub key : ℕ
  pub members : List GraphNode

unfoldable pub add_member : ℕ → GraphNode → List ServiceSet → List ServiceSet
add_member key n [] = record { key = key; members = n ∷ [] } ∷ []
add_member key n (s ∷ sets) =
    if s.key == key
    then record s { members = s.members ++ n ∷ [] } ∷ sets
    else s ∷ add_member key n sets

abbrev set_key : Texts → GraphNode → ℕ
set_key texts n = if n.props.unlabeled then texts.unlabeled_key n.id else texts.instance_key n.label

unfoldable pub sets_from : Texts → List ServiceSet → List GraphNode → List ServiceSet
sets_from texts sets [] = sets
sets_from texts sets (n ∷ ns) =
    sets_from texts (if ltb n.props.instances 2 then sets else add_member (set_key texts n) n sets)
      ns

-- The calls of the members that go past any balancer.
unfoldable pub bypasses : DesignGraph → List GraphNode → GraphEdge → Bool
bypasses g members e =
    is_sync e.edge_type
    && (not (includes e.from (map (λ n. n.id) members))
        && some_is (λ n. not (is_balancer n)) (node g e.from))

unfoldable pub check_set : Texts → DesignGraph → List GraphNode → List Finding
check_set texts g members =
    let bypassing = concat_map (λ n. filter (bypasses g members) (in_ g n.id)) members in
    if is_empty bypassing
    then []
    else let ids = map (λ n. n.id) members in
      let callers = unique_after [] (map (λ e. e.from) bypassing) in
      make_finding texts no_load_balancer warning
        (ids ++ callers ++ map (λ e. e.arrow_id) bypassing)
      ∷ []

unfoldable pub no_load_balancer_rule : Texts → DesignGraph → List Finding
no_load_balancer_rule texts g =
    concat_map (λ s. check_set texts g s.members) (sets_from texts [] (of_kind g service))
