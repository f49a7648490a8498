-- ===== src/Graph/Rules/QueueNoDlq.antt =====
-- packages/graph/src/rules/queueNoDlq.ts: a queue without a way out for messages that fail.
use whiteboard_ai.Base.{concat_map, Bool, not, ◌&&◌, ◌||◌, List, [], ◌∷◌, any, if◌then◌else◌, ◌==◌}
use whiteboard_ai.Graph.{DesignGraph, GraphNode, GraphEdge, queue, is_kind, warning, Finding, Texts}
use whiteboard_ai.Graph.Index.{touching, other, of_kind}
use whiteboard_ai.Graph.Rule.{make_finding, queue_no_dlq, some_is}

unfoldable pub handles : Texts → DesignGraph → GraphNode → GraphEdge → Bool
handles texts g q e =
    texts.retry_edge e.label
    || some_is (λ n. is_kind n.kind queue && (not (n.id == q.id) && texts.dead_letter n.label))
        (other g e q.id)

unfoldable pub check_queue : Texts → DesignGraph → GraphNode → List Finding
check_queue texts g q =
    if texts.dead_letter q.label
    then []
    else if any (handles texts g q) (touching g q.id)
    then []
    else make_finding texts queue_no_dlq warning (q.id ∷ []) ∷ []

unfoldable pub queue_no_dlq_rule : Texts → DesignGraph → List Finding
queue_no_dlq_rule texts g = concat_map (check_queue texts g) (of_kind g queue)
