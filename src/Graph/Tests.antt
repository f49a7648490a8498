-- ===== src/Graph/Tests.antt =====
-- A small design: a client (1) calls a service (2) that uses a database (3) and storage (4), beside a
-- cache (5) that nothing is connected with.
use whiteboard_ai.Base.{
  ℕ, ◌+◌, ◌*◌, ◌≡◌, ◌↔◌, inl, inr, refl, Bool, true, false, Option, none, some, arith, List, [],
  ◌∷◌, length, includes, All, Memᴰ, Sorted, ltb, map, Perm,
}
use whiteboard_ai.Graph.{
  DesignGraph, GraphNode, GraphNodeProps, GraphEdge, ComponentKind, client, service, database,
  object_storage, cache, cdn, is_kind, kind_index, sync, DbRole, primary, critical, warning,
  Finding, Texts,
}
use whiteboard_ai.Graph.Search.{push_new, scan, expand, search, begin_search}
use whiteboard_ai.Graph.Board.{read, read_all, RawShape, system, arrow}
use whiteboard_ai.Graph.Index.{
  node, out, in_, touching, other, of_kind, neighbours, island_from, islands_from, reachable,
  islands, targets, has_node,
}
use whiteboard_ai.Graph.Index.Reachable.{Route, reachable_lem}
use whiteboard_ai.Graph.Index.Islands.{Chain, AreApart, islands_lem}
use whiteboard_ai.Graph.Extract.{
  resolve_end, part_pairs, all_pairs, pairs_of, arrow_edges, add_shape, add_shapes, extract_graph,
}
use whiteboard_ai.Graph.Nodes.{nodes_from}
use whiteboard_ai.Graph.Extract.Edges.{extracted_edges_join}
use whiteboard_ai.Graph.Extract.Kept.{IsAccounted, nothing_is_lost}
use whiteboard_ai.Graph.Rule.{make_finding, db_spof}
use whiteboard_ai.Graph.Rule.Stable.{finding_id_stable}
use whiteboard_ai.Graph.Rules.DbSpof.{check_db, replicates, is_primary, db_spof_rule}
use whiteboard_ai.Graph.Rules.DbSpof.Replicas.{IsReplicated, db_spof_lem}
use whiteboard_ai.Graph.Rules.StorageNoCdn.{
  check_target, leads_to, serves_static_content, storage_finding, storage_no_cdn_rule,
}
use whiteboard_ai.Graph.Rules.StorageNoCdn.Reached.{IsReached, HasBeside, storage_no_cdn_lem}
use whiteboard_ai.Graph.Rules.Disconnected.{check_island, disconnected_rule}
use whiteboard_ai.Graph.Rules.Disconnected.MainIsland.{IsLargest, disconnected_lem}
use whiteboard_ai.Graph.RunRules.{
  Rule, CheckOptions, finding_before, set_finding, set_findings, run_all, run_rules,
}
use whiteboard_ai.Graph.RunRules.Isolation.{IsRecorded, IsSound, run_rules_lem}

abbrev props_of : Option DbRole → GraphNodeProps
props_of role = record {
  unlabeled = false;
  instances = 1;
  group_id = none;
  engine = none;
  role = role;
  mode = none;
}

abbrev node_of : ℕ → ComponentKind → Option DbRole → GraphNode
node_of v kind role = record { id = v; kind = kind; label = 50 + v; props = props_of role }

abbrev call : ℕ → ℕ → ℕ → GraphEdge
call v from to = record { id = v; arrow_id = v; from = from; to = to; edge_type = sync; label = 0 }

abbrev shop : DesignGraph
shop = record {
  nodes =
      node_of 1 client none
      ∷ node_of 2 service none
      ∷ node_of 3 database (some primary)
      ∷ node_of 4 object_storage none
      ∷ node_of 5 cache none
      ∷ [];
  edges = call 11 1 2 ∷ call 12 2 3 ∷ call 13 2 4 ∷ [];
  ignored = [];
}

abbrev every : GraphEdge → Bool
every e = true

abbrev sample_texts : Texts
sample_texts = record {
  empty = 0;
  trim = λ v. v;
  kind_label = λ k. 99;
  count_found = λ i v. none;
  instance_key = λ v. v;
  unlabeled_key = λ v. 1000 + v;
  part_id = λ v a b. 10000 * v + 100 * a + b;
  finding_id = λ rule ids. length ids + 100 * rule;
  reads = λ v. false;
  dead_letter = λ v. false;
  retry_edge = λ v. false;
  static_content = λ v. false;
}

reachable_test : reachable shop (2 ∷ []) every ≡ 2 ∷ 3 ∷ 4 ∷ []
unfolding reachable targets out search expand scan push_new
reachable_test = refl

islands_test : islands shop ≡ (1 ∷ 2 ∷ 4 ∷ 3 ∷ []) ∷ (5 ∷ []) ∷ []
unfolding islands islands_from island_from neighbours touching out in_ search expand scan push_new
islands_test = refl

reachable_lem_example :
    ((search (targets shop every) 4 (begin_search [] (2 ∷ []))).stack ≡ [])
    × ((includes 3 (reachable shop (2 ∷ []) every) ≡ true)
        ↔ ((s : ℕ) × (includes s (2 ∷ []) ≡ true) × Route shop every s 3))
reachable_lem_example = reachable_lem shop every (2 ∷ []) 3

islands_lem_example :
    AreApart (islands shop)
    × ((a b : ℕ)
        → has_node shop a ≡ true
        → ((island : List ℕ) × Memᴰ island (islands shop)
            × (includes a island ≡ true)
            × (includes b island ≡ true))
          ↔ Chain shop a b)
islands_lem_example = islands_lem shop

abbrev box : ℕ → ComponentKind → RawShape
box v kind = record {
  parsed = some (record {
    id = v;
    group_id = none;
    body = system (record { kind = kind; label = 50; engine = none; role = none; mode = none });
  });
  id_value = none;
  type_value = none;
}

abbrev line : ℕ → Option ℕ → Option ℕ → RawShape
line v from to = record {
  parsed = some (record {
    id = v;
    group_id = none;
    body = arrow (record { from_shape_id = from; to_shape_id = to; label = 0; edge_type = sync });
  });
  id_value = none;
  type_value = none;
}

-- Two boxes, an arrow between them, one with a free end, a box of the same id, and no shape.
abbrev sample_board : List RawShape
sample_board =
    box 1 client
    ∷ box 2 service
    ∷ line 11 (some 1) (some 2)
    ∷ line 12 (some 1) none
    ∷ box 2 cache
    ∷ record {
      parsed = none;
      id_value = some (record { text = 7; text_length = 3 });
      type_value = none;
    }
    ∷ []

extract_graph_test :
    let g = extract_graph sample_texts sample_board in
    (length g.nodes ≡ 2) × (length g.edges ≡ 1) × (length g.ignored ≡ 3)
unfolding extract_graph nodes_from read_all read add_shapes add_shape arrow_edges pairs_of
    resolve_end all_pairs part_pairs
extract_graph_test = (refl, refl, refl)

extracted_edges_join_example :
    let g = extract_graph sample_texts sample_board in
    All (λ e. (has_node g e.from ≡ true) × (has_node g e.to ≡ true)) g.edges
extracted_edges_join_example = extracted_edges_join sample_texts sample_board

nothing_is_lost_example : All (IsAccounted (extract_graph sample_texts sample_board)) sample_board
nothing_is_lost_example = nothing_is_lost sample_texts sample_board

same_members : (v : ℕ) → includes v (4 ∷ 2 ∷ 4 ∷ []) ≡ includes v (2 ∷ 4 ∷ [])
same_members v = ground arith

finding_id_stable_example :
    (make_finding sample_texts db_spof critical (4 ∷ 2 ∷ 4 ∷ [])).id
    ≡ (make_finding sample_texts db_spof warning (2 ∷ 4 ∷ [])).id
finding_id_stable_example =
    finding_id_stable sample_texts db_spof critical warning (4 ∷ 2 ∷ 4 ∷ []) (2 ∷ 4 ∷ [])
      same_members

abbrev db_finding : Finding
db_finding = make_finding sample_texts db_spof critical (3 ∷ [])

db_spof_rule_test : db_spof_rule sample_texts shop ≡ db_finding ∷ []
unfolding db_spof_rule check_db replicates is_kind kind_index out in_ touching other node of_kind
db_spof_rule_test = refl

db_spof_lem_example : Memᴰ db_finding (db_spof_rule sample_texts shop) ↔ (
    (db : GraphNode) × Memᴰ db shop.nodes
    × (is_kind db.kind database ≡ true)
    × (is_primary db.props.role ≡ true)
    × (¬ IsReplicated shop db)
    × (db_finding ≡ make_finding sample_texts db_spof critical (db.id ∷ [])))
db_spof_lem_example = db_spof_lem sample_texts shop db_finding

abbrev media_finding : Finding
media_finding = storage_finding sample_texts shop (node_of 4 object_storage none)

storage_no_cdn_rule_test : storage_no_cdn_rule sample_texts shop ≡ media_finding ∷ []
unfolding storage_no_cdn_rule check_target serves_static_content leads_to reachable targets is_kind
    kind_index out in_ touching other node of_kind search expand scan push_new
storage_no_cdn_rule_test = refl

storage_no_cdn_lem_example : Memᴰ media_finding (storage_no_cdn_rule sample_texts shop) ↔ (
    (n : GraphNode) × Memᴰ n shop.nodes
    × (serves_static_content sample_texts n ≡ true)
    × IsReached shop n.id
    × (¬ HasBeside shop cdn n.id)
    × (media_finding ≡ storage_finding sample_texts shop n))
storage_no_cdn_lem_example = storage_no_cdn_lem sample_texts shop media_finding

-- The rule on databases, and one that throws.
abbrev sample_rules : List Rule
sample_rules =
    record { id = 9; check = λ g options. inr 404 }
    ∷ record { id = db_spof; check = λ g options. inl (db_spof_rule sample_texts g) }
    ∷ []

abbrev default_options : CheckOptions
default_options = record { max_sync_depth = 3 }

run_rules_test : run_rules shop sample_rules default_options ≡ record {
  findings = db_finding ∷ [];
  rule_errors = record { rule_id = 9; message = 404 } ∷ [];
}
unfolding run_rules run_all set_findings set_finding db_spof_rule check_db replicates is_kind
    kind_index out in_ touching other node of_kind
run_rules_test = refl

run_rules_lem_example :
    let r = run_rules shop sample_rules default_options in
    (All (λ rule. IsRecorded r rule.id (rule.check shop default_options)) sample_rules
      × IsSound shop default_options sample_rules r)
    × Sorted (finding_before shop sample_rules) r.findings
run_rules_lem_example = run_rules_lem shop default_options sample_rules

two_islands : ltb (length (islands shop)) 2 ≡ false
unfolding islands islands_from island_from neighbours touching out in_ search expand scan push_new
two_islands = refl

disconnected_lem_example :
    (main : List ℕ) × (others : List (List ℕ)) × Perm (islands shop) (main ∷ others)
    × IsLargest main (islands shop)
    × (disconnected_rule sample_texts shop ≡ map (check_island sample_texts shop) others)
disconnected_lem_example = disconnected_lem shop sample_texts two_islands
