-- ===== src/Graph/Rules/Disconnected.antt =====
-- packages/graph/src/rules/disconnected.ts: the islands beside the main design.
pub mod MainIsland
use whiteboard_ai.Base.{
  concat_map, ℕ, zero, suc, Bool, not, ◌&&◌, ◌||◌, List, [], ◌∷◌, ◌++◌, map, any, length, ltb, sort,
  if◌then◌else◌, ◌==◌,
}
use whiteboard_ai.Graph.{DesignGraph, client, is_kind, info, Finding, Texts}
use whiteboard_ai.Graph.Index.{islands, node, touching, position}
use whiteboard_ai.Graph.Rule.{make_finding, disconnected, some_is, unique_after}

unfoldable pub has_client : DesignGraph → List ℕ → Bool
has_client g island = any (λ v. some_is (λ n. is_kind n.kind client) (node g v)) island

-- Whether an island takes the place of the main one.
unfoldable pub is_larger : DesignGraph → List ℕ → List ℕ → Bool
is_larger g island main =
    ltb (length main) (length island)
    || (length island == length main) && (has_client g island && not (has_client g main))

-- The place of the main island, where `main` is the one at `best`.
unfoldable pub main_at : DesignGraph → ℕ → List ℕ → ℕ → List (List ℕ) → ℕ
main_at g best main i [] = best
main_at g best main i (island ∷ rest) =
    let larger = is_larger g island main in
    main_at g (if larger then i else best) (if larger then island else main) (suc i) rest

-- `islands.filter((island) => island !== main)`, as the islands are different arrays
unfoldable pub remove_at : ℕ → List (List ℕ) → List (List ℕ)
remove_at i [] = []
remove_at zero (x ∷ xs) = xs
remove_at (suc i) (x ∷ xs) = x ∷ remove_at i xs

unfoldable pub first_island : List (List ℕ) → List ℕ
first_island [] = []
first_island (island ∷ rest) = island

unfoldable pub check_island : Texts → DesignGraph → List ℕ → Finding
check_island texts g island =
    let ordered = sort (λ a b. ltb (position g a) (position g b)) island in
    let arrows = unique_after [] (concat_map (λ v. map (λ e. e.arrow_id) (touching g v)) ordered) in
    make_finding texts disconnected info (ordered ++ arrows)

unfoldable pub disconnected_rule : Texts → DesignGraph → List Finding
disconnected_rule texts g =
    let all = islands g in
    if ltb (length all) 2
    then []
    else map (check_island texts g) (remove_at (main_at g 0 (first_island all) 0 all) all)
