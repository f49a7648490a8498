-- ===== src/Graph/Search.antt =====
-- The work list that `reachable` and `islands` of packages/graph/src/context.ts share: take an id
-- from the stack, look at those next to it, and push the ones that were not seen. `next` says which
-- ids those are, in order. The top of the stack is the head of the list.
pub mod Ends
pub mod Correct
use whiteboard_ai.Base.{
  ℕ, zero, suc, Bool, true, false, List, [], ◌∷◌, ◌++◌, includes, reverse, if◌then◌else◌,
}

-- `taken` are the ids that left the stack, in order.
pub record Search : Type 0 where
  pub seen : List ℕ
  pub stack : List ℕ
  pub taken : List ℕ

unfoldable pub push_new : Search → ℕ → Search
push_new s v =
    if includes v s.seen then s else record s { seen = s.seen ++ v ∷ []; stack = v ∷ s.stack }

-- The inner loop.
unfoldable pub scan : Search → List ℕ → Search
scan s [] = s
scan s (v ∷ vs) = scan (push_new s v) vs

-- Before the loop: the `starts` are seen too, and the last of them is on top.
abbrev pub begin_search : List ℕ → List ℕ → Search
begin_search old starts = record { seen = old ++ starts; stack = reverse starts; taken = [] }

module _ (next : ℕ → List ℕ) where
  -- One round, after `u` left the stack.
  unfoldable pub expand : Search → ℕ → List ℕ → Search
  expand s u rest = scan (record s { stack = rest; taken = s.taken ++ u ∷ [] }) (next u)

  -- The `while` loop, on fuel.
  unfoldable pub search : ℕ → Search → Search
  search zero s = s
  search (suc fuel) s = elim s.stack [ [] ↦ s | u ∷ rest ↦ search fuel (expand s u rest) ]
