-- ===== src/ZOrder.antt =====
-- packages/shared/src/board/zorder.ts: the new keys of the shapes that a reorder moves. Keys are numbers
-- in their order. `keys_between` is generateNKeysBetween of the package fractional-indexing; none is
-- the exception that it throws.
pub mod Target
pub mod Keys
pub mod Passed
mod Tests
use whiteboard_ai.Base.{
  ℕ, zero, suc, Bool, true, false, not, ◌&&◌, Option, none, some, List, [], ◌∷◌, ◌++◌, map, filter,
  length, leb, ltb, ◌==◌, is_empty, reverse, if◌then◌else◌,
}

pub record Ordered : Type 0 where
  pub id : ℕ
  pub z_index : ℕ

pub data ReorderMode : Type 0 where
  front back forward backward : ReorderMode

-- How the loop of assignKeys ends: with the keys of the shapes that move, with the return that
-- renumbers the whole board, or with an exception of the package.
pub data Assigned : Type 0 where
  assigned : List (ℕ × ℕ) → Assigned
  must_renumber thrown : Assigned

-- Whether `a` comes before `b`.
unfoldable pub comes_before : Ordered → Ordered → Bool
comes_before a b =
    if ltb a.z_index b.z_index
    then true
    else if ltb b.z_index a.z_index
    then false
    else ltb a.id b.id

module _ (moves : Ordered → Bool) where
  -- One round of the loop of stepForward, where the rest was stepped before.
  abbrev pub step_past : Ordered → List Ordered → List Ordered
  step_past x [] = x ∷ []
  step_past x (y ∷ ys) = if moves x && not (moves y) then y ∷ x ∷ ys else x ∷ y ∷ ys

  unfoldable pub step_forward : List Ordered → List Ordered
  step_forward [] = []
  step_forward (x ∷ xs) = step_past x (step_forward xs)

  unfoldable pub target_of : ReorderMode → List Ordered → List Ordered
  target_of front ordered = filter (λ s. not (moves s)) ordered ++ filter moves ordered
  target_of back ordered = filter moves ordered ++ filter (λ s. not (moves s)) ordered
  target_of forward ordered = step_forward ordered
  target_of backward ordered = reverse (step_forward (reverse ordered))

  -- The shapes that move at the start of the list, and those after them.
  unfoldable pub run_of : List Ordered → List Ordered × List Ordered
  run_of [] = ([], [])
  run_of (s ∷ rest) =
      let (run, tail) = run_of rest in if moves s then (s ∷ run, tail) else ([], s ∷ rest)

  abbrev pub first_key : List Ordered → Option ℕ
  first_key [] = none
  first_key (s ∷ rest) = some s.z_index

  -- Whether the neighbours leave no room.
  abbrev pub is_tight : Option ℕ → Option ℕ → Bool
  is_tight none after = false
  is_tight (some before) none = false
  is_tight (some before) (some after) = leb after before

  -- `keys.set` for each shape and its key
  abbrev pub zip_keys : List Ordered → List ℕ → List (ℕ × ℕ)
  zip_keys [] keys = []
  zip_keys (s ∷ run) [] = []
  zip_keys (s ∷ run) (key ∷ keys) = (s.id, key) ∷ zip_keys run keys

  abbrev pub add_keys : List (ℕ × ℕ) → Assigned → Assigned
  add_keys keys (assigned more) = assigned (keys ++ more)
  add_keys keys must_renumber = must_renumber
  add_keys keys thrown = thrown

  -- A run whose keys the package made, or refused to make, before the rest of the loop.
  abbrev pub assign_run : List Ordered → Option (List ℕ) → Assigned → Assigned
  assign_run run none rest = thrown
  assign_run run (some keys) rest = add_keys (zip_keys run keys) rest

  abbrev pub number_all : List Ordered → Option (List ℕ) → Option (List (ℕ × ℕ))
  number_all target none = none
  number_all target (some keys) = some (zip_keys target keys)

  module _ (keys_between : Option ℕ → Option ℕ → ℕ → Option (List ℕ)) where
    abbrev pub renumber : List Ordered → Option (List (ℕ × ℕ))
    renumber target = number_all target (keys_between none none (length target))

    -- The `while` loop, on fuel, where `before` is the key of the shape before. After a run comes a
    -- shape that stays, whose key is the next `before`.
    unfoldable pub assign_from : ℕ → Option ℕ → List Ordered → Assigned
    assign_from zero before items = assigned []
    assign_from (suc fuel) before [] = assigned []
    assign_from (suc fuel) before (s ∷ rest) = elim (moves s) [
      | false ↦ assign_from fuel (some s.z_index) rest
      | true ↦
          let (run, tail) = run_of (s ∷ rest) in
          let keys = keys_between before (first_key tail) (length run) in
          if is_tight before (first_key tail)
          then must_renumber
          else assign_run run keys (assign_from fuel none tail)
    ]

    -- None is the package's exception.
    unfoldable pub assign_keys : List Ordered → Option (List (ℕ × ℕ))
    assign_keys target = elim (assign_from (length target) none target) [
      | assigned keys ↦ some keys
      | must_renumber ↦ renumber target
      | thrown ↦ none
    ]

    unfoldable pub reorder_keys : List Ordered → ReorderMode → Option (List (ℕ × ℕ))
    reorder_keys ordered mode =
        if is_empty (filter moves ordered) then some [] else assign_keys (target_of mode ordered)
