-- ===== src/ZOrder/Keys.antt =====
-- Which shapes get new keys.
use whiteboard_ai.Base.{
  ℕ, ◌≤◌, ◌≡◌, ◌⊎◌, Bool, true, false, Option, none, some, List, [], ◌∷◌, ◌++◌, map, filter, length,
  is_empty, All,
}
use whiteboard_ai.ZOrder.{Ordered, Assigned, assigned, must_renumber, thrown, is_tight}

abbrev pub ids_of : List Ordered → List ℕ
ids_of xs = map (λ s. s.id) xs

abbrev pub keyed : List (ℕ × ℕ) → List ℕ
keyed keys = map (λ k. k.0) keys

module _ (moves : Ordered → Bool) where
  -- A run of shapes that move stands between two that stay and leave no key between them.
  pub record HasTightRun (target : List Ordered) : Type 0 where
    pub before : List Ordered
    pub below : Ordered
    pub run : List Ordered
    pub above : Ordered
    pub after : List Ordered
    pub splits : target ≡ before ++ ((below ∷ run) ++ (above ∷ after))
    pub run_moves : All (λ s. moves s ≡ true) run
    pub run_there : is_empty run ≡ false
    pub below_stays : moves below ≡ false
    pub above_stays : moves above ≡ false
    pub no_room : above.z_index ≤ below.z_index

  -- The key before the loop's place is that of the last shape that it passed, or there is none.
  IsBefore : Option ℕ → List Ordered → Type 0
  IsBefore before passed =
      (before ≡ none)
      ⊎ ((pre : List Ordered) × (a : Ordered) × (passed ≡ pre ++ a ∷ [])
          × (moves a ≡ false)
          × (before ≡ some a.z_index))

  module _ (keys_between : Option ℕ → Option ℕ → ℕ → Option (List ℕ))
      (answers : (a b : Option ℕ) (n : ℕ)
        → is_tight moves a b ≡ false
        → (keys : List ℕ) × (keys_between a b n ≡ some keys) × (length keys ≡ n)) where
    -- What the loop makes of the rest of the target.
    abbrev Fits : List Ordered → List Ordered → Assigned → Type 0
    Fits target items (assigned keys) = keyed keys ≡ ids_of (filter moves items)
    Fits target items must_renumber = HasTightRun target
    Fits target items thrown = ⊥
