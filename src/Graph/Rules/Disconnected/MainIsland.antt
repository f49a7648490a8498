-- ===== src/Graph/Rules/Disconnected/MainIsland.antt =====
-- Which islands the rule reports.
use whiteboard_ai.Base.{
  ℕ, zero, suc, ◌+◌, ◌≤◌, ◌≡◌, ◌⊎◌, inl, inr, refl, sym, subst, true, false, List, [], ◌∷◌, map,
  length, arith, ltb, Bool-cases, All, All-map, Perm,
}
use whiteboard_ai.Base.Perm
use whiteboard_ai.Graph.{DesignGraph, Texts}
use whiteboard_ai.Graph.Index.{islands}
use whiteboard_ai.Graph.Rules.Disconnected.{
  is_larger, main_at, remove_at, first_island, check_island, disconnected_rule,
}

-- No island of the list is larger.
abbrev pub IsLargest : List ℕ → List (List ℕ) → Type 0
IsLargest main all = All (λ i. length i ≤ length main) all

IsLargest-le :
    (a b : List ℕ) (all : List (List ℕ)) → length a ≤ length b → IsLargest a all → IsLargest b all
IsLargest-le a b all h k = All-map _ _ all (λ i l. omega (arith, l, h)) k

module _ (g : DesignGraph) where
  larger-le : (a b : List ℕ) → is_larger g a b ≡ true → length b ≤ length a
  unfolding is_larger
  larger-le a b h = ground arith

  not_larger-le : (a b : List ℕ) → is_larger g a b ≡ false → length a ≤ length b
  unfolding is_larger
  not_larger-le a b h = ground arith

  -- The place that the loop finds: `best`, or that of a larger island further on.
  abbrev IsPlace : ℕ → List ℕ → ℕ → List (List ℕ) → ℕ → Type 0
  IsPlace best main i rest j =
      ((j ≡ best) × IsLargest main rest)
      ⊎ ((d : ℕ) × (found : List ℕ) × (j ≡ i + d)
          × Perm rest (found ∷ remove_at d rest)
          × (length main ≤ length found)
          × IsLargest found rest)

  main_at-IsPlace :
      (best : ℕ) (main : List ℕ) (i : ℕ) (rest : List (List ℕ))
      → IsPlace best main i rest (main_at g best main i rest)
  unfolding main_at remove_at
  main_at-IsPlace best main i [] = inl (refl, tt)
  main_at-IsPlace best main i (island ∷ rest) = elim (Bool-cases (is_larger g island main)) [
    | inl t ↦
        let grows = larger-le island main t in
        rw (t, main_at)
          (elim (main_at-IsPlace i island (suc i) rest) [
            | inl (e, all) ↦ inr (
              zero,
              island,
              omega (arith, e),
              Perm.refl (island ∷ rest),
              grows,
              (omega arith, all),
            )
            | inr (d, found, e, p, l, all) ↦ inr (
              suc d,
              found,
              omega (arith, e),
              Perm.trans (Perm.cons island p) (Perm.swap found island (remove_at d rest)),
              omega (arith, grows, l),
              (l, all),
            )
          ])
    | inr f ↦
        let stays = not_larger-le island main f in
        rw (f, main_at)
          (elim (main_at-IsPlace best main (suc i) rest) [
            | inl (e, all) ↦ inl (e, (stays, all))
            | inr (d, found, e, p, l, all) ↦ inr (
              suc d,
              found,
              omega (arith, e),
              Perm.trans (Perm.cons island p) (Perm.swap found island (remove_at d rest)),
              l,
              (omega (arith, stays, l), all),
            )
          ])
  ]

  main_island :
      (all : List (List ℕ))
      → (ltb (length all) 2 ≡ false)
      → (main : List ℕ) × Perm all (main ∷ remove_at (main_at g 0 (first_island all) 0 all) all)
        × IsLargest main all
  unfolding first_island remove_at
  main_island [] h = absurd (ground arith)
  main_island (x ∷ xs) h = elim (main_at-IsPlace 0 x 0 (x ∷ xs)) [
    | inl (e, all) ↦
        (x, subst (λ j. Perm (x ∷ xs) (x ∷ remove_at j (x ∷ xs))) (sym e) (Perm.refl (x ∷ xs)), all)
    | inr (d, found, e, p, l, all) ↦
        let at : main_at g 0 x 0 (x ∷ xs) ≡ d = omega (arith, e) in
        (found, subst (λ j. Perm (x ∷ xs) (found ∷ remove_at j (x ∷ xs))) (sym at) p, all)
  ]

  -- Where a design has two islands or more, the rule reports all of them but one, each once, and none
  -- is larger than that one.
  pub disconnected_lem :
      (texts : Texts)
      → (ltb (length (islands g)) 2 ≡ false)
      → (main : List ℕ) × (others : List (List ℕ)) × Perm (islands g) (main ∷ others)
        × IsLargest main (islands g)
        × (disconnected_rule texts g ≡ map (check_island texts g) others)
  unfolding disconnected_rule
  disconnected_lem texts h =
      let (main, p, all) = main_island (islands g) h in
      (
        main,
        remove_at (main_at g 0 (first_island (islands g)) 0 (islands g)) (islands g),
        p,
        all,
        rw h refl,
      )
