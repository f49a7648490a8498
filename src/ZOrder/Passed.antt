-- ===== src/ZOrder/Passed.antt =====
-- How far each shape goes in a reorder (packages/shared/src/board/zorder.ts).
use whiteboard_ai.Base.{
  ℕ, suc, ◌+◌, ◌-◌, ◌≤◌, ◌≡◌, inl, inr, refl, ap, ◌∙◌, Bool, true, false, not, List, [], ◌∷◌, ◌++◌,
  append-nil, map, filter, length, min, reverse, length-append, All-map, if◌then◌else◌, arith,
  Bool-cases, All,
}
use whiteboard_ai.ZOrder.{
  Ordered, ReorderMode, front, back, forward, backward, step_past, step_forward, target_of,
}
use whiteboard_ai.ZOrder.Target.{
  target_keeps_order, reverse-reverse, filter-reverse, filter-step_forward, filter-filter,
}

-- A reorder moves a shape that has `k` of the `n` shapes that stay below it past this many of them.
abbrev pub passed : ReorderMode → ℕ → ℕ → ℕ
passed front n k = n
passed back n k = 0
passed forward n k = min (suc k) n
passed backward n k = k - 1

map-append : (f : ℕ → ℕ) (xs ys : List ℕ) → map f (xs ++ ys) ≡ map f xs ++ map f ys
map-append f [] ys = refl
map-append f (x ∷ xs) ys = ap (◌∷◌ (f x)) (map-append f xs ys)

map-map : (f g : ℕ → ℕ) (xs : List ℕ) → map f (map g xs) ≡ map (λ k. f (g k)) xs
map-map f g [] = refl
map-map f g (x ∷ xs) = ap (◌∷◌ (f (g x))) (map-map f g xs)

map-agrees : (f g : ℕ → ℕ) (xs : List ℕ) → All (λ k. f k ≡ g k) xs → map f xs ≡ map g xs
map-agrees f g [] h = refl
map-agrees f g (x ∷ xs) h = ap (λ k. k ∷ map f xs) h.0 ∙ ap (◌∷◌ (g x)) (map-agrees f g xs h.1)

map-reverse : (f : ℕ → ℕ) (xs : List ℕ) → map f (reverse xs) ≡ reverse (map f xs)
map-reverse f [] = refl
map-reverse f (x ∷ xs) =
    map-append f (reverse xs) (x ∷ []) ∙ ap (λ ys. ys ++ f x ∷ []) (map-reverse f xs)

length-reverse : {A : Type 0} (xs : List A) → length (reverse xs) ≡ length xs
length-reverse [] = refl
length-reverse (x ∷ xs) =
    let rest = length-reverse xs in
    let all = length-append (reverse xs) (x ∷ []) in omega (arith, rest, all)

module _ (moves : Ordered → Bool) where
  abbrev pub stayers : List Ordered → List Ordered
  stayers xs = filter (λ s. not (moves s)) xs

  -- For each shape that moves, from the bottom: how many that stay are below it, with `k` more.
  abbrev pub below_from : ℕ → List Ordered → List ℕ
  below_from k [] = []
  below_from k (x ∷ xs) = if moves x then k ∷ below_from k xs else below_from (suc k) xs

  below_from-append :
      (k : ℕ) (xs ys : List Ordered)
      → below_from k (xs ++ ys) ≡ below_from k xs ++ below_from (k + length (stayers xs)) ys
  below_from-append k [] ys = ap (λ j. below_from j ys) (omega arith)
  below_from-append k (x ∷ xs) ys = elim (Bool-cases (moves x)) [
    | inl t ↦ rw t (ap (◌∷◌ k) (below_from-append k xs ys))
    | inr f ↦ rw f (
        below_from-append (suc k) xs ys
        ∙ ap (λ j. below_from (suc k) xs ++ below_from j ys) (omega arith))
  ]

  below_from-stayers : (k : ℕ) (xs : List Ordered) → below_from k (stayers xs) ≡ []
  below_from-stayers k [] = refl
  below_from-stayers k (x ∷ xs) = elim (Bool-cases (moves x)) [
    | inl t ↦ rw t (below_from-stayers k xs)
    | inr f ↦ rw f (rw f (below_from-stayers (suc k) xs))
  ]

  -- With all that stay on one side.
  below_from-movers :
      (k i : ℕ) (xs : List Ordered)
      → below_from k (filter moves xs) ≡ map (λ j. k) (below_from i xs)
  below_from-movers k i [] = refl
  below_from-movers k i (x ∷ xs) = elim (Bool-cases (moves x)) [
    | inl t ↦ rw t (rw t (ap (◌∷◌ k) (below_from-movers k i xs)))
    | inr f ↦ rw f (below_from-movers k (suc i) xs)
  ]

  abbrev begins_moving : List Ordered → Bool
  begins_moving [] = false
  begins_moving (x ∷ xs) = moves x

  -- The number of those that stay is kept.
  stayers-step_forward :
      (xs : List Ordered) → length (stayers (step_forward moves xs)) ≡ length (stayers xs)
  stayers-step_forward xs =
      ap length (filter-step_forward moves (λ s. not (moves s)) (λ x y t. ground arith) xs)

  -- The shapes begin with one that moves only where none stays.
  step_forward_begins :
      (xs : List Ordered)
      → begins_moving (step_forward moves xs) ≡ true
      → length (stayers (step_forward moves xs)) ≡ 0
  unfolding step_forward
  step_forward_begins [] h = absurd (ground arith)
  step_forward_begins (x ∷ xs) h = begins x (step_forward moves xs) (step_forward_begins xs) h
    where
      begins :
          (x : Ordered) (ys : List Ordered)
          → (begins_moving ys ≡ true → length (stayers ys) ≡ 0)
          → begins_moving (step_past moves x ys) ≡ true
          → length (stayers (step_past moves x ys)) ≡ 0
      begins x [] last h = rw h refl
      begins x (y ∷ ys) last h = elim (Bool-cases (moves x)) [
        | inl t ↦ elim (Bool-cases (moves y)) [
          | inl u ↦ let none_stays = last u in rw (t, u) (rw t (rw u (rw u at none_stays)))
          | inr f ↦ absurd (let b = rw (t, f) at h in ground arith)
        ]
        | inr f ↦ absurd (let b = rw f at h in ground arith)
      ]

  below_from-step_past :
      (k : ℕ) (x : Ordered) (ys : List Ordered)
      → moves x ≡ true
      → (begins_moving ys ≡ true → length (stayers ys) ≡ 0)
      → below_from k (step_past moves x ys)
        ≡ min (suc k) (k + length (stayers ys)) ∷ below_from k ys
  below_from-step_past k x [] t last =
      let low : k ≡ min (suc k) (k + 0) = omega arith in rw t (ap (λ j. j ∷ []) low)
  below_from-step_past k x (y ∷ ys) t last = elim (Bool-cases (moves y)) [
    | inl u ↦
        let none_stays = rw u at (last u) in
        let low : k ≡ min (suc k) (k + length (stayers ys)) = omega (arith, none_stays) in
        rw (t, u) (rw t (rw u (ap (λ j. j ∷ k ∷ below_from k ys) low)))
    | inr f ↦
        let low : suc k ≡ min (suc k) (k + suc (length (stayers ys))) = omega arith in
        rw (t, f) (rw f (rw t (ap (λ j. j ∷ below_from (suc k) ys) low)))
  ]

  below_from-forward :
      (k : ℕ) (xs : List Ordered)
      → below_from k (step_forward moves xs)
        ≡ map (λ j. min (suc j) (k + length (stayers xs))) (below_from k xs)
  unfolding step_forward
  below_from-forward k [] = refl
  below_from-forward k (x ∷ xs) = elim (Bool-cases (moves x)) [
    | inl t ↦
        let step = below_from-step_past k x (step_forward moves xs) t (step_forward_begins xs) in
        let same = ap (λ n. min (suc k) (k + n)) (stayers-step_forward xs) in
        step
        ∙ rw t (
            ap (λ j. j ∷ below_from k (step_forward moves xs)) same
            ∙ ap (◌∷◌ (min (suc k) (k + length (stayers xs)))) (below_from-forward k xs))
    | inr f ↦
        let shift : suc k + length (stayers xs) ≡ k + suc (length (stayers xs)) = omega arith in
        stay x (step_forward moves xs) f
        ∙ below_from-forward (suc k) xs
        ∙ rw f (ap (λ n. map (λ j. min (suc j) n) (below_from (suc k) xs)) shift)
  ]
    where
      stay :
          (x : Ordered) (ys : List Ordered)
          → moves x ≡ false
          → below_from k (step_past moves x ys) ≡ below_from (suc k) ys
      stay x [] f = rw f refl
      stay x (y ∷ ys) f = rw f (rw f refl)

  stayers-reverse : (xs : List Ordered) → length (stayers (reverse xs)) ≡ length (stayers xs)
  stayers-reverse xs =
      ap length (filter-reverse (λ s. not (moves s)) xs) ∙ length-reverse (stayers xs)

  -- Seen from the top, what was below is above.
  below_from-reverse :
      (k : ℕ) (xs : List Ordered)
      → below_from 0 (reverse xs)
        ≡ reverse (map (λ j. (k + length (stayers xs)) - j) (below_from k xs))
  below_from-reverse k [] = refl
  below_from-reverse k (x ∷ xs) =
      let parts = below_from-append 0 (reverse xs) (x ∷ []) in
      let count = stayers-reverse xs in
      elim (Bool-cases (moves x)) [
        | inl t ↦
            let last : 0 + length (stayers (reverse xs)) ≡ (k + length (stayers xs)) - k =
              omega (arith, count) in
            parts
            ∙ rw t (
                ap (λ ys. ys ++ (0 + length (stayers (reverse xs))) ∷ []) (below_from-reverse k xs)
                ∙ ap
                    (λ n.
                      reverse (map (λ j. (k + length (stayers xs)) - j) (below_from k xs))
                      ++ n ∷ [])
                    last)
        | inr f ↦
            let shift : suc k + length (stayers xs) ≡ k + suc (length (stayers xs)) = omega arith in
            parts
            ∙ rw f (
                append-nil (below_from 0 (reverse xs))
                ∙ below_from-reverse (suc k) xs
                ∙ ap (λ n. reverse (map (λ j. n - j) (below_from (suc k) xs))) shift)
      ]

  below_from-le :
      (k : ℕ) (xs : List Ordered) → All (λ j. j ≤ k + length (stayers xs)) (below_from k xs)
  below_from-le k [] = tt
  below_from-le k (x ∷ xs) = elim (Bool-cases (moves x)) [
    | inl t ↦ rw t (omega arith, below_from-le k xs)
    | inr f ↦
        rw f
          (All-map _ _ (below_from (suc k) xs) (λ j h. omega (arith, h)) (below_from-le (suc k) xs))
  ]

  below_from-backward :
      (xs : List Ordered)
      → below_from 0 (reverse (step_forward moves (reverse xs)))
        ≡ map (λ j. j - 1) (below_from 0 xs)
  below_from-backward xs =
      let n = length (stayers xs) in
      let ys = reverse xs in
      let count : length (stayers ys) ≡ n = stayers-reverse xs in
      let count' : length (stayers (step_forward moves ys)) ≡ n = stayers-step_forward ys ∙ count in
      below_from-reverse 0 (step_forward moves ys)
      ∙ ap (λ m. reverse (map (λ j. (0 + m) - j) (below_from 0 (step_forward moves ys)))) count'
      ∙ ap (λ l. reverse (map (λ j. (0 + n) - j) l)) (below_from-forward 0 ys)
      ∙ ap
          (λ m. reverse (map (λ j. (0 + n) - j) (map (λ j. min (suc j) (0 + m)) (below_from 0 ys))))
          count
      ∙ ap reverse (map-map (λ j. (0 + n) - j) (λ j. min (suc j) (0 + n)) (below_from 0 ys))
      ∙ ap (λ l. reverse (map (λ j. (0 + n) - min (suc j) (0 + n)) l)) (below_from-reverse 0 xs)
      ∙ ap reverse (
          map-reverse (λ j. (0 + n) - min (suc j) (0 + n))
            (map (λ j. (0 + n) - j) (below_from 0 xs)))
      ∙ reverse-reverse
          (map (λ j. (0 + n) - min (suc j) (0 + n)) (map (λ j. (0 + n) - j) (below_from 0 xs)))
      ∙ map-map (λ j. (0 + n) - min (suc j) (0 + n)) (λ j. (0 + n) - j) (below_from 0 xs)
      ∙ map-agrees _ _ _
          (All-map _ _ (below_from 0 xs) (λ j h. omega (arith, h)) (below_from-le 0 xs))

  -- A reorder loses and doubles no shape: the shapes that move keep their order among each other, and
  -- so do those that stay. Each one that moves has all of those that stay below it in the mode front,
  -- none in the mode back, one more than it had in the mode forward, up to all, and one less, if it
  -- had any, in the mode backward.
  pub target_of_lem :
      (mode : ReorderMode) (ordered : List Ordered)
      → let target = target_of moves mode ordered in
        (filter moves target ≡ filter moves ordered)
        × (stayers target ≡ stayers ordered)
        × (below_from 0 target
            ≡ map (passed mode (length (stayers ordered))) (below_from 0 ordered))
  unfolding target_of
  target_of_lem mode ordered =
      let (movers, stay) = target_keeps_order moves mode ordered in
      (movers, stay, places mode ordered)
    where
      from_zero : (n : ℕ) → 0 + n ≡ n
      from_zero n = omega arith

      places :
          (mode : ReorderMode) (ordered : List Ordered)
          → below_from 0 (target_of moves mode ordered)
            ≡ map (passed mode (length (stayers ordered))) (below_from 0 ordered)
      places front ordered =
          below_from-append 0 (stayers ordered) (filter moves ordered)
          ∙ ap
              (λ l. l ++ below_from (0 + length (stayers (stayers ordered))) (filter moves ordered))
              (below_from-stayers 0 ordered)
          ∙ ap (λ l. below_from (0 + length l) (filter moves ordered))
              (filter-filter (λ s. not (moves s)) ordered)
          ∙ below_from-movers (0 + length (stayers ordered)) 0 ordered
          ∙ ap (λ n. map (λ j. n) (below_from 0 ordered)) (from_zero (length (stayers ordered)))
      places back ordered =
          below_from-append 0 (filter moves ordered) (stayers ordered)
          ∙ ap (λ l. below_from 0 (filter moves ordered) ++ l)
              (below_from-stayers (0 + length (stayers (filter moves ordered))) ordered)
          ∙ append-nil _
          ∙ below_from-movers 0 0 ordered
      places forward ordered =
          below_from-forward 0 ordered
          ∙ ap (λ n. map (λ j. min (suc j) n) (below_from 0 ordered))
              (from_zero (length (stayers ordered)))
      places backward ordered = below_from-backward ordered
