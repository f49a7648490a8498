-- ===== src/ZOrder/Target.antt =====
-- The order that a reorder aims at.
use whiteboard_ai.Base.{
  ◌≡◌, inl, inr, refl, sym, ap, ◌∙◌, Bool, true, false, not, ◌&&◌, List, [], ◌∷◌, ◌++◌,
  append_assoc, append-nil, filter, filter-append, reverse, arith, Bool-cases,
}
use whiteboard_ai.ZOrder.{
  Ordered, ReorderMode, front, back, forward, backward, step_past, step_forward, target_of,
}

pub reverse-append : {A : Type 0} (xs ys : List A) → reverse (xs ++ ys) ≡ reverse ys ++ reverse xs
reverse-append [] ys = sym (append-nil (reverse ys))
reverse-append (x ∷ xs) ys =
    ap (λ zs. zs ++ x ∷ []) (reverse-append xs ys) ∙ append_assoc (reverse ys) (reverse xs) (x ∷ [])

pub reverse-reverse : {A : Type 0} (xs : List A) → reverse (reverse xs) ≡ xs
reverse-reverse [] = refl
reverse-reverse (x ∷ xs) = reverse-append (reverse xs) (x ∷ []) ∙ ap (◌∷◌ x) (reverse-reverse xs)

pub filter-reverse :
    {A : Type 0} (p : A → Bool) (xs : List A) → filter p (reverse xs) ≡ reverse (filter p xs)
filter-reverse p [] = refl
filter-reverse p (x ∷ xs) =
    let rest = ap (λ zs. zs ++ filter p (x ∷ [])) (filter-reverse p xs) in
    elim (Bool-cases (p x)) [
      | inl t ↦ filter-append p (reverse xs) (x ∷ []) ∙ rest ∙ rw t refl
      | inr f ↦
          filter-append p (reverse xs) (x ∷ []) ∙ rest ∙ rw f (append-nil (reverse (filter p xs)))
    ]

pub filter-filter : {A : Type 0} (p : A → Bool) (xs : List A) → filter p (filter p xs) ≡ filter p xs
filter-filter p [] = refl
filter-filter p (x ∷ xs) = elim (Bool-cases (p x)) [
  | inl t ↦ rw t (rw t (ap (◌∷◌ x) (filter-filter p xs)))
  | inr f ↦ rw f (filter-filter p xs)
]

filter-apart :
    {A : Type 0} (p q : A → Bool) (xs : List A)
    → ((a : A) → (p a && q a) ≡ false)
    → filter p (filter q xs) ≡ []
filter-apart p q [] h = refl
filter-apart p q (x ∷ xs) h =
    let apart = h x in
    elim (Bool-cases (q x)) [
      | inl t ↦ let n : p x ≡ false = ground arith in rw t (rw n (filter-apart p q xs h))
      | inr f ↦ rw f (filter-apart p q xs h)
    ]

-- `keep` tells no shape that moves from those that stay, or all of them.
module _ (moves keep : Ordered → Bool)
    (splits : (x y : Ordered)
      → (moves x && not (moves y)) ≡ true
      → (keep x && keep y) ≡ false) where
  filter-step_past :
      (x : Ordered) (ys : List Ordered) → filter keep (step_past moves x ys) ≡ filter keep (x ∷ ys)
  filter-step_past x [] = refl
  filter-step_past x (y ∷ ys) = elim (Bool-cases (moves x && not (moves y))) [
    | inl t ↦
        let apart = splits x y t in
        elim (Bool-cases (keep x)) [
          | inl a ↦ let b : keep y ≡ false = ground arith in rw (t, a, b) refl
          | inr a ↦ rw (t, a) refl
        ]
    | inr f ↦ rw f refl
  ]

  pub filter-step_forward :
      (xs : List Ordered) → filter keep (step_forward moves xs) ≡ filter keep xs
  unfolding step_forward
  filter-step_forward [] = refl
  filter-step_forward (x ∷ xs) =
      let rest = filter-step_forward xs in
      filter-step_past x (step_forward moves xs)
      ∙ (elim (Bool-cases (keep x)) [ inl t ↦ rw t (ap (◌∷◌ x) rest) | inr f ↦ rw f rest ])

  filter-backward :
      (xs : List Ordered) → filter keep (reverse (step_forward moves (reverse xs))) ≡ filter keep xs
  filter-backward xs =
      filter-reverse keep (step_forward moves (reverse xs))
      ∙ ap reverse (filter-step_forward (reverse xs) ∙ filter-reverse keep xs)
      ∙ reverse-reverse (filter keep xs)

-- Whatever the mode, the shapes that move keep their order among each other, and so do those that
-- stay: none is lost or doubled.
pub target_keeps_order :
    (moves : Ordered → Bool) (mode : ReorderMode) (ordered : List Ordered)
    → (filter moves (target_of moves mode ordered) ≡ filter moves ordered)
      × (filter (λ s. not (moves s)) (target_of moves mode ordered)
          ≡ filter (λ s. not (moves s)) ordered)
unfolding target_of
target_keeps_order moves front ordered = (
  filter-append moves _ _
      ∙ ap (λ xs. xs ++ filter moves (filter moves ordered))
          (filter-apart moves (λ s. not (moves s)) ordered (λ a. ground arith))
      ∙ filter-filter moves ordered,
  filter-append (λ s. not (moves s)) _ _
      ∙ ap (λ xs. filter (λ s. not (moves s)) (filter (λ s. not (moves s)) ordered) ++ xs)
          (filter-apart (λ s. not (moves s)) moves ordered (λ a. ground arith))
      ∙ append-nil _
      ∙ filter-filter (λ s. not (moves s)) ordered,
)
target_keeps_order moves back ordered = (
  filter-append moves _ _
      ∙ ap (λ xs. filter moves (filter moves ordered) ++ xs)
          (filter-apart moves (λ s. not (moves s)) ordered (λ a. ground arith))
      ∙ append-nil _
      ∙ filter-filter moves ordered,
  filter-append (λ s. not (moves s)) _ _
      ∙ ap (λ xs. xs ++ filter (λ s. not (moves s)) (filter (λ s. not (moves s)) ordered))
          (filter-apart (λ s. not (moves s)) moves ordered (λ a. ground arith))
      ∙ filter-filter (λ s. not (moves s)) ordered,
)
target_keeps_order moves forward ordered = (
  filter-step_forward moves moves (λ x y t. ground arith) ordered,
  filter-step_forward moves (λ s. not (moves s)) (λ x y t. ground arith) ordered,
)
target_keeps_order moves backward ordered = (
  filter-backward moves moves (λ x y t. ground arith) ordered,
  filter-backward moves (λ s. not (moves s)) (λ x y t. ground arith) ordered,
)
