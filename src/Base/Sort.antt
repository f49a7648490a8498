-- ===== src/Base/Sort.antt =====
-- `Array.prototype.sort`: a stable sort by a comparator, as insertion, with its laws.
use Prim.Native.Nat.{ℕ, zero, suc}
use mathlib.Core.Path.{◌≡◌, refl, ap, ◌∙◌}
use whiteboard_ai.Base.Lists.{All, All-map, take, drop, length}
use mathlib.Core.Logic.{inl, inr}
use mathlib.Core.Bool.{Bool, true, false}
use mathlib.Core.List.{List, [], ◌∷◌, Perm}
use mathlib.Core.List.Perm
use whiteboard_ai.Base.Tests.{if◌then◌else◌, Bool-cases}

-- `before a b` says that the comparator puts `a` strictly before `b`.
module _ {ℓ} {A : Type ℓ} (before : A → A → Bool) where
  abbrev pub insert : A → List A → List A
  insert a [] = a ∷ []
  insert a (x ∷ xs) = if before x a then x ∷ insert a xs else a ∷ x ∷ xs

  abbrev pub sort : List A → List A
  sort [] = []
  sort (x ∷ xs) = insert x (sort xs)

  pub insert-perm : (a : A) (xs : List A) → Perm (a ∷ xs) (insert a xs)
  insert-perm a [] = Perm.refl _
  insert-perm a (x ∷ xs) = elim (Bool-cases (before x a)) [
    | inl e ↦ rw e (Perm.trans (Perm.swap x a xs) (Perm.cons x (insert-perm a xs)))
    | inr e ↦ rw e (Perm.refl (a ∷ x ∷ xs))
  ]

  pub sort-perm : (xs : List A) → Perm xs (sort xs)
  sort-perm [] = Perm.nil
  sort-perm (x ∷ xs) = Perm.trans (Perm.cons x (sort-perm xs)) (insert-perm x (sort xs))

  length-insert : (a : A) (xs : List A) → length (insert a xs) ≡ suc (length xs)
  length-insert a [] = refl
  length-insert a (x ∷ xs) = elim (Bool-cases (before x a)) [
    | inl e ↦ rw e (ap suc (length-insert a xs))
    | inr e ↦ rw e refl
  ]

  pub length-sort : (xs : List A) → length (sort xs) ≡ length xs
  length-sort [] = refl
  length-sort (x ∷ xs) = length-insert x (sort xs) ∙ ap suc (length-sort xs)

  -- No item comes before an earlier one.
  abbrev pub Sorted : List A → Type 0
  Sorted [] = Unit
  Sorted (x ∷ xs) = All (λ y. before y x ≡ false) xs × Sorted xs

  All-insert {κ} : (P : A → Type κ) (a : A) (xs : List A) → P a → All P xs → All P (insert a xs)
  All-insert P a [] p h = (p, tt)
  All-insert P a (x ∷ xs) p h = elim (Bool-cases (before x a)) [
    | inl e ↦ rw e (h.0, All-insert P a xs p h.1)
    | inr e ↦ rw e (p, h)
  ]

  pub All-split {κ} :
      (P : A → Type κ) (n : ℕ) (xs : List A) → All P xs → All P (take n xs) × All P (drop n xs)
  All-split P zero xs h = (tt, h)
  All-split P (suc n) [] h = (tt, tt)
  All-split P (suc n) (x ∷ xs) h = let (t, d) = All-split P n xs h.1 in ((h.0, t), d)

  -- No item of the rest comes before one of the first `n`.
  pub Sorted-split :
      (n : ℕ) (xs : List A)
      → Sorted xs
      → All (λ k. All (λ r. before r k ≡ false) (drop n xs)) (take n xs)
  Sorted-split zero xs h = tt
  Sorted-split (suc n) [] h = tt
  Sorted-split (suc n) (x ∷ xs) h = ((All-split _ n xs h.0).1, Sorted-split n xs h.1)

  -- What a comparator must satisfy.
  pub record IsOrder : Type ℓ where
    pub asym : (a b : A) → before a b ≡ true → before b a ≡ false
    pub trans : (a b c : A) → before b a ≡ false → before c b ≡ false → before c a ≡ false

  module _ (o : IsOrder) where
    insert-Sorted : (a : A) (xs : List A) → Sorted xs → Sorted (insert a xs)
    insert-Sorted a [] h = (tt, tt)
    insert-Sorted a (x ∷ xs) h = elim (Bool-cases (before x a)) [
      | inl e ↦
          rw e
            (All-insert (λ y. before y x ≡ false) a xs (o.asym x a e) h.0, insert-Sorted a xs h.1)
      | inr e ↦ rw e ((e, All-map _ _ xs (λ y p. o.trans a x y e p) h.0), h)
    ]

    pub sort-Sorted : (xs : List A) → Sorted (sort xs)
    sort-Sorted [] = tt
    sort-Sorted (x ∷ xs) = insert-Sorted x (sort xs) (sort-Sorted xs)

  pub All-sort {κ} : (P : A → Type κ) (xs : List A) → All P xs → All P (sort xs)
  All-sort P [] h = tt
  All-sort P (x ∷ xs) h = All-insert P x (sort xs) h.0 (All-sort P xs h.1)
