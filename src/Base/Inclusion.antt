-- ===== src/Base/Inclusion.antt =====
-- Inclusion between lists: every item of the one is an item of the other.
use mathlib.Core.Logic.{inl, inr}
use mathlib.Core.List.{List, [], ◌++◌}
use mathlib.Core.List.Memᴰ
use mathlib.Core.List.{Memᴰ}

module _ {ℓ} {A : Type ℓ} where
  abbrev pub Sub : List A → List A → Type ℓ
  Sub xs ys = (a : A) → Memᴰ a xs → Memᴰ a ys

  pub Sub-append_right : {xs ys : List A} (zs : List A) → Sub xs ys → Sub xs (ys ++ zs)
  Sub-append_right zs h a m = Memᴰ.append_left zs (h a m)

  -- Both sides grow by the same items.
  pub Sub-grow : (xs ys zs : List A) → Sub xs ys → Sub (xs ++ zs) (ys ++ zs)
  Sub-grow xs ys zs h a m = elim (Memᴰ.append_cases xs m) [
    | inl l ↦ Memᴰ.append_left zs (h a l)
    | inr r ↦ Memᴰ.append_right ys r
  ]

  -- The right side grows in the middle.
  pub Sub-insert : (xs ys ws zs : List A) → Sub xs (ys ++ zs) → Sub xs ((ys ++ ws) ++ zs)
  Sub-insert xs ys ws zs h a m = elim (Memᴰ.append_cases ys (h a m)) [
    | inl l ↦ Memᴰ.append_left zs (Memᴰ.append_left ws l)
    | inr r ↦ Memᴰ.append_right (ys ++ ws) r
  ]

  pub Sub-append_nil : {xs : List A} (ys : List A) → Sub xs (ys ++ []) → Sub xs ys
  Sub-append_nil ys h a m = elim (Memᴰ.append_cases ys (h a m)) [
    | inl l ↦ l
    | inr r ↦ absurd (Memᴰ.not-nil r)
  ]
