-- ===== src/Entitlements/Checks/Keep.antt =====
-- Which boards and editor seats stay (packages/shared/src/entitlements/checks.ts). It is assumed
-- that `localeCompare` orders the ids: `locale` below.
use whiteboard_ai.Base.{
  ℕ, ◌<◌, ◌≡◌, ◌⊎◌, inl, inr, sym, subst, ◌∙◌, ap, Bool, true, false, some, List, ◌++◌, All,
  All-map, Perm, take, drop, length, min, take-append-drop, length-take, sort, sort-perm,
  length-sort, sort-Sorted, Sorted-split, IsOrder, arith, is_none, ltb, Bool-cases, ◌-◌,
}
use whiteboard_ai.Entitlements.{Entitlement}
use whiteboard_ai.Entitlements.Checks.{
  Board, Seat, Split, board_before, boards_to_keep_editable, seat_before, seats_to_keep_active,
  editor_seats_for_others,
}

-- Nothing is lost, `n` items are kept (all where there are fewer), and each of them stands to each
-- of the rest as `StaysAhead` says.
pub record Keeps {A : Type 0} (StaysAhead : A → A → Type 0) (n : ℕ) (items : List A) (s : Split A)
    : Type 0 where
  pub nothing_lost : Perm items (s.kept ++ s.rest)
  pub count : length s.kept ≡ min n (length items)
  pub first : All (λ k. All (StaysAhead k) s.rest) s.kept

Keeps-sort :
    {A : Type 0} (before : A → A → Bool) (StaysAhead : A → A → Type 0)
    → IsOrder before
    → ((k r : A) → before r k ≡ false → StaysAhead k r)
    → (n : ℕ) (items : List A)
    → Keeps StaysAhead n items
        (record { kept = take n (sort before items); rest = drop n (sort before items) })
Keeps-sort before StaysAhead o ahead n items = record {
  nothing_lost =
      subst (Perm items) (sym (take-append-drop n (sort before items))) (sort-perm before items);
  count = length-take n _ ∙ ap (min n) (length-sort before items);
  first =
      All-map _ _ _ (λ k h. All-map _ _ _ (ahead k) h)
        (Sorted-split before n _ (sort-Sorted before o items));
}

compare-cases : (m n : ℕ) → (m < n) ⊎ ((m ≡ n) ⊎ (n < m))
compare-cases m n = elim (Bool-cases (ltb m n)) [
  | inl a ↦ inl (ground arith)
  | inr a ↦ elim (Bool-cases (ltb n m)) [
    | inl b ↦ inr (inr (ground arith))
    | inr b ↦ inr (inl (ground arith))
  ]
]

module _ (locale_before : ℕ → ℕ → Bool) where
  -- A board that stays editable, and one that is locked: the one that stays was not locked where the
  -- other was; where both were, or neither, it was updated later, or at the same time and its id does
  -- not come after the other's.
  abbrev pub BoardAhead : Board → Board → Type 0
  BoardAhead k r =
      ((is_none k.locked_at ≡ true) × (is_none r.locked_at ≡ false))
      ⊎ ((is_none k.locked_at ≡ is_none r.locked_at)
          × ((r.updated_at < k.updated_at)
              ⊎ ((r.updated_at ≡ k.updated_at) × (locale_before r.id k.id ≡ false))))

  -- A seat that stays active, and one that is suspended: it was claimed earlier, or at the same time
  -- and its user does not come after the other.
  abbrev pub SeatAhead : Seat → Seat → Type 0
  SeatAhead k r =
      (k.claimed_at < r.claimed_at)
      ⊎ ((k.claimed_at ≡ r.claimed_at) × (locale_before r.user_id k.user_id ≡ false))

  later_or_same :
      (k r : Board)
      → is_none k.locked_at ≡ is_none r.locked_at
      → board_before locale_before r k ≡ false
      → (r.updated_at < k.updated_at)
        ⊎ ((r.updated_at ≡ k.updated_at) × (locale_before r.id k.id ≡ false))
  unfolding board_before
  later_or_same k r same h = elim (compare-cases r.updated_at k.updated_at) [
    | inl lt ↦ inl lt
    | inr (inl e) ↦ inr (e, ground arith)
    | inr (inr gt) ↦ absurd (ground arith)
  ]

  board_ahead : (k r : Board) → board_before locale_before r k ≡ false → BoardAhead k r
  unfolding board_before
  board_ahead k r h = elim (Bool-cases (is_none k.locked_at)) [
    | inl a ↦ elim (Bool-cases (is_none r.locked_at)) [
      | inl b ↦ let same = a ∙ sym b in inr (same, later_or_same k r same h)
      | inr b ↦ inl (a, b)
    ]
    | inr a ↦ elim (Bool-cases (is_none r.locked_at)) [
      | inl b ↦ absurd (ground arith)
      | inr b ↦ let same = a ∙ sym b in inr (same, later_or_same k r same h)
    ]
  ]

  seat_ahead : (k r : Seat) → seat_before locale_before r k ≡ false → SeatAhead k r
  unfolding seat_before
  seat_ahead k r h = elim (compare-cases k.claimed_at r.claimed_at) [
    | inl lt ↦ inl lt
    | inr (inl e) ↦ inr (e, ground arith)
    | inr (inr gt) ↦ absurd (ground arith)
  ]

module _ (locale_before : ℕ → ℕ → Bool) (locale : IsOrder locale_before) where
  board_before-IsOrder : IsOrder (board_before locale_before)
  unfolding board_before
  board_before-IsOrder = record {
    asym = λ a b h. ground (arith, locale.asym a.id b.id);
    trans = λ a b c h k. ground (arith, locale.trans a.id b.id c.id);
  }

  seat_before-IsOrder : IsOrder (seat_before locale_before)
  unfolding seat_before
  seat_before-IsOrder = record {
    asym = λ a b h. ground (arith, locale.asym a.user_id b.user_id);
    trans = λ a b c h k. ground (arith, locale.trans a.user_id b.user_id c.user_id);
  }

  -- Under a limit of `n` boards every board is either kept or locked, and exactly `n` stay editable,
  -- or all where there are fewer. Those are the boards that were not locked before those that were,
  -- and among either the ones updated last, with ties decided by the ids.
  pub boards_to_keep_editable-Keeps :
      (boards : List Board) (n : ℕ)
      → Keeps
          (BoardAhead locale_before)
          n
          boards
          (boards_to_keep_editable locale_before boards (some n))
  unfolding boards_to_keep_editable
  boards_to_keep_editable-Keeps boards n =
      Keeps-sort _ _ board_before-IsOrder (board_ahead locale_before) n boards

  -- Every editor seat is either active or suspended, and as many stay active as the owner's plan has
  -- editors on a board less the owner, or all where there are fewer. Those are the earliest claimed
  -- ones, with ties decided by the users.
  pub seats_to_keep_active-Keeps :
      (seats : List Seat) (owner : Entitlement)
      → Keeps
          (SeatAhead locale_before)
          (owner.limits.editors_per_board - 1)
          seats
          (seats_to_keep_active locale_before seats owner)
  unfolding seats_to_keep_active editor_seats_for_others
  seats_to_keep_active-Keeps seats owner =
      Keeps-sort _ _ seat_before-IsOrder (seat_ahead locale_before) _ seats
