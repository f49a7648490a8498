-- ===== src/Billing/Grants.antt =====
-- What the two statements on `entitlements` do to team seats (apps/server/src/billing/entitlements.ts).
use whiteboard_ai.Base.{
  ℕ, ◌≡◌, refl, ◌∙◌, inl, inr, Bool, true, false, ◌&&◌, not, Option, none, some, List, [], ◌∷◌,
  arith, any, any-append, ltb, ◌==◌, ==_iff, Bool-cases, Option-cases, if◌then◌else◌,
}
use whiteboard_ai.Entitlements.{
  EntitlementGrant, ValidUntil, never, open_ended, until, team_seat, is_grant_active,
}
use whiteboard_ai.Billing.{
  GrantRow, GrantInput, SubscriptionRow, has_key, runs_after, inserted_row, updated_row, ended_row,
  update_where, upsert_grant, end_grant, give_or_end, seat_of,
}

active_iff : (g : EntitlementGrant) (now : ℕ) → is_grant_active g now ≡ runs_after now g.valid_until
unfolding is_grant_active
active_iff g now = elim (Option-cases g.valid_until) [ inl n ↦ rw n refl | inr (t, e) ↦ rw e refl ]

module _ (sub now : ℕ) where
  abbrev pub is_seat : ℕ → GrantRow → Bool
  is_seat user r = has_key user team_seat sub r && is_grant_active r.grant now

  -- The user has a seat of the subscription, which runs on after `now`.
  abbrev pub has_seat : ℕ → List GrantRow → Bool
  has_seat user rows = any (is_seat user) rows

  end_row :
      (u v : ℕ) (r : GrantRow)
      → is_seat u (
          if has_key v team_seat sub r && runs_after now r.grant.valid_until
          then ended_row now r
          else r)
        ≡ (is_seat u r && not (v == u))
  end_row u v r =
      let old = active_iff r.grant now in
      let new = active_iff (ended_row now r).grant now in
      elim (Bool-cases (v == u)) [
        | inl t ↦
            let same : v ≡ u = (==_iff _ _).0 t in
            rw same (
              let here = (==_iff u u).1 refl in
              elim (Bool-cases (has_key u team_seat sub r && runs_after now r.grant.valid_until)) [
                | inl k ↦ rw (k, here) (ground arith)
                | inr k ↦ rw (k, here) (ground arith)
              ])
        | inr f ↦
            elim (Bool-cases (has_key v team_seat sub r && runs_after now r.grant.valid_until)) [
              | inl k ↦
                  let mine : r.user_id ≡ v = (==_iff _ _).0 (ground arith) in
                  let other : (r.user_id == u) ≡ false = rw mine f in rw (k, f, other) refl
              | inr k ↦ rw (k, f) (ground arith)
            ]
      ]

  pub has_seat-end_grant :
      (u v : ℕ) (rows : List GrantRow)
      → has_seat u (end_grant v team_seat sub now rows) ≡ (has_seat u rows && not (v == u))
  unfolding end_grant
  has_seat-end_grant u v [] = refl
  has_seat-end_grant u v (r ∷ rows) =
      let rest = has_seat-end_grant u v rows in
      let first = end_row u v r in rw first (rw rest (ground arith))

module _ (s : SubscriptionRow) (org now v : ℕ) (end : Option ℕ) where
  abbrev input : GrantInput
  input = record (seat_of s org v) { valid_until = end }

  abbrev mine : GrantRow → Bool
  mine = has_key v team_seat s.id

  -- The row of the user `v`, after the update.
  update_own :
      (r : GrantRow)
      → is_seat s.id now v (if mine r then updated_row input r else r)
        ≡ (mine r && runs_after now end)
  update_own r =
      let new = active_iff (updated_row input r).grant now in
      elim (Bool-cases (mine r)) [ inl k ↦ rw k (ground arith) | inr k ↦ rw k (ground arith) ]

  update_other :
      (u : ℕ) (r : GrantRow)
      → (v == u) ≡ false
      → is_seat s.id now u (if mine r then updated_row input r else r) ≡ is_seat s.id now u r
  update_other u r f = elim (Bool-cases (mine r)) [
    | inl k ↦
        let his : r.user_id ≡ v = (==_iff _ _).0 (ground arith) in
        let other : (r.user_id == u) ≡ false = rw his f in rw (k, other) refl
    | inr k ↦ rw k refl
  ]

  updates_own :
      (rows : List GrantRow)
      → has_seat s.id now v (update_where mine (updated_row input) rows)
        ≡ (any mine rows && runs_after now end)
  updates_own [] = refl
  updates_own (r ∷ rows) = rw (update_own r) (rw (updates_own rows) (ground arith))

  updates_other :
      (u : ℕ) (rows : List GrantRow)
      → (v == u) ≡ false
      → has_seat s.id now u (update_where mine (updated_row input) rows) ≡ has_seat s.id now u rows
  updates_other u [] f = refl
  updates_other u (r ∷ rows) f = rw (update_other u r f) (rw (updates_other u rows f) refl)

  none_of_mine : (rows : List GrantRow) → any mine rows ≡ false → has_seat s.id now v rows ≡ false
  none_of_mine [] n = refl
  none_of_mine (r ∷ rows) n = let rest = none_of_mine rows (ground arith) in ground arith

  pub has_seat-upsert_grant :
      (u : ℕ) (rows : List GrantRow)
      → has_seat s.id now u (upsert_grant input rows)
        ≡ (if v == u then runs_after now end else has_seat s.id now u rows)
  unfolding upsert_grant
  has_seat-upsert_grant u rows = elim (Bool-cases (any mine rows)) [
    | inl k ↦ rw k (elim (Bool-cases (v == u)) [
      | inl t ↦
          let same : v ≡ u = (==_iff _ _).0 t in
          rw (← same) (rw ((==_iff v v).1 refl) (updates_own rows ∙ rw k refl))
      | inr f ↦ rw f (updates_other u rows f)
    ])
    | inr k ↦ rw k (
        any-append (is_seat s.id now u) rows (inserted_row input ∷ [])
        ∙ (let new = active_iff (inserted_row input).grant now in
            elim (Bool-cases (v == u)) [
              | inl t ↦
                  let same : v ≡ u = (==_iff _ _).0 t in
                  rw (← same) (
                    let here = (==_iff v v).1 refl in
                    let before = none_of_mine rows k in
                    let key = (==_iff s.id s.id).1 refl in rw (here, key, before) (ground arith))
              | inr f ↦ rw f (ground arith)
            ]))
  ]

-- Whether what a subscription gives runs on after `now`.
abbrev pub runs_on : ℕ → ValidUntil → Bool
runs_on now never = false
runs_on now open_ended = true
runs_on now (until t) = ltb now t

pub has_seat-give_or_end :
    (s : SubscriptionRow) (end : ValidUntil) (org now u v : ℕ) (rows : List GrantRow)
    → has_seat s.id now u (give_or_end end (seat_of s org v) now rows)
      ≡ (if v == u then runs_on now end else has_seat s.id now u rows)
has_seat-give_or_end s never org now u v rows =
    let h = has_seat-end_grant s.id now u v rows in ground arith
has_seat-give_or_end s open_ended org now u v rows = has_seat-upsert_grant s org now v none u rows
has_seat-give_or_end s (until t) org now u v rows =
    has_seat-upsert_grant s org now v (some t) u rows
