-- ===== src/Billing/Seats.antt =====
-- Who has a seat of a team's subscription (refreshSubscriptionGrants of apps/server/src/billing/sync.ts).
use whiteboard_ai.Base.{
  ℕ, zero, suc, ◌+◌, ◌-◌, ◌≡◌, ◌⊎◌, refl, ap, subst, ◌∙◌, inl, inr, Bool, true, false, ◌&&◌, not,
  none, some, List, [], ◌∷◌, ◌++◌, arith, filter, any, includes, includes-append, includes-filter,
  take, leb, ◌==◌, ==_iff, Bool-cases, if◌then◌else◌,
}
use whiteboard_ai.Entitlements.{
  EntitlementSource, ValidUntil, never, team, team_seat, subscription_valid_until,
}
use whiteboard_ai.Billing.{
  GrantRow, SubscriptionRow, source_index, has_key, load_grants, update_where, upsert_grant,
  end_grant, give_or_end, seat_of, give_seats, end_seats, holders, team_seats,
  refresh_subscription_grants, inserted_row, updated_row, ended_row, GrantInput, until, open_ended,
}
use whiteboard_ai.Billing.Grants.{
  has_seat, is_seat, has_seat-end_grant, has_seat-give_or_end, runs_on,
}

-- No user is there twice.
abbrev pub Different : List ℕ → Type 0
Different [] = Unit
Different (u ∷ us) = (includes u us ≡ false) × Different us

includes-take : (u n : ℕ) (us : List ℕ) → includes u us ≡ false → includes u (take n us) ≡ false
includes-take u zero us f = refl
includes-take u (suc n) [] f = refl
includes-take u (suc n) (v ∷ us) f = let rest = includes-take u n us (ground arith) in ground arith

abbrev is_team_row : ℕ → GrantRow → Bool
is_team_row sub r =
    source_index r.grant.source == source_index team_seat && r.grant.source_id == sub

module _ (s : SubscriptionRow) (end : ValidUntil) (org now u : ℕ) where
  -- The first of the members take the seats that are left.
  has_seat-give_seats :
      (index : ℕ) (members : List ℕ) (rows : List GrantRow)
      → Different members
      → has_seat s.id now u (give_seats s end org now index members rows) ≡ (
          if includes u members
          then includes u (take (s.quantity - index) members) && runs_on now end
          else has_seat s.id now u rows)
  unfolding give_seats
  has_seat-give_seats index [] rows d = refl
  has_seat-give_seats index (v ∷ vs) rows d =
      let rest =
        has_seat-give_seats (index + 1) vs
          (give_or_end (if leb s.quantity index then never else end) (seat_of s org v) now rows)
          d.1 in
      let first =
        has_seat-give_or_end s (if leb s.quantity index then never else end) org now u v rows in
      let once : (v == u) ≡ true → includes u vs ≡ false =
        λ k. subst (λ w. includes w vs ≡ false) ((==_iff _ _).0 k) d.0 in
      rest
      ∙ rw first (elim (Bool-cases (leb s.quantity index)) [
        | inl t ↦
            let a : s.quantity - index ≡ 0 = ground arith in
            let b : s.quantity - (index + 1) ≡ 0 = ground arith in
            rw (t, a, b)
              (elim (Bool-cases (v == u)) [ inl k ↦ rw (k, once k) refl | inr k ↦ rw k refl ])
        | inr f ↦
            let a : s.quantity - index ≡ suc (s.quantity - (index + 1)) = ground arith in
            rw (f, a)
              (elim (Bool-cases (v == u)) [ inl k ↦ rw (k, once k) refl | inr k ↦ rw k refl ])
      ])

  has_seat-end_seats :
      (members hs : List ℕ) (rows : List GrantRow)
      → has_seat s.id now u (end_seats s.id now members hs rows)
        ≡ (has_seat s.id now u rows && not (includes u hs && not (includes u members)))
  unfolding end_seats
  has_seat-end_seats members [] rows = ground arith
  has_seat-end_seats members (h ∷ hs) rows =
      has_seat-end_seats members hs
        (if includes h members then rows else end_grant h team_seat s.id now rows)
      ∙ elim (Bool-cases (includes h members)) [
        | inl t ↦ rw t (elim (Bool-cases (h == u)) [
          | inl k ↦
              let m : includes u members ≡ true =
                subst (λ w. includes w members ≡ true) ((==_iff _ _).0 k) t in
              rw (k, m) (ground arith)
          | inr k ↦ rw k refl
        ])
        | inr f ↦ rw f (
            rw (has_seat-end_grant s.id now u h rows) (elim (Bool-cases (h == u)) [
              | inl k ↦
                  let m : includes u members ≡ false =
                    subst (λ w. includes w members ≡ false) ((==_iff _ _).0 k) f in
                  rw (k, m) (ground arith)
              | inr k ↦ rw k (ground arith)
            ]))
      ]

  -- Who has a seat is a holder.
  includes-holders :
      (rows : List GrantRow)
      → has_seat s.id now u rows ≡ true
      → includes u (holders s.id rows) ≡ true
  includes-holders [] h = h
  includes-holders (r ∷ rows) h = elim (Bool-cases (is_seat s.id now u r)) [
    | inl t ↦ let team : is_team_row s.id r ≡ true = ground arith in rw team (ground arith)
    | inr f ↦
        let rest = includes-holders rows (ground arith) in
        elim (Bool-cases (is_team_row s.id r)) [ inl k ↦ rw k (ground arith) | inr k ↦ rw k rest ]
  ]

abbrev Away : ℕ → EntitlementSource → ℕ → ℕ → Type 0
Away v source id u = (r : GrantRow) → has_key v source id r ≡ true → (r.user_id == u) ≡ false

module _ (u : ℕ) where
  load-update_where :
      (p : GrantRow → Bool) (f : GrantRow → GrantRow) (rows : List GrantRow)
      → ((r : GrantRow) → p r ≡ true → (r.user_id == u) ≡ false)
      → ((r : GrantRow) → (f r).user_id ≡ r.user_id)
      → load_grants u (update_where p f rows) ≡ load_grants u rows
  load-update_where p f [] away keeps = refl
  load-update_where p f (r ∷ rows) away keeps =
      let rest = load-update_where p f rows away keeps in
      elim (Bool-cases (p r)) [
        | inl k ↦
            let other : ((f r).user_id == u) ≡ false = rw (keeps r) (away r k) in
            rw (k, other, away r k) rest
        | inr k ↦ rw k (elim (Bool-cases (r.user_id == u)) [
          | inl m ↦ rw m (ap (◌∷◌ r.grant) rest)
          | inr m ↦ rw m rest
        ])
      ]

  row_of_other :
      (v : ℕ) (source : EntitlementSource) (id : ℕ) → (v == u) ≡ false → Away v source id u
  row_of_other v source id f r k =
      let his : r.user_id ≡ v = (==_iff _ _).0 (ground arith) in rw his f

  load-end_grant :
      (v : ℕ) (source : EntitlementSource) (id now : ℕ) (rows : List GrantRow)
      → (v == u) ≡ false
      → load_grants u (end_grant v source id now rows) ≡ load_grants u rows
  unfolding end_grant
  load-end_grant v source id now rows f =
      load-update_where _ (ended_row now) rows (λ r k. row_of_other v source id f r (ground arith))
        (λ r. refl)

  load-push :
      (rows : List GrantRow) (r : GrantRow)
      → (r.user_id == u) ≡ false
      → load_grants u (rows ++ r ∷ []) ≡ load_grants u rows
  load-push [] r f = rw f refl
  load-push (x ∷ rows) r f = elim (Bool-cases (x.user_id == u)) [
    | inl m ↦ rw m (ap (◌∷◌ x.grant) (load-push rows r f))
    | inr m ↦ rw m (load-push rows r f)
  ]

  load-upsert_grant :
      (g : GrantInput) (rows : List GrantRow)
      → (g.user_id == u) ≡ false
      → load_grants u (upsert_grant g rows) ≡ load_grants u rows
  unfolding upsert_grant
  load-upsert_grant g rows f =
      elim (Bool-cases (any (has_key g.user_id g.source g.source_id) rows)) [
        | inl k ↦ rw k (
            load-update_where _ (updated_row g) rows (row_of_other g.user_id g.source g.source_id f)
              (λ r. refl))
        | inr k ↦ rw k (load-push rows (inserted_row g) f)
      ]

  load-give_or_end :
      (end : ValidUntil) (g : GrantInput) (now : ℕ) (rows : List GrantRow)
      → (g.user_id == u) ≡ false
      → load_grants u (give_or_end end g now rows) ≡ load_grants u rows
  load-give_or_end never g now rows f = load-end_grant g.user_id g.source g.source_id now rows f
  load-give_or_end open_ended g now rows f =
      load-upsert_grant (record g { valid_until = none }) rows f
  load-give_or_end (until t) g now rows f =
      load-upsert_grant (record g { valid_until = some t }) rows f

  load-give_seats :
      (s : SubscriptionRow) (end : ValidUntil) (org now index : ℕ) (members : List ℕ)
      (rows : List GrantRow)
      → includes u members ≡ false
      → load_grants u (give_seats s end org now index members rows) ≡ load_grants u rows
  unfolding give_seats
  load-give_seats s end org now index [] rows f = refl
  load-give_seats s end org now index (v ∷ vs) rows f =
      load-give_seats s end org now (index + 1) vs _ (ground arith)
      ∙ load-give_or_end (if leb s.quantity index then never else end) (seat_of s org v) now rows
          (ground arith)

  load-end_seats :
      (sub now : ℕ) (members hs : List ℕ) (rows : List GrantRow)
      → (includes u hs && not (includes u members)) ≡ false
      → load_grants u (end_seats sub now members hs rows) ≡ load_grants u rows
  unfolding end_seats
  load-end_seats sub now members [] rows f = refl
  load-end_seats sub now members (h ∷ hs) rows f =
      load-end_seats sub now members hs _ (ground arith) ∙ elim (Bool-cases (includes h members)) [
        | inl t ↦ rw t refl
        | inr n ↦ rw n (elim (Bool-cases (h == u)) [
          | inl k ↦
              let m : includes u members ≡ false =
                subst (λ w. includes w members ≡ false) ((==_iff _ _).0 k) n in
              absurd (ground arith)
          | inr k ↦ load-end_grant h team_seat sub now rows k
        ])
      ]

seats_hold :
    (s : SubscriptionRow) (org now u : ℕ) (members : List ℕ) (rows : List GrantRow)
    → Different members
    → has_seat s.id now u (team_seats s org now members rows).0
      ≡ (includes u (take s.quantity members) && runs_on now (subscription_valid_until s.state))
seats_hold s org now u members rows d =
    let end = subscription_valid_until s.state in
    let given = give_seats s end org now 0 members rows in
    let ended = has_seat-end_seats s end org now u members (holders s.id given) given in
    let given_to = has_seat-give_seats s end org now u 0 members rows d in
    let all : s.quantity - 0 ≡ s.quantity = omega arith in
    let given_to' = rw all at given_to in
    ended ∙ elim (Bool-cases (includes u members)) [
      | inl t ↦ let g = rw t at given_to' in ground arith
      | inr f ↦
          let g = rw f at given_to' in
          let no_seat = includes-take u s.quantity members f in
          elim (Bool-cases (has_seat s.id now u given)) [
            | inl k ↦ let held = includes-holders s end org now u given k in ground arith
            | inr k ↦ ground arith
          ]
    ]

others_same :
    (s : SubscriptionRow) (org now u : ℕ) (members : List ℕ) (rows : List GrantRow)
    → let (rows', touched) = team_seats s org now members rows in
      (includes u touched ≡ true) ⊎ (load_grants u rows' ≡ load_grants u rows)
others_same s org now u members rows =
    let end = subscription_valid_until s.state in
    let given = give_seats s end org now 0 members rows in
    let hs = holders s.id given in
    let both = includes-append u members (filter (λ u. not (includes u members)) hs) in
    let left = includes-filter (λ u. not (includes u members)) u hs in
    elim (Bool-cases (includes u (members ++ filter (λ u. not (includes u members)) hs))) [
      | inl t ↦ inl t
      | inr f ↦ inr (
          load-end_seats u s.id now members hs given (ground arith)
          ∙ load-give_seats u s end org now 0 members rows (ground arith))
    ]

-- After the grants of a team's subscription were derived, a user has a seat that runs on exactly if
-- what the subscription gives runs on and the user is among the first members of the workspace, as many
-- as it has seats; and a user whom the result does not name has the same grants as before.
pub seats_lem :
    (s : SubscriptionRow) (org now u : ℕ) (members : ℕ → List ℕ) (rows : List GrantRow)
    → s.org_id ≡ some org
    → Different (members org)
    → let (rows', touched) = refresh_subscription_grants s team now members rows in
      (has_seat s.id now u rows' ≡ (
        includes u (take s.quantity (members org))
        && runs_on now (subscription_valid_until s.state)))
      × ((includes u touched ≡ true) ⊎ (load_grants u rows' ≡ load_grants u rows))
unfolding refresh_subscription_grants
seats_lem s org now u members rows e d =
    rw e (seats_hold s org now u (members org) rows d, others_same s org now u (members org) rows)
