-- ===== src/BoardAccess/Role.antt =====
-- The effective role of apps/server/src/access/boardAccess.ts is the highest that was offered.
use whiteboard_ai.Base.{
  ℕ, ◌≤◌, ◌≡◌, refl, ◌⊎◌, inl, inr, Bool, true, Option, none, some, arith, max, min, subst, sym, ap,
  ◌∙◌, Bool-cases, ◌&&◌, not, if◌then◌else◌,
}
use whiteboard_ai.BoardAccess.{
  BoardRole, viewer, rank, offer, offers, Offered, Found, cap, Via, by_member, by_org, by_link,
  by_public, org_offer, link_offer, ShareLinkRow, same_role, higher_role, link_offer_id,
}

-- The rank of a role, and 0 where there is none.
abbrev pub rank_or_zero : Option BoardRole → ℕ
rank_or_zero none = 0
rank_or_zero (some role) = rank role

-- An offer raises the rank to that of the offered role, if it is higher.
rank-offer :
    (r : Option BoardRole) (via : Via) (id : Option ℕ) (a : Offered)
    → rank_or_zero (offer r via id a).role ≡ max (rank_or_zero a.role) (rank_or_zero r)
unfolding offer rank
rank-offer none via id a = omega arith
rank-offer (some r) via id a = ground arith

rank_pos : (r : BoardRole) → 1 ≤ rank r
unfolding rank
rank_pos r = ground arith

-- The highest rank that is offered.
abbrev pub highest : Found → ℕ
highest f =
    max
      (max (max (rank_or_zero f.member_role) (rank_or_zero (org_offer f.org_role)))
        (rank_or_zero (link_offer f.link)))
      (if f.is_public then 1 else 0)

pub rank-offers : (f : Found) → rank_or_zero (offers f).role ≡ highest f
unfolding offers rank
rank-offers f = simp rank-offer (ground arith)

pub rank-cap :
    (capped : Bool) (r : Option BoardRole)
    → rank_or_zero (cap capped r) ≡ (if capped then min 1 (rank_or_zero r) else rank_or_zero r)
unfolding cap rank
rank-cap capped none = ground arith
rank-cap capped (some r) = ground (arith, rank_pos r)

pub rank-cap-offers :
    (capped : Bool) (f : Found)
    → rank_or_zero (cap capped (offers f).role) ≡ (if capped then min 1 (highest f) else highest f)
rank-cap-offers capped f =
    rank-cap capped (offers f).role ∙ ap (λ n. if capped then min 1 n else n) (rank-offers f)

-- An access that is traced to its source.
abbrev pub IsTraced : Found → Offered → Type 0
IsTraced f a =
    ((a.role ≡ none) × (a.via ≡ none))
    ⊎ ((a.via ≡ some by_member) × (a.role ≡ f.member_role))
    ⊎ ((a.via ≡ some by_org) × (a.role ≡ org_offer f.org_role))
    ⊎ ((l : ShareLinkRow) × (f.link ≡ some l)
        × (a.via ≡ some by_link)
        × (a.role ≡ some l.role)
        × (a.link_id ≡ some l.id))
    ⊎ ((a.via ≡ some by_public) × (a.role ≡ some viewer) × (f.is_public ≡ true))

offer-cases :
    (r : Option BoardRole) (via : Via) (id : Option ℕ) (a : Offered)
    → (offer r via id a ≡ a)
      ⊎ ((b : BoardRole) × (r ≡ some b)
          × (offer r via id a ≡ record { role = some b; via = some via; link_id = id }))
unfolding offer rank
offer-cases none via id a = inl refl
offer-cases (some r) via id a =
    elim (Bool-cases (same_role (higher_role a.role (some r)) r && not (same_role a.role r))) [
      | inl e ↦ inr (r, refl, rw e)
      | inr e ↦ inl (rw e)
    ]

offer-IsTraced :
    (f : Found) (r : Option BoardRole) (via : Via) (id : Option ℕ) (a : Offered)
    → ((b : BoardRole)
        → r ≡ some b
        → IsTraced f (record { role = some b; via = some via; link_id = id }))
    → IsTraced f a
    → IsTraced f (offer r via id a)
offer-IsTraced f r via id a new old = elim (offer-cases r via id a) [
  | inl e ↦ subst (IsTraced f) (sym e) old
  | inr (b, e, h) ↦ subst (IsTraced f) (sym h) (new b e)
]

pub offers-IsTraced : (f : Found) → IsTraced f (offers f)
unfolding offers
offers-IsTraced f = offer-IsTraced f _ by_public none _ (from_public f) (
    offer-IsTraced f _ by_link _ _ (from_link f) (
      offer-IsTraced f _ by_org none _ (λ b e. inr (inr (inl (refl, sym e))))
        (offer-IsTraced f _ by_member none _ (λ b e. inr (inl (refl, sym e))) (inl (refl, refl)))))
  where
    from_link :
        (f : Found) (b : BoardRole)
        → link_offer f.link ≡ some b
        → IsTraced f (record { role = some b; via = some by_link; link_id = link_offer_id f.link })
    from_link f b e = ground arith

    from_public :
        (f : Found) (b : BoardRole)
        → (if f.is_public then some viewer else none) ≡ some b
        → IsTraced f (record { role = some b; via = some by_public; link_id = none })
    from_public f b e = ground arith
