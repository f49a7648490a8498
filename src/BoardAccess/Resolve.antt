-- ===== src/BoardAccess/Resolve.antt =====
-- `resolveBoardAccess` of apps/server/src/access/boardAccess.ts: what a caller may be granted.
use mathlib.Core.Option
use mathlib.Core.Bool.{and-eq-true_iff}
use whiteboard_ai.Base.{
  ℕ, ◌≤◌, ◌<◌, ◌≡◌, ◌⊎◌, ltb, is_none, refl, sym, ap, subst, ◌∙◌, inl, inr, ◌≢◌, Bool, true, false,
  ◌&&◌, Option, none, some, Memᴰ, arith, min, ◌==◌, ==_iff, find, find-eq-some, Option-cases,
  if◌then◌else◌,
}
use whiteboard_ai.BoardAccess.{
  Found, Offered, BoardAccess, BoardRole, BoardRow, ShareLinkRow, Tables, Caller, by_link, write,
  can, cap, found_for, access_of, resolve_board_access, link_matches, link_is_valid,
}
use whiteboard_ai.BoardAccess.Role.{
  rank_or_zero, highest, rank-cap, rank-cap-offers, IsTraced, offers-IsTraced,
}

-- Only a role above viewer may write.
write-viewer : (r : Option BoardRole) → rank_or_zero r ≤ 1 → can r write ≡ false
unfolding can
write-viewer none h = refl
write-viewer (some r) h = ground arith

traced_link :
    (f : Found) (o : Offered)
    → IsTraced f o
    → o.via ≡ some by_link
    → (l : ShareLinkRow) × (f.link ≡ some l) × (o.link_id ≡ some l.id)
traced_link f o (inl h) v = absurd (ground arith)
traced_link f o (inr (inl h)) v = absurd (ground arith)
traced_link f o (inr (inr (inl h))) v = absurd (ground arith)
traced_link f o (inr (inr (inr (inl (l, e, _, _, i))))) v = (l, e, i)
traced_link f o (inr (inr (inr (inr h)))) v = absurd (ground arith)

capped_rank : {c : Bool} → c ≡ true → (r : Option BoardRole) → rank_or_zero (cap c r) ≤ 1
capped_rank e r = rw e (omega (arith, rank-cap true r))

module _ (hash_token : ℕ → ℕ) (db : Tables) (now board : ℕ) (caller : Caller) (a : BoardAccess)
    (resolved : resolve_board_access hash_token db now board caller ≡ some a) where
  found_link :
      (row : BoardRow) (l : ShareLinkRow)
      → (found_for hash_token db now row caller).link ≡ some l
      → (find (λ l. link_matches hash_token caller l && link_is_valid now row.id l) db.share_links
          ≡ some l)
        × (caller.user_id ≢ none)
  unfolding found_for
  found_link row l e = elim (Option-cases caller.user_id) [
    | inl h ↦ absurd (ground arith)
    | inr (user, h) ↦ (ground arith, ground arith)
  ]

  not_expired :
      (o : Option ℕ)
      → (elim o [ none ↦ true | some t ↦ ltb now t ]) ≡ true
      → (o ≡ none) ⊎ ((t : ℕ) × (o ≡ some t) × (now < t))
  not_expired none h = inl refl
  not_expired (some t) h = inr (t, refl, ground arith)

  is_none-none : {A : Type 0} (o : Option A) → is_none o ≡ true → o ≡ none
  is_none-none none h = refl
  is_none-none (some x) h = absurd (ground arith)

  valid_link :
      (l : ShareLinkRow)
      → link_is_valid now board l ≡ true
      → (l.board_id ≡ board)
        × (l.revoked_at ≡ none)
        × ((l.expires_at ≡ none) ⊎ ((t : ℕ) × (l.expires_at ≡ some t) × (now < t)))
  unfolding link_is_valid
  valid_link l h =
      let (there, unexpired) = (and-eq-true_iff _ _).0 h in
      let (on_board, live) = (and-eq-true_iff _ _).0 there in
      ((==_iff _ _).0 on_board, is_none-none l.revoked_at live, not_expired l.expires_at unexpired)

  named_link :
      (l : ShareLinkRow)
      → link_matches hash_token caller l ≡ true
      → ((token : ℕ) × (caller.share_token ≡ some token) × (l.token_hash ≡ hash_token token))
        ⊎ ((caller.share_token ≡ none) × (caller.link_id ≡ some l.id))
  unfolding link_matches
  named_link l h = elim (Option-cases caller.share_token) [
    | inr (token, e) ↦ inl (token, e, (==_iff _ _).0 (rw e at h))
    | inl e ↦ elim (Option-cases caller.link_id) [
      | inr (id, f) ↦ inr (e, f ∙ ap some (sym ((==_iff _ _).0 (rw f at (rw e at h)))))
      | inl f ↦ absurd (let g = rw f at (rw e at h) in ground arith)
    ]
  ]

  resolved_row :
      (row : BoardRow) × (find (λ b. b.id == board) db.boards ≡ some row)
      × (access_of hash_token db now row caller ≡ a)
  unfolding resolve_board_access
  resolved_row = (Option.map-eq-some_iff _ _).0 resolved

  -- When access is resolved, the board exists. The rank of the role is the highest among the direct
  -- membership, the workspace role, the link found for the caller and public access; under an
  -- interview's cap it is the rank of viewer at most.
  pub role_is_highest :
      (row : BoardRow) × Memᴰ row db.boards
      × (row.id ≡ board)
      × (rank_or_zero a.role ≡ (
          if a.interview_capped
          then min 1 (highest (found_for hash_token db now row caller))
          else highest (found_for hash_token db now row caller)))
  unfolding access_of
  role_is_highest =
      let (row, found, same) = resolved_row in
      let (m, e) = find-eq-some (λ b. b.id == board) db.boards found in
      (row, m, (==_iff _ _).0 e, rw (← same) (rank-cap-offers _ _))

  -- An access through a share link rests on a link of this very board, which was never revoked and
  -- expires later than now, or never; the caller is signed in, and showed either a token whose digest
  -- is the link's, or no token and the link's id.
  pub link_access_is_valid :
      a.via ≡ some by_link
      → (l : ShareLinkRow) × Memᴰ l db.share_links
        × (a.link_id ≡ some l.id)
        × (l.board_id ≡ board)
        × (l.revoked_at ≡ none)
        × ((l.expires_at ≡ none) ⊎ ((t : ℕ) × (l.expires_at ≡ some t) × (now < t)))
        × (caller.user_id ≢ none)
        × (((token : ℕ) × (caller.share_token ≡ some token) × (l.token_hash ≡ hash_token token))
            ⊎ ((caller.share_token ≡ none) × (caller.link_id ≡ some l.id)))
  unfolding access_of
  link_access_is_valid via =
      let (row, found, same) = resolved_row in
      let (l, e, i) =
        traced_link (found_for hash_token db now row caller) _ (offers-IsTraced _)
          (ap (λ x. x.via) same ∙ via) in
      let (found_l, signed) = found_link row l e in
      let (m, both) = find-eq-some _ db.share_links found_l in
      let (matches, valid) = (and-eq-true_iff _ _).0 both in
      let same_id = (==_iff row.id board).0 (find-eq-some (λ b. b.id == board) db.boards found).1 in
      let (on_board, live, unexpired) =
        valid_link l (subst (λ b. link_is_valid now b l ≡ true) same_id valid) in
      (
        l,
        m,
        sym (ap (λ x. x.link_id) same) ∙ i,
        on_board,
        live,
        unexpired,
        signed,
        named_link l matches,
      )

  anonymous_found :
      (row : BoardRow)
      → caller.user_id ≡ none
      → found_for hash_token db now row caller
        ≡ record { member_role = none; org_role = none; link = none; is_public = row.is_public }
  unfolding found_for
  anonymous_found row e = rw e

  anonymous_rank :
      (row : BoardRow)
      → caller.user_id ≡ none
      → rank_or_zero (access_of hash_token db now row caller).role ≤ 1
  unfolding access_of
  anonymous_rank row e = rw (anonymous_found row e) (ground (arith, rank-cap-offers _ _))

  -- A caller who is not signed in never gets more than viewer, and may not write.
  pub anonymous_cannot_write :
      caller.user_id ≡ none → (rank_or_zero a.role ≤ 1) × (can a.role write ≡ false)
  unfolding access_of
  anonymous_cannot_write e =
      let (row, found, same) = resolved_row in
      let low = subst (λ x. rank_or_zero x.role ≤ 1) same (anonymous_rank row e) in
      (low, write-viewer a.role low)

  -- Whom an interview caps may not write, whatever their role.
  pub capped_cannot_write : a.interview_capped ≡ true → can a.role write ≡ false
  unfolding access_of
  capped_cannot_write capped =
      let (row, found, same) = resolved_row in
      write-viewer a.role (
        subst (λ x. rank_or_zero x.role ≤ 1) same
          (capped_rank (ap (λ x. x.interview_capped) same ∙ capped) _))
