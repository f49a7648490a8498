-- ===== src/BoardAccess.antt =====
-- apps/server/src/access/boardAccess.ts: the effective role of a caller on a board. The tables that
-- the query joins are lists, in `Tables`; a left join on a unique key is a search. Titles and key
-- checks are left out. `hash_token` stands for the SHA-256 digest of a share token.
pub mod Role
pub mod Resolve
mod Tests
use mathlib.Core.Option
use whiteboard_ai.Base.{
  ℕ, ◌+◌, Bool, true, false, ◌&&◌, ◌||◌, not, Option, none, some, List, [], ◌∷◌, ltb, leb, ◌==◌,
  is_none, find, any, if◌then◌else◌,
}

pub data BoardRole : Type 0 where
  viewer editor owner : BoardRole

pub data BoardAction : Type 0 where
  read write share delete : BoardAction

unfoldable pub rank : BoardRole → ℕ
rank viewer = 1
rank editor = 2
rank owner = 3

unfoldable pub required : BoardAction → BoardRole
required read = viewer
required write = editor
required share = owner
required delete = owner

unfoldable pub can : Option BoardRole → BoardAction → Bool
unfolding rank required
can none action = false
can (some role) action = leb (rank (required action)) (rank role)

unfoldable pub higher_role : Option BoardRole → Option BoardRole → Option BoardRole
unfolding rank
higher_role none b = b
higher_role (some a) none = some a
higher_role (some a) (some b) = if leb (rank b) (rank a) then some a else some b

pub data Via : Type 0 where
  by_member by_org by_link by_public : Via

pub data EditorSeat : Type 0 where
  active_seat suspended_seat : EditorSeat

pub record BoardAccess : Type 0 where
  pub board_id : ℕ
  pub org_id : Option ℕ
  pub is_public : Bool
  pub is_private : Bool
  pub deleted : Bool
  pub role : Option BoardRole
  pub via : Option Via
  pub link_id : Option ℕ
  pub interview_capped : Bool
  pub owner_id : Option ℕ
  pub locked : Bool
  pub editor_seat : Option EditorSeat

-- The rows of the database.
pub data OrgRole : Type 0 where
  org_owner org_admin org_member : OrgRole

pub data InterviewStatus : Type 0 where
  interview_active interview_ended : InterviewStatus

pub data InterviewRole : Type 0 where
  interviewer candidate observer : InterviewRole

pub record BoardRow : Type 0 where
  pub id : ℕ
  pub org_id : Option ℕ
  pub is_public : Bool
  pub is_private : Bool
  pub deleted_at : Option ℕ
  pub owner_id : Option ℕ
  pub plan_locked_at : Option ℕ

pub record MemberRow : Type 0 where
  pub board_id : ℕ
  pub user_id : ℕ
  pub role : BoardRole

pub record SeatRow : Type 0 where
  pub board_id : ℕ
  pub user_id : ℕ
  pub claimed_at : ℕ
  pub suspended : Bool

pub record MembershipRow : Type 0 where
  pub org_id : ℕ
  pub user_id : ℕ
  pub role : OrgRole

pub record ShareLinkRow : Type 0 where
  pub id : ℕ
  pub board_id : ℕ
  pub token_hash : ℕ
  pub role : BoardRole
  pub revoked_at : Option ℕ
  pub expires_at : Option ℕ

-- A participant of an interview, with the interview's board and status.
pub record ParticipantRow : Type 0 where
  pub board_id : ℕ
  pub status : InterviewStatus
  pub user_id : ℕ
  pub role : InterviewRole

pub record Tables : Type 0 where
  pub boards : List BoardRow
  pub members : List MemberRow
  pub seats : List SeatRow
  pub memberships : List MembershipRow
  pub share_links : List ShareLinkRow
  pub participants : List ParticipantRow

-- The token and the link id are none also where the source has an empty string.
pub record Caller : Type 0 where
  pub user_id : Option ℕ
  pub share_token : Option ℕ
  pub link_id : Option ℕ

abbrev is_active : InterviewStatus → Bool
is_active interview_active = true
is_active interview_ended = false

abbrev is_observer : InterviewRole → Bool
is_observer observer = true
is_observer _ = false

abbrev is_candidate : InterviewRole → Bool
is_candidate candidate = true
is_candidate _ = false

-- The rows of this user's participation in interviews on this board with these properties.
abbrev takes_part :
    (InterviewStatus → Bool) → (InterviewRole → Bool) → ℕ → ℕ → ParticipantRow → Bool
takes_part status role board user p =
    p.board_id == board && status p.status && p.user_id == user && role p.role

pub interview_cap : List ParticipantRow → ℕ → ℕ → Bool
interview_cap ps board user =
    if any (takes_part is_active is_observer board user) ps
    then true
    else if any (takes_part is_active (λ r. not (is_observer r)) board user) ps
    then false
    else any (takes_part (λ s. not (is_active s)) is_candidate board user) ps

-- The access so far: the role, and where it came from.
pub record Offered : Type 0 where
  pub role : Option BoardRole
  pub via : Option Via
  pub link_id : Option ℕ

-- `a === b`
abbrev pub same_role : Option BoardRole → BoardRole → Bool
same_role (some viewer) viewer = true
same_role (some editor) editor = true
same_role (some owner) owner = true
same_role _ _ = false

-- `offer(role, via, linkId)`
unfoldable pub offer : Option BoardRole → Via → Option ℕ → Offered → Offered
unfolding higher_role
offer none via link access = access
offer (some role) via link access =
    if same_role (higher_role access.role (some role)) role && not (same_role access.role role)
    then record { role = some role; via = some via; link_id = link }
    else access

-- What the joins found for the caller.
pub record Found : Type 0 where
  pub member_role : Option BoardRole
  pub org_role : Option OrgRole
  pub link : Option ShareLinkRow
  pub is_public : Bool

abbrev org_offer : Option OrgRole → Option BoardRole
org_offer none = none
org_offer (some org_owner) = some owner
org_offer (some org_admin) = some owner
org_offer (some org_member) = some editor

abbrev link_offer : Option ShareLinkRow → Option BoardRole
link_offer none = none
link_offer (some l) = some l.role

abbrev link_offer_id : Option ShareLinkRow → Option ℕ
link_offer_id none = none
link_offer_id (some l) = some l.id

unfoldable pub offers : Found → Offered
unfolding offer
offers f =
    let start : Offered = record { role = none; via = none; link_id = none } in
    let with_member = offer f.member_role by_member none start in
    let with_org = offer (org_offer f.org_role) by_org none with_member in
    let with_link = offer (link_offer f.link) by_link (link_offer_id f.link) with_org in
    offer (if f.is_public then some viewer else none) by_public none with_link

-- `if (access.interviewCapped && access.role !== null) access.role = "viewer"`
unfoldable pub cap : Bool → Option BoardRole → Option BoardRole
cap capped none = none
cap capped (some role) = if capped then some viewer else some role

abbrev member_role : Option MemberRow → Option BoardRole
member_role none = none
member_role (some m) = some m.role

abbrev org_role : ℕ → Option ℕ → List MembershipRow → Option OrgRole
org_role user none ms = none
org_role user (some org) ms = elim (find (λ m. m.org_id == org && m.user_id == user) ms) [
  | none ↦ none
  | some m ↦ some m.role
]

-- The conditions that the join puts on a share link besides `linkMatch`.
pub link_is_valid : ℕ → ℕ → ShareLinkRow → Bool
link_is_valid now board l =
    let unexpired : Bool = elim l.expires_at [ none ↦ true | some t ↦ ltb now t ] in
    l.board_id == board && is_none l.revoked_at && unexpired

-- `editorSeat` of the caller.
unfoldable pub editor_seat_for : List SeatRow → ℕ → Option ℕ → Option EditorSeat
editor_seat_for seats board none = none
editor_seat_for seats board (some user) =
    elim (find (λ s. s.board_id == board && s.user_id == user) seats) [
      | none ↦ none
      | some s ↦ if s.suspended then some suspended_seat else some active_seat
    ]

abbrev capped_for : Tables → ℕ → Option ℕ → Bool
capped_for db board none = false
capped_for db board (some user) = interview_cap db.participants board user

module _ (hash_token : ℕ → ℕ) where
  -- `linkMatch`
  pub link_matches : Caller → ShareLinkRow → Bool
  link_matches caller l = elim caller.share_token [
    | some token ↦ l.token_hash == hash_token token
    | none ↦ elim caller.link_id [ some id ↦ l.id == id | none ↦ false ]
  ]

  pub found_for : Tables → ℕ → BoardRow → Caller → Found
  unfolding link_matches link_is_valid
  found_for db now board caller = elim caller.user_id [
    | none ↦ record {
      member_role = none;
      org_role = none;
      link = none;
      is_public = board.is_public;
    }
    | some user ↦ record {
      member_role =
          member_role (find (λ m. m.board_id == board.id && m.user_id == user) db.members);
      org_role = org_role user board.org_id db.memberships;
      link = find (λ l. link_matches caller l && link_is_valid now board.id l) db.share_links;
      is_public = board.is_public;
    }
  ]

  pub access_of : Tables → ℕ → BoardRow → Caller → BoardAccess
  unfolding found_for offers cap editor_seat_for
  access_of db now board caller =
      let o = offers (found_for db now board caller) in
      let capped = capped_for db board.id caller.user_id in
      record {
        board_id = board.id;
        org_id = board.org_id;
        is_public = board.is_public;
        is_private = board.is_private;
        deleted = not (is_none board.deleted_at);
        role = cap capped o.role;
        via = o.via;
        link_id = o.link_id;
        interview_capped = capped;
        owner_id = board.owner_id;
        locked = not (is_none board.plan_locked_at);
        editor_seat = editor_seat_for db.seats board.id caller.user_id;
      }

  pub resolve_board_access : Tables → ℕ → ℕ → Caller → Option BoardAccess
  unfolding access_of
  resolve_board_access db now board caller =
      Option.map (λ row. access_of db now row caller) (find (λ b. b.id == board) db.boards)
