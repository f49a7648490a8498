-- ===== src/BoardAccess/Tests.antt =====
-- A board with members, a workspace, a share link and an interview, and instances of the theorems
-- on `resolveBoardAccess`. The digest of a token is its double.
use whiteboard_ai.Base.{
  ℕ, ◌+◌, ◌<◌, ◌≡◌, ◌⊎◌, ◌≢◌, refl, true, false, Option, none, some, [], ◌∷◌, Memᴰ, min,
  if◌then◌else◌,
}
use whiteboard_ai.BoardAccess.{
  BoardRow, Tables, Caller, ShareLinkRow, viewer, editor, observer, interview_active, org_member,
  found_for, resolve_board_access, access_of,
}
use whiteboard_ai.BoardAccess.Role.{rank_or_zero, highest}
use whiteboard_ai.BoardAccess.Resolve.{role_is_highest, link_access_is_valid}

abbrev digest : ℕ → ℕ
digest t = t + t

abbrev board : BoardRow
board = record {
  id = 1;
  org_id = some 5;
  is_public = true;
  is_private = false;
  deleted_at = none;
  owner_id = some 3;
  plan_locked_at = none;
}

-- The user 20 is a member as viewer, 21 belongs to the workspace and observes an interview.
abbrev db : Tables
db = record {
  boards = board ∷ [];
  members = record { board_id = 1; user_id = 20; role = viewer } ∷ [];
  seats = [];
  memberships = record { org_id = 5; user_id = 21; role = org_member } ∷ [];
  share_links =
      record {
        id = 9;
        board_id = 1;
        token_hash = 14;
        role = editor;
        revoked_at = none;
        expires_at = some 100;
      }
      ∷ [];
  participants =
      record { board_id = 1; status = interview_active; user_id = 21; role = observer } ∷ [];
}

abbrev with_link : Caller
with_link = record { user_id = some 20; share_token = some 7; link_id = none }

abbrev watcher : Caller
watcher = record { user_id = some 21; share_token = none; link_id = none }

abbrev anonymous : Caller
anonymous = record { user_id = none; share_token = some 7; link_id = none }

link_resolved :
    resolve_board_access digest db 50 1 with_link ≡ some (access_of digest db 50 board with_link)
unfolding resolve_board_access
link_resolved = refl

watcher_resolved :
    resolve_board_access digest db 50 1 watcher ≡ some (access_of digest db 50 board watcher)
unfolding resolve_board_access
watcher_resolved = refl

anonymous_resolved :
    resolve_board_access digest db 50 1 anonymous ≡ some (access_of digest db 50 board anonymous)
unfolding resolve_board_access
anonymous_resolved = refl

role_is_highest_example :
    (row : BoardRow) × Memᴰ row db.boards
    × (row.id ≡ 1)
    × (rank_or_zero (access_of digest db 50 board with_link).role ≡ (
        if (access_of digest db 50 board with_link).interview_capped
        then min 1 (highest (found_for digest db 50 row with_link))
        else highest (found_for digest db 50 row with_link)))
role_is_highest_example =
    role_is_highest digest db 50 1 with_link (access_of digest db 50 board with_link) link_resolved

link_access_is_valid_example :
    (l : ShareLinkRow) × Memᴰ l db.share_links
    × ((access_of digest db 50 board with_link).link_id ≡ some l.id)
    × (l.board_id ≡ 1)
    × (l.revoked_at ≡ none)
    × ((l.expires_at ≡ none) ⊎ ((t : ℕ) × (l.expires_at ≡ some t) × (50 < t)))
    × (◌≢◌ {A = Option ℕ} (some 20) none)
    × (((token : ℕ) × (◌≡◌ {A = Option ℕ} (some 7) (some token)) × (l.token_hash ≡ digest token))
        ⊎ ((◌≡◌ {A = Option ℕ} (some 7) none) × (◌≡◌ {A = Option ℕ} none (some l.id))))
unfolding access_of
link_access_is_valid_example =
    link_access_is_valid digest db 50 1 with_link (access_of digest db 50 board with_link)
      link_resolved refl
