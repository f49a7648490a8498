-- ===== src/PlanLimits/Claims.antt =====
-- Editor seats under claims (apps/server/src/billing/limits.ts).
use mathlib.Core.List.Memᴰ
use whiteboard_ai.Base.{
  ℕ, ◌+◌, ◌≤◌, ◌≡◌, refl, sym, ap, subst, ◌∙◌, ◌⊎◌, inl, inr, Bool, true, false, Option, none, some,
  List, [], ◌∷◌, ◌++◌, arith, ◌==◌, ==_iff, find, any, length, length-append, filter-append,
  Bool-cases, Option-cases, find-eq-some, if◌then◌else◌, Memᴰ,
}
use whiteboard_ai.Entitlements.{Entitlement}
use whiteboard_ai.Entitlements.Checks.{
  LimitCheck, allowed, refused, check_editor_seat, editor_seats_for_others,
}
use whiteboard_ai.BoardAccess.{
  BoardAccess, SeatRow, editor, active_seat, suspended_seat, EditorSeat, editor_seat_for,
}
use whiteboard_ai.PlanLimits.{
  is_seat_of, is_active_seat_of, limited_by, editor_limits, is_active_on, active_count,
  claim_editor_seat, take_seat, plan_limits_for, LimitReason, board_is_locked,
}

active_count-append :
    (board : ℕ) (s : SeatRow) (seats : List SeatRow)
    → active_count board (seats ++ s ∷ []) ≡ active_count board seats + active_count board (s ∷ [])
active_count-append board s seats =
    ap length (filter-append (is_active_on board) seats (s ∷ [])) ∙ length-append _ _

check-allowed :
    (e : Entitlement) (n : ℕ)
    → check_editor_seat e (some n) ≡ allowed
    → n + 1 ≤ editor_seats_for_others e
unfolding check_editor_seat
check-allowed e n h = ground arith

count-one : (board : ℕ) (s : SeatRow) → active_count board (s ∷ []) ≤ 1
count-one board s = ground arith

count-one_else :
    (board : ℕ) (s : SeatRow) → (s.board_id == board) ≡ false → active_count board (s ∷ []) ≡ 0
count-one_else board s e = ground arith

take_seat_within :
    (limit board : ℕ) (c : LimitCheck) (s : SeatRow) (seats : List SeatRow)
    → (s.board_id ≡ board → c ≡ allowed → active_count board seats + 1 ≤ limit)
    → active_count board seats ≤ limit
    → active_count board (take_seat c s seats).0 ≤ limit
unfolding take_seat
take_seat_within limit board allowed s seats room within =
    rw (active_count-append board s seats) (elim (Bool-cases (s.board_id == board)) [
      | inl e ↦
          let free = room ((==_iff _ _).0 e) refl in let one = count-one board s in omega arith
      | inr e ↦ let other = count-one_else board s e in omega arith
    ])
take_seat_within limit board (refused code plan most) s seats room within = within

abbrev new_seat : ℕ → ℕ → ℕ → SeatRow
new_seat b user now = record { board_id = b; user_id = user; claimed_at = now; suspended = false }

claim_none :
    (e : Entitlement) (b user now : ℕ) (seats : List SeatRow)
    → find (is_seat_of b user) seats ≡ none
    → claim_editor_seat e b user now seats
      ≡ take_seat (check_editor_seat e (some (active_count b seats))) (new_seat b user now) seats
unfolding claim_editor_seat
claim_none e b user now seats h = rw (h, claim_editor_seat) refl

claim_some :
    (e : Entitlement) (b user now : ℕ) (seats : List SeatRow) (mine : SeatRow)
    → find (is_seat_of b user) seats ≡ some mine
    → claim_editor_seat e b user now seats
      ≡ (seats, (if mine.suspended then check_editor_seat e none else allowed))
unfolding claim_editor_seat
claim_some e b user now seats mine h =
    rw (h, claim_editor_seat)
      (elim (Bool-cases mine.suspended) [ inl k ↦ rw k refl | inr k ↦ rw k refl ])

claim_within :
    (limit_of : ℕ → Entitlement) (b user now other : ℕ) (seats : List SeatRow)
    → active_count other seats ≤ editor_seats_for_others (limit_of other)
    → active_count other (claim_editor_seat (limit_of b) b user now seats).0
      ≤ editor_seats_for_others (limit_of other)
claim_within limit_of b user now other seats within =
    elim (Option-cases (find (is_seat_of b user) seats)) [
      | inl e ↦ rw (claim_none (limit_of b) b user now seats e) (
          take_seat_within _ other _ _ seats
            (λ same free.
              subst (λ x. active_count x seats + 1 ≤ editor_seats_for_others (limit_of x)) same
                (check-allowed (limit_of b) (active_count b seats) free))
            within)
      | inr (mine, e) ↦ rw (claim_some (limit_of b) b user now seats mine e) within
    ]

-- A call of `claimEditorSeat`.
pub record Claim : Type 0 where
  pub board_id : ℕ
  pub user_id : ℕ
  pub now : ℕ

pub claim_all : (ℕ → Entitlement) → List Claim → List SeatRow → List SeatRow
claim_all limit_of [] seats = seats
claim_all limit_of (c ∷ cs) seats =
    claim_all limit_of cs
      (claim_editor_seat (limit_of c.board_id) c.board_id c.user_id c.now seats).0

-- However many claims run one after the other, on whatever boards and by whatever users: where a
-- board has no more active seats than its owner's plan gives to others, it keeps to that.
pub claims_within_plan :
    (limit_of : ℕ → Entitlement) (claims : List Claim) (seats : List SeatRow) (board : ℕ)
    → active_count board seats ≤ editor_seats_for_others (limit_of board)
    → active_count board (claim_all limit_of claims seats)
      ≤ editor_seats_for_others (limit_of board)
unfolding claim_all
claims_within_plan limit_of [] seats board h = h
claims_within_plan limit_of (c ∷ cs) seats board h =
    claims_within_plan limit_of cs _ board
      (claim_within limit_of c.board_id c.user_id c.now board seats h)

find-append :
    (p : SeatRow → Bool) (s : SeatRow) (seats : List SeatRow)
    → find p seats ≡ none
    → p s ≡ true
    → find p (seats ++ s ∷ []) ≡ some s
find-append p s [] e h = rw h refl
find-append p s (x ∷ seats) e h = elim (Bool-cases (p x)) [
  | inl t ↦ absurd (ground arith)
  | inr f ↦ rw f (find-append p s seats (ground arith) h)
]

is_seat_of-new :
    (b user now : ℕ)
    → is_seat_of b user
        (record { board_id = b; user_id = user; claimed_at = now; suspended = false })
      ≡ true
is_seat_of-new b user now = ground arith

claim_after_taken :
    (e : Entitlement) (b user now later : ℕ) (c : LimitCheck) (seats : List SeatRow)
    → find (is_seat_of b user) seats ≡ none
    → check_editor_seat e (some (active_count b seats)) ≡ c
    → claim_editor_seat e b user later (take_seat c (new_seat b user now) seats).0
      ≡ take_seat c (new_seat b user now) seats
unfolding take_seat
claim_after_taken e b user now later allowed seats h same =
    claim_some e b user later _ (new_seat b user now)
      (find-append (is_seat_of b user) _ seats h (is_seat_of-new b user now))
claim_after_taken e b user now later (refused code plan most) seats h same =
    claim_none e b user later seats h ∙ rw same refl

-- Claiming the same seat once more, at whatever time, changes nothing and gives the same answer.
pub claim_twice :
    (e : Entitlement) (b user now later : ℕ) (seats : List SeatRow)
    → claim_editor_seat e b user later (claim_editor_seat e b user now seats).0
      ≡ claim_editor_seat e b user now seats
claim_twice e b user now later seats = elim (Option-cases (find (is_seat_of b user) seats)) [
  | inl h ↦
      rw (claim_none e b user now seats h) (claim_after_taken e b user now later _ seats h refl)
  | inr (mine, h) ↦
      rw (claim_some e b user now seats mine h) (claim_some e b user later seats mine h)
]

-- `user` has a seat on the board that is not suspended.
pub HasSeat : ℕ → ℕ → List SeatRow → Type 0
HasSeat b user seats = any (is_active_seat_of b user) seats ≡ true

any-mem :
    (p : SeatRow → Bool) (s : SeatRow) (seats : List SeatRow)
    → Memᴰ s seats
    → p s ≡ true
    → any p seats ≡ true
any-mem p s [] m h = elim m [ ]
any-mem p s (x ∷ seats) (Memᴰ.head e) h = let k : p x ≡ true = cc in rw k refl
any-mem p s (x ∷ seats) (Memᴰ.tail m) h = let k = any-mem p s seats m h in ground arith

taken-HasSeat :
    (b user now : ℕ) (c : LimitCheck) (seats : List SeatRow)
    → limited_by (take_seat c (new_seat b user now) seats).1 ≡ none
    → HasSeat b user (take_seat c (new_seat b user now) seats).0
unfolding take_seat HasSeat
taken-HasSeat b user now allowed seats h =
    any-mem (is_active_seat_of b user) (new_seat b user now) (seats ++ new_seat b user now ∷ [])
      (Memᴰ.append_right seats (Memᴰ.head refl)) (rw (is_seat_of-new b user now) refl)
taken-HasSeat b user now (refused code plan most) seats h = absurd (ground arith)

-- What the joined seat of the caller says of the rows.
own_seat :
    (b user : ℕ) (seats : List SeatRow)
    → ((find (is_seat_of b user) seats ≡ none) × (editor_seat_for seats b (some user) ≡ none))
      ⊎ ((s : SeatRow) × (find (is_seat_of b user) seats ≡ some s)
          × (editor_seat_for seats b (some user)
              ≡ some (if s.suspended then suspended_seat else active_seat)))
unfolding editor_seat_for
own_seat b user seats = elim (Option-cases (find (is_seat_of b user) seats)) [
  | inl e ↦ inl (e, rw (e, editor_seat_for) refl)
  | inr (s, e) ↦ inr (
    s,
    e,
    rw (e, editor_seat_for)
        (elim (Bool-cases s.suspended) [ inl k ↦ rw k refl | inr k ↦ rw k refl ]),
  )
]

active-HasSeat :
    (b user : ℕ) (seats : List SeatRow)
    → editor_seat_for seats b (some user) ≡ some active_seat
    → HasSeat b user seats
unfolding HasSeat
active-HasSeat b user seats own = elim (own_seat b user seats) [
  | inl (_, e) ↦ absurd (ground arith)
  | inr (s, found, e) ↦
      let (m, k) = find-eq-some _ seats found in
      let open_seat : s.suspended ≡ false = ground arith in
      any-mem _ s seats m (rw (k, open_seat) refl)
]

no_seat :
    (b user : ℕ) (seats : List SeatRow)
    → editor_seat_for seats b (some user) ≡ none
    → find (is_seat_of b user) seats ≡ none
no_seat b user seats own = elim (own_seat b user seats) [
  | inl (h, _) ↦ h
  | inr (s, found, e) ↦ absurd (ground arith)
]

editor_limits_seat :
    (e : Entitlement) (b user now : ℕ) (seat : Option EditorSeat) (seats : List SeatRow)
    → seat ≡ editor_seat_for seats b (some user)
    → (editor_limits e b seat true user now seats).1 ≡ none
    → HasSeat b user (editor_limits e b seat true user now seats).0
unfolding editor_limits check_editor_seat
editor_limits_seat e b user now (some active_seat) seats own free =
    active-HasSeat b user seats (sym own)
editor_limits_seat e b user now (some suspended_seat) seats own free = absurd (ground arith)
editor_limits_seat e b user now none seats own free =
    let claimed = claim_none e b user now seats (no_seat b user seats (sym own)) in
    rw claimed (taken-HasSeat b user now _ seats (subst (λ r. limited_by r.1 ≡ none) claimed free))

limits_of_editor :
    (e : Entitlement) (access : BoardAccess) (user owner now : ℕ) (seats : List SeatRow)
    → access.role ≡ some editor
    → access.owner_id ≡ some owner
    → plan_limits_for e access (some user) now true seats ≡ (
        if access.locked
        then (seats, some board_is_locked)
        else editor_limits e access.board_id access.editor_seat true user now seats)
unfolding plan_limits_for
limits_of_editor e access user owner now seats role owned = rw (role, owned) refl

-- An editor for whom `planLimitsFor` may take a seat and whom it does not limit has an active seat on
-- the board afterwards: on a board with an owner, with the caller's seat as the rows have it.
pub unlimited_editor-HasSeat :
    (e : Entitlement) (access : BoardAccess) (user owner now : ℕ) (seats : List SeatRow)
    → access.role ≡ some editor
    → access.owner_id ≡ some owner
    → access.editor_seat ≡ editor_seat_for seats access.board_id (some user)
    → (plan_limits_for e access (some user) now true seats).1 ≡ none
    → HasSeat access.board_id user (plan_limits_for e access (some user) now true seats).0
unlimited_editor-HasSeat e access user owner now seats role owned own free =
    elim (Bool-cases access.locked) [
      | inl l ↦
          let shut : plan_limits_for e access (some user) now true seats
              ≡ (seats, some board_is_locked) =
            limits_of_editor e access user owner now seats role owned ∙ rw l refl in
          let k : ◌≡◌ {A = Option LimitReason} (some board_is_locked) none =
            subst (λ r. r.1 ≡ none) shut free in
          absurd (ground arith)
      | inr l ↦
          let same : plan_limits_for e access (some user) now true seats
              ≡ editor_limits e access.board_id access.editor_seat true user now seats =
            limits_of_editor e access user owner now seats role owned ∙ rw l refl in
          rw same (
            editor_limits_seat e access.board_id user now access.editor_seat seats own
              (subst (λ r. r.1 ≡ none) same free))
    ]
