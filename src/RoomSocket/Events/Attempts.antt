-- ===== src/RoomSocket/Events/Attempts.antt =====
-- A connection always has at most one attempt under way, and one while it says that it connects.
use whiteboard_ai.Base.{
  ℕ, ◌≤◌, ◌-◌, ◌≡◌, inl, inr, refl, Bool, true, false, ◌||◌, Option, none, some, arith, Bool-cases,
}
use whiteboard_ai.RoomSocket.{
  TicketResult, board_deleted, access_changed, other_code, ticket, refused, failed, CloseCode,
  RoomSocket, is_denied, is_offline, has_socket, schedule_reconnect, deny, is_bad_key, bad_key,
  not_found, start_socket, new_socket, after_ticket, on_ticket, on_open, is_socket, after_close,
  on_close,
}
use whiteboard_ai.RoomSocket.Events.{
  Event, goes_online, goes_offline, timer_fires, fails, misses_key, destroyed, ticket_arrives,
  opens, closes, CanHappen, handle, Reached, started, next,
}
use whiteboard_ai.RoomSocket.Invariant.{
  Inv, sorts, IsFree, connect-Inv, schedule_reconnect-Inv, deny-Inv, reconnect_now-Inv,
  go_offline-Inv, destroy_socket-Inv, on_timer-Inv,
}

-- The flag that is cleared at the end may be cleared first.
ticket-commutes :
    (result : TicketResult) (created : Bool) (s : RoomSocket)
    → s.is_destroyed ≡ false
    → record (after_ticket result created s) { is_connecting = false }
      ≡ after_ticket result created (record s { is_connecting = false })
unfolding schedule_reconnect deny
ticket-commutes failed created s alive = rw (alive, schedule_reconnect) refl
ticket-commutes (refused reason) created s alive = elim (Bool-cases (is_bad_key reason)) [
  | inl t ↦ rw (t, deny) refl
  | inr f ↦ rw (f, deny) refl
]
ticket-commutes ticket true s alive = refl
ticket-commutes ticket false s alive = rw (alive, schedule_reconnect) refl

after_ticket-Inv :
    (result : TicketResult) (created : Bool) (s : RoomSocket)
    → IsFree s
    → s.is_connecting ≡ false
    → s.is_destroyed ≡ false
    → (is_offline s.status || is_denied s.status) ≡ false
    → Inv (after_ticket result created s)
after_ticket-Inv failed created s free idle alive up = schedule_reconnect-Inv s free idle alive
after_ticket-Inv (refused reason) created s free idle alive up =
    let n = free.no_socket in
    let f = free.flag in deny-Inv reason s (ground arith) (ground arith) free.alone free.flag
after_ticket-Inv ticket false s free idle alive up = schedule_reconnect-Inv s free idle alive
after_ticket-Inv ticket true s free idle alive up =
    let t = free.no_timer in
    let f = free.flag in
    record {
      waits = λ m. ground arith;
      serves = λ m. ground arith;
      rests = λ m. absurd (ground arith);
      single = ground arith;
      alone = free.alone;
      flag = free.flag;
    }

on_ticket-Inv :
    (result : TicketResult) (created : Bool) (s : RoomSocket)
    → 1 ≤ s.open_tickets
    → Inv s
    → Inv (on_ticket result created s)
unfolding on_ticket
on_ticket-Inv result created s t h =
    let one = h.single in
    let f = h.flag in
    let asks : s.is_connecting ≡ true = ground arith in
    elim (Bool-cases (s.is_destroyed || (is_offline s.status || is_denied s.status))) [
      | inl stopped ↦
          let sort = sorts s.status in
          rw (stopped, on_ticket)
            (record {
              waits = λ m. ground arith;
              serves = λ m. h.serves m;
              rests = λ m. h.rests m;
              single = ground arith;
              alone = h.alone;
              flag = ground arith;
            })
      | inr up ↦
          rw
            (
              up,
              on_ticket,
              ticket-commutes result created (record s { open_tickets = s.open_tickets - 1 })
                  (ground arith),
            )
            (after_ticket-Inv result created _
              (record {
                no_timer = ground arith;
                no_socket = ground arith;
                alone = h.alone;
                flag = ground arith;
              })
              refl (ground arith) (ground arith))
    ]

pub socket_there : (v : ℕ) (o : Option ℕ) → is_socket v o ≡ true → has_socket o ≡ true
socket_there v none t = absurd (ground arith)
socket_there v (some w) t = refl

-- A connection with a socket does nothing else.
with_socket :
    (s : RoomSocket)
    → Inv s
    → has_socket s.socket ≡ true
    → ((s.is_destroyed || (is_offline s.status || is_denied s.status)) ≡ false)
      × (s.is_connecting ≡ false)
      × (s.has_timer ≡ false)
with_socket s h t =
    let one = h.single in
    let f = h.flag in
    (
      elim (Bool-cases (s.is_destroyed || (is_offline s.status || is_denied s.status))) [
        | inl stopped ↦ absurd (let k = h.rests stopped in ground arith)
        | inr up ↦ up
      ],
      ground arith,
      ground arith,
    )

on_open-Inv : (v : ℕ) (s : RoomSocket) → Inv s → Inv (on_open v s)
unfolding on_open
on_open-Inv v s h = elim (Bool-cases (is_socket v s.socket)) [
  | inl t ↦
      let there = socket_there v s.socket t in
      let (up, idle, calm) = with_socket s h there in
      rw (t, on_open)
        (record {
          waits = λ m. absurd (ground arith);
          serves = λ m. ground arith;
          rests = λ m. absurd (ground arith);
          single = h.single;
          alone = h.alone;
          flag = h.flag;
        })
  | inr f ↦ rw (f, on_open) h
]

after_close-Inv :
    (code : CloseCode) (s : RoomSocket)
    → IsFree s
    → s.is_connecting ≡ false
    → s.is_destroyed ≡ false
    → Inv (after_close code s)
after_close-Inv board_deleted s free idle alive =
    let n = free.no_socket in
    let f = free.flag in deny-Inv not_found s (ground arith) (ground arith) free.alone free.flag
after_close-Inv access_changed s free idle alive =
    connect-Inv _
      (record {
        no_timer = free.no_timer;
        no_socket = free.no_socket;
        alone = free.alone;
        flag = free.flag;
      })
      (ground arith)
after_close-Inv other_code s free idle alive = schedule_reconnect-Inv s free idle alive

on_close-Inv : (v : ℕ) (code : CloseCode) (s : RoomSocket) → Inv s → Inv (on_close v code s)
unfolding on_close
on_close-Inv v code s h = elim (Bool-cases (is_socket v s.socket)) [
  | inl t ↦
      let (up, idle, calm) = with_socket s h (socket_there v s.socket t) in
      rw (t, up, on_close)
        (after_close-Inv code _
          (record { no_timer = calm; no_socket = refl; alone = h.alone; flag = h.flag }) idle
          (ground arith))
  | inr f ↦ rw (f, on_close) h
]

handle-Inv : (e : Event) (s : RoomSocket) → CanHappen e s → Inv s → Inv (handle e s)
unfolding handle
handle-Inv goes_online s can h = reconnect_now-Inv s h
handle-Inv goes_offline s can h = go_offline-Inv s h
handle-Inv timer_fires s can h = on_timer-Inv s can h
handle-Inv fails s can h = reconnect_now-Inv s h
handle-Inv misses_key s can h =
    let one = h.single in deny-Inv bad_key s refl (ground arith) h.alone h.flag
handle-Inv destroyed s can h = destroy_socket-Inv s h
handle-Inv (ticket_arrives result created) s can h = on_ticket-Inv result created s can h
handle-Inv (opens v) s can h = on_open-Inv v s h
handle-Inv (closes v code) s can h = on_close-Inv v code s h

start-Inv : (online : Bool) → Inv (start_socket online)
unfolding start_socket
start-Inv true =
    connect-Inv new_socket (record { no_timer = refl; no_socket = refl; alone = refl; flag = refl })
      refl
start-Inv false = record {
  waits = λ m. absurd (ground arith);
  serves = λ m. absurd (ground arith);
  rests = λ m. refl;
  single = ground arith;
  alone = refl;
  flag = refl;
}

-- In every state that a connection reaches, at most one attempt is under way: a request for a ticket
-- that is not answered, a timer or a socket; the flag `connecting` is set exactly while a ticket is
-- asked for. One is while the status says that it connects, a socket is there while it says
-- that it is connected, and neither a timer nor a socket is left of one that is destroyed, offline or
-- denied. No timer is overwritten while it runs.
pub one_attempt : (s : RoomSocket) → Reached s → Inv s
one_attempt s (started online) = start-Inv online
one_attempt s (next {s = before} e h can) = handle-Inv e before can (one_attempt before h)
