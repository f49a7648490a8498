-- ===== src/RoomSocket.antt =====
-- RoomSocket of packages/shared/src/sync/socketBase.ts: the connection of a client to its room. What
-- subclasses do when it opens, closes or brings a message is left out. The callback of `finally` is a
-- microtask, which runs before the next event.
pub mod Invariant
pub mod Events
pub mod Tests
use whiteboard_ai.Base.{
  ℕ, zero, suc, ◌+◌, ◌-◌, Bool, true, false, ◌||◌, Option, none, some, if◌then◌else◌, ◌==◌,
}

pub data SyncStatus : Type 0 where
  connecting connected reconnecting offline denied : SyncStatus

pub data DeniedReason : Type 0 where
  unauthorized forbidden not_found bad_key : DeniedReason

-- The answer to a request for a ticket; `refused` with a reason, or `failed`, which is tried again.
pub data TicketResult : Type 0 where
  ticket : TicketResult
  refused : DeniedReason → TicketResult
  failed : TicketResult

-- The codes that a socket closes with.
pub data CloseCode : Type 0 where
  board_deleted access_changed other_code : CloseCode

-- Sockets are numbered. `stray_timers` are the timers that run beside the one in `has_timer`, because
-- that was overwritten. `open_tickets` are the calls of `openSocket` that wait for their ticket:
-- nothing but the flag `is_connecting` keeps a second one from running beside the first.
pub record RoomSocket : Type 0 where
  pub status : SyncStatus
  pub socket : Option ℕ
  pub next_socket : ℕ
  pub attempt : ℕ
  pub has_timer : Bool
  pub stray_timers : ℕ
  pub is_destroyed : Bool
  pub has_connected : Bool
  pub is_connecting : Bool
  pub open_tickets : ℕ
  pub denied_reason : Option DeniedReason

abbrev pub is_denied : SyncStatus → Bool
is_denied denied = true
is_denied connecting = false
is_denied connected = false
is_denied reconnecting = false
is_denied offline = false

abbrev pub is_offline : SyncStatus → Bool
is_offline offline = true
is_offline connecting = false
is_offline connected = false
is_offline reconnecting = false
is_offline denied = false

abbrev pub is_waiting : SyncStatus → Bool
is_waiting connecting = true
is_waiting reconnecting = true
is_waiting connected = false
is_waiting offline = false
is_waiting denied = false

abbrev pub is_connected : SyncStatus → Bool
is_connected connected = true
is_connected connecting = false
is_connected reconnecting = false
is_connected offline = false
is_connected denied = false

abbrev pub has_socket : Option ℕ → Bool
has_socket none = false
has_socket (some v) = true

abbrev pub is_socket : ℕ → Option ℕ → Bool
is_socket v none = false
is_socket v (some w) = w == v

-- Before `start`.
abbrev pub new_socket : RoomSocket
new_socket = record {
  status = connecting;
  socket = none;
  next_socket = 0;
  attempt = 0;
  has_timer = false;
  stray_timers = 0;
  is_destroyed = false;
  has_connected = false;
  is_connecting = false;
  open_tickets = 0;
  denied_reason = none;
}

abbrev pub clear_reconnect : RoomSocket → RoomSocket
clear_reconnect s = record s { has_timer = false }

abbrev pub close_socket : RoomSocket → RoomSocket
close_socket s = record s { socket = none }

-- The status while there is no connection.
abbrev pub waiting_status : RoomSocket → SyncStatus
waiting_status s = if s.has_connected then reconnecting else connecting

unfoldable pub connect : RoomSocket → RoomSocket
connect s = if s.is_destroyed || (s.is_connecting || is_denied s.status) then s else record s {
  status = waiting_status s;
  is_connecting = true;
  open_tickets = suc s.open_tickets;
}

unfoldable pub schedule_reconnect : RoomSocket → RoomSocket
schedule_reconnect s = if s.is_destroyed then s else record s {
  status = waiting_status s;
  attempt = s.attempt + 1;
  has_timer = true;
  stray_timers = if s.has_timer then suc s.stray_timers else s.stray_timers;
}

abbrev pub is_bad_key : DeniedReason → Bool
is_bad_key bad_key = true
is_bad_key unauthorized = false
is_bad_key forbidden = false
is_bad_key not_found = false

unfoldable pub deny : DeniedReason → RoomSocket → RoomSocket
deny reason s =
    let stopped = record (clear_reconnect s) { denied_reason = some reason; status = denied } in
    if is_bad_key reason then close_socket stopped else stopped

unfoldable pub reconnect_now : RoomSocket → RoomSocket
reconnect_now s =
    if s.is_destroyed || is_denied s.status
    then s
    else connect (record (close_socket (clear_reconnect s)) { attempt = 0 })

unfoldable pub go_offline : RoomSocket → RoomSocket
go_offline s = close_socket (record (clear_reconnect s) { status = offline })

unfoldable pub destroy_socket : RoomSocket → RoomSocket
destroy_socket s =
    if s.is_destroyed then s else close_socket (clear_reconnect (record s { is_destroyed = true }))

unfoldable pub start_socket : Bool → RoomSocket
start_socket online = if online then connect new_socket else record new_socket { status = offline }

-- The rest of openSocket once the ticket is there; `created` says whether createSocket returned.
abbrev pub after_ticket : TicketResult → Bool → RoomSocket → RoomSocket
after_ticket failed created s = schedule_reconnect s
after_ticket (refused reason) created s = deny reason s
after_ticket ticket created s =
    if created
    then record s { socket = some s.next_socket; next_socket = suc s.next_socket }
    else schedule_reconnect s

unfoldable pub on_ticket : TicketResult → Bool → RoomSocket → RoomSocket
on_ticket result created s =
    let stopped = s.is_destroyed || (is_offline s.status || is_denied s.status) in
    let answered = record s { open_tickets = s.open_tickets - 1 } in
    record (if stopped then answered else after_ticket result created answered) {
      is_connecting = false;
    }

unfoldable pub on_open : ℕ → RoomSocket → RoomSocket
on_open v s =
    if is_socket v s.socket
    then record s { attempt = 0; has_connected = true; status = connected }
    else s

abbrev pub after_close : CloseCode → RoomSocket → RoomSocket
after_close board_deleted s = deny not_found s
after_close access_changed s = connect (record s { attempt = 0; status = reconnecting })
after_close other_code s = schedule_reconnect s

unfoldable pub on_close : ℕ → CloseCode → RoomSocket → RoomSocket
on_close v code s =
    let gone = record s { socket = none } in
    let stopped = s.is_destroyed || (is_offline s.status || is_denied s.status) in
    if is_socket v s.socket then (if stopped then gone else after_close code gone) else s

-- The timer's callback.
unfoldable pub on_timer : RoomSocket → RoomSocket
on_timer s = connect (record s { has_timer = false })
