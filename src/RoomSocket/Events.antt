-- ===== src/RoomSocket/Events.antt =====
-- What happens to a connection, in any order: the events that its handlers wait for.
pub mod Attempts
pub mod Network
use whiteboard_ai.Base.{ℕ, ◌≤◌, ◌≡◌, Bool, true, false}
use whiteboard_ai.RoomSocket.{
  TicketResult, bad_key, CloseCode, RoomSocket, has_socket, deny, reconnect_now, go_offline,
  destroy_socket, start_socket, on_ticket, on_open, on_close, on_timer,
}

-- `fails` is a send that throws or a message that is malformed, `misses_key` one that cannot be
-- decrypted.
pub data Event : Type 0 where
  goes_online goes_offline timer_fires fails misses_key destroyed : Event
  ticket_arrives : TicketResult → Bool → Event
  opens : ℕ → Event
  closes : ℕ → CloseCode → Event

-- The network is no longer watched once the connection is destroyed.
abbrev pub CanHappen : Event → RoomSocket → Type 0
CanHappen goes_online s = s.is_destroyed ≡ false
CanHappen goes_offline s = s.is_destroyed ≡ false
CanHappen timer_fires s = s.has_timer ≡ true
CanHappen fails s = has_socket s.socket ≡ true
CanHappen misses_key s = has_socket s.socket ≡ true
CanHappen destroyed s = Unit
CanHappen (ticket_arrives result created) s = 1 ≤ s.open_tickets
CanHappen (opens v) s = Unit
CanHappen (closes v code) s = Unit

unfoldable pub handle : Event → RoomSocket → RoomSocket
handle goes_online s = reconnect_now s
handle goes_offline s = go_offline s
handle timer_fires s = on_timer s
handle fails s = reconnect_now s
handle misses_key s = deny bad_key s
handle destroyed s = destroy_socket s
handle (ticket_arrives result created) s = on_ticket result created s
handle (opens v) s = on_open v s
handle (closes v code) s = on_close v code s

pub data Reached : RoomSocket → Type 0 where
  started : (online : Bool) → Reached (start_socket online)
  next : {s : RoomSocket} (e : Event) → Reached s → CanHappen e s → Reached (handle e s)
