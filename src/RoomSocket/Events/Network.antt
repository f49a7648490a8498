-- ===== src/RoomSocket/Events/Network.antt =====
-- What a change of the network, and a denial, make of a connection.
use whiteboard_ai.Base.{
  ℕ, ◌≡◌, ◌⊎◌, inl, inr, refl, ap, Bool, true, false, ◌||◌, Option, none, some, arith, Bool-cases,
  ◌==◌, ==_iff,
}
use whiteboard_ai.RoomSocket.{
  denied, offline, connected, TicketResult, ticket, RoomSocket, is_denied, is_offline, is_waiting,
  has_socket, is_socket, connect, reconnect_now, go_offline, destroy_socket, on_ticket, on_open,
  on_close,
}
use whiteboard_ai.RoomSocket.Events.{
  Event, goes_online, goes_offline, timer_fires, fails, misses_key, destroyed, ticket_arrives,
  opens, closes, CanHappen, handle, Reached,
}
use whiteboard_ai.RoomSocket.Events.Attempts.{one_attempt}

-- Denied, with neither a timer nor a socket.
abbrev pub IsDenied : RoomSocket → Type 0
IsDenied s = (s.status ≡ denied) × ((s.has_timer || has_socket s.socket) ≡ false)

no_socket : (v : ℕ) (o : Option ℕ) → has_socket o ≡ false → is_socket v o ≡ false
no_socket v none n = refl
no_socket v (some w) n = absurd (ground arith)

-- A denied connection stays denied, with neither a timer nor a socket, whatever happens but that the
-- network goes offline.
pub denied_stays :
    (e : Event) (s : RoomSocket)
    → Reached s
    → s.status ≡ denied
    → CanHappen e s
    → (e ≡ goes_offline) ⊎ IsDenied (handle e s)
unfolding handle reconnect_now destroy_socket on_ticket on_open on_close
denied_stays goes_online s h d can =
    let at : is_denied s.status ≡ true = ap is_denied d in
    let rest = (one_attempt s h).rests (ground arith) in
    let stop : (s.is_destroyed || is_denied s.status) ≡ true = ground arith in
    inr (rw (stop, reconnect_now, IsDenied) (d, rest))
denied_stays goes_offline s h d can = inl refl
denied_stays timer_fires s h d can =
    let at : is_denied s.status ≡ true = ap is_denied d in
    let rest = (one_attempt s h).rests (ground arith) in absurd (ground arith)
denied_stays fails s h d can =
    let at : is_denied s.status ≡ true = ap is_denied d in
    let rest = (one_attempt s h).rests (ground arith) in absurd (ground arith)
denied_stays misses_key s h d can =
    let at : is_denied s.status ≡ true = ap is_denied d in
    let rest = (one_attempt s h).rests (ground arith) in absurd (ground arith)
denied_stays destroyed s h d can =
    let at : is_denied s.status ≡ true = ap is_denied d in
    let rest = (one_attempt s h).rests (ground arith) in
    inr (elim (Bool-cases s.is_destroyed) [
      | inl t ↦ rw (t, destroy_socket, IsDenied) (d, rest)
      | inr f ↦ rw (f, destroy_socket, IsDenied) (d, refl)
    ])
denied_stays (ticket_arrives result created) s h d can =
    let at : is_denied s.status ≡ true = ap is_denied d in
    let rest = (one_attempt s h).rests (ground arith) in
    let stop : (s.is_destroyed || (is_offline s.status || is_denied s.status)) ≡ true =
      ground arith in
    inr (rw (stop, on_ticket, IsDenied) (d, rest))
denied_stays (opens v) s h d can =
    let at : is_denied s.status ≡ true = ap is_denied d in
    let rest = (one_attempt s h).rests (ground arith) in
    inr (rw (no_socket v s.socket (ground arith), on_open, IsDenied) (d, rest))
denied_stays (closes v code) s h d can =
    let at : is_denied s.status ≡ true = ap is_denied d in
    let rest = (one_attempt s h).rests (ground arith) in
    inr (rw (no_socket v s.socket (ground arith), on_close, IsDenied) (d, rest))

-- A connection that is cut from the network while it asks for no ticket tries again when the network
-- is back: its status says so, and with a ticket and a socket that opens it is connected.
pub comes_back :
    (s : RoomSocket)
    → s.is_destroyed ≡ false
    → s.is_connecting ≡ false
    → let t = reconnect_now (go_offline s) in
      (is_waiting t.status ≡ true)
      × ((on_open s.next_socket (on_ticket ticket true t)).status ≡ connected)
unfolding reconnect_now go_offline connect on_ticket on_open
comes_back s alive idle =
    let self : (s.next_socket == s.next_socket) ≡ true = (==_iff _ _).1 refl in
    elim (Bool-cases s.has_connected) [
      | inl t ↦ rw (alive, idle, t, self) (refl, refl)
      | inr f ↦ rw (alive, idle, f, self) (refl, refl)
    ]

-- One that is cut from the network while it asks for a ticket drops that ticket, whatever it is, also
-- when the network is back before the ticket comes: it then says that it is offline, and no attempt
-- is under way.
pub stays_offline :
    (s : RoomSocket) (result : TicketResult) (created : Bool)
    → s.is_destroyed ≡ false
    → s.is_connecting ≡ true
    → let t = on_ticket result created (reconnect_now (go_offline s)) in
      (t.status ≡ offline) × ((t.is_connecting || (t.has_timer || has_socket t.socket)) ≡ false)
unfolding reconnect_now go_offline connect on_ticket
stays_offline s result created alive asks = rw (alive, asks) (refl, refl)
