-- ===== src/RoomSocket/Tests.antt =====
-- A connection that starts online, one that is open, and one that was refused.
use whiteboard_ai.Base.{◌≡◌, refl, true, false, ◌||◌, some}
use whiteboard_ai.RoomSocket.{
  connected, offline, denied, forbidden, ticket, refused, RoomSocket, new_socket, has_socket,
  start_socket, connect, deny, reconnect_now, go_offline, on_ticket, on_open,
}
use whiteboard_ai.RoomSocket.Events.{ticket_arrives, handle, started}
use whiteboard_ai.RoomSocket.Invariant.{Inv}
use whiteboard_ai.RoomSocket.Events.Attempts.{one_attempt}
use whiteboard_ai.RoomSocket.Events.Network.{stays_offline}

abbrev asking : RoomSocket
asking = record new_socket { is_connecting = true; open_tickets = 1 }

abbrev open_socket : RoomSocket
open_socket = record new_socket {
  status = connected;
  socket = some 0;
  next_socket = 1;
  has_connected = true;
}

start_socket_test : start_socket true ≡ asking
unfolding start_socket connect
start_socket_test = refl

on_open_test : on_open 0 (on_ticket ticket true (start_socket true)) ≡ open_socket
unfolding start_socket connect on_ticket on_open
on_open_test = refl

one_attempt_example : Inv (start_socket true)
one_attempt_example = one_attempt (start_socket true) (started true)

abbrev refused_socket : RoomSocket
refused_socket = handle (ticket_arrives (refused forbidden) true) (start_socket true)

asks : (start_socket true).is_connecting ≡ true
unfolding start_socket connect
asks = refl

refused-IsDenied : refused_socket.status ≡ denied
unfolding handle on_ticket deny start_socket connect
refused-IsDenied = refl

refused_lives : refused_socket.is_destroyed ≡ false
unfolding handle on_ticket deny start_socket connect
refused_lives = refl

stays_offline_example :
    let t = on_ticket ticket true (reconnect_now (go_offline asking)) in
    (t.status ≡ offline) × ((t.is_connecting || (t.has_timer || has_socket t.socket)) ≡ false)
stays_offline_example = stays_offline asking ticket true refl refl
