-- ===== src/RoomSocket/Invariant.antt =====
-- What holds of a connection at all times, and that its methods keep it.
use whiteboard_ai.Base.{
  ℕ, ◌≡◌, ◌≤◌, ◌+◌, inl, inr, refl, subst, Bool, true, false, not, ◌&&◌, ◌||◌, arith, Bool-cases,
  if◌then◌else◌,
}
use whiteboard_ai.RoomSocket.{
  SyncStatus, connecting, connected, reconnecting, offline, denied, DeniedReason, RoomSocket,
  is_denied, is_offline, is_waiting, is_connected, has_socket, waiting_status, connect,
  schedule_reconnect, deny, is_bad_key, reconnect_now, go_offline, destroy_socket, on_timer,
}

abbrev pub count : Bool → ℕ
count b = if b then 1 else 0

pub record Inv (s : RoomSocket) : Type 0 where
  pub waits :
      is_waiting s.status ≡ true
      → (s.is_destroyed || (s.is_connecting || (s.has_timer || has_socket s.socket))) ≡ true
  pub serves : is_connected s.status ≡ true → (s.is_destroyed || has_socket s.socket) ≡ true
  pub rests :
      (s.is_destroyed || (is_offline s.status || is_denied s.status)) ≡ true
      → (s.has_timer || has_socket s.socket) ≡ false
  pub single : s.open_tickets + (count s.has_timer + count (has_socket s.socket)) ≤ 1
  pub alone : s.stray_timers ≡ 0
  pub flag : s.open_tickets ≡ count s.is_connecting

-- Each status is of one sort.
pub sorts :
    (t : SyncStatus)
    → count (is_waiting t) + (count (is_connected t) + (count (is_offline t) + count (is_denied t)))
      ≡ 1
sorts connecting = refl
sorts connected = refl
sorts reconnecting = refl
sorts offline = refl
sorts denied = refl

pub waiting_status-waits : (s : RoomSocket) → is_waiting (waiting_status s) ≡ true
waiting_status-waits s = elim (Bool-cases s.has_connected) [ inl t ↦ rw t refl | inr f ↦ rw f refl ]

pub quiet :
    (s : RoomSocket)
    → Inv s
    → s.is_destroyed ≡ false
    → (s.is_connecting && is_connected s.status) ≡ false
quiet s h alive = elim (Bool-cases (is_connected s.status)) [
  | inl t ↦ let a = h.serves t in let b = h.single in let f = h.flag in ground arith
  | inr f ↦ ground arith
]

-- Nothing is under way but a request for a ticket.
pub record IsFree (s : RoomSocket) : Type 0 where
  pub no_timer : s.has_timer ≡ false
  pub no_socket : has_socket s.socket ≡ false
  pub alone : s.stray_timers ≡ 0
  pub flag : s.open_tickets ≡ count s.is_connecting

pub connect-Inv :
    (s : RoomSocket)
    → IsFree s
    → (s.is_connecting && is_connected s.status) ≡ false
    → Inv (connect s)
unfolding connect
connect-Inv s free quiet =
    let a = free.no_timer in
    let b = free.no_socket in
    let flag = free.flag in
    let sort = sorts s.status in
    elim (Bool-cases (s.is_destroyed || (s.is_connecting || is_denied s.status))) [
      | inl t ↦
          rw (t, connect)
            (record {
              waits = λ m. ground arith;
              serves = λ m. ground arith;
              rests = λ m. ground arith;
              single = ground arith;
              alone = free.alone;
              flag = ground arith;
            })
      | inr f ↦
          let status = waiting_status-waits s in
          let other = sorts (waiting_status s) in
          rw (f, connect)
            (record {
              waits = λ m. ground arith;
              serves = λ m. ground arith;
              rests = λ m. ground arith;
              single = ground arith;
              alone = free.alone;
              flag = ground arith;
            })
    ]

pub schedule_reconnect-Inv :
    (s : RoomSocket)
    → IsFree s
    → s.is_connecting ≡ false
    → s.is_destroyed ≡ false
    → Inv (schedule_reconnect s)
unfolding schedule_reconnect
schedule_reconnect-Inv s free idle alive =
    let a = free.no_timer in
    let b = free.no_socket in
    let flag = free.flag in
    let status = waiting_status-waits s in
    let other = sorts (waiting_status s) in
    rw (alive, schedule_reconnect)
      (record {
        waits = λ m. ground arith;
        serves = λ m. ground arith;
        rests = λ m. ground arith;
        single = ground arith;
        alone = rw a free.alone;
        flag = ground arith;
      })

pub deny-Inv :
    (reason : DeniedReason) (s : RoomSocket)
    → (is_bad_key reason || not (has_socket s.socket)) ≡ true
    → s.open_tickets + count (has_socket s.socket) ≤ 1
    → s.stray_timers ≡ 0
    → s.open_tickets ≡ count s.is_connecting
    → Inv (deny reason s)
unfolding deny
deny-Inv reason s shut one alone flag = elim (Bool-cases (is_bad_key reason)) [
  | inl t ↦
      rw (t, deny)
        (record {
          waits = λ m. ground arith;
          serves = λ m. ground arith;
          rests = λ m. ground arith;
          single = ground arith;
          alone = alone;
          flag = flag;
        })
  | inr f ↦
      rw (f, deny)
        (record {
          waits = λ m. ground arith;
          serves = λ m. ground arith;
          rests = λ m. ground arith;
          single = ground arith;
          alone = alone;
          flag = flag;
        })
]

pub reconnect_now-Inv : (s : RoomSocket) → Inv s → Inv (reconnect_now s)
unfolding reconnect_now
reconnect_now-Inv s h = elim (Bool-cases (s.is_destroyed || is_denied s.status)) [
  | inl t ↦ rw (t, reconnect_now) h
  | inr f ↦
      let serves : (s.is_connecting && is_connected s.status) ≡ false = quiet s h (ground arith) in
      rw (f, reconnect_now)
        (connect-Inv _
          (record { no_timer = refl; no_socket = refl; alone = h.alone; flag = h.flag }) serves)
]

pub go_offline-Inv : (s : RoomSocket) → Inv s → Inv (go_offline s)
unfolding go_offline
go_offline-Inv s h = record {
  waits = λ m. ground arith;
  serves = λ m. ground arith;
  rests = λ m. refl;
  single = ground arith;
  alone = h.alone;
  flag = h.flag;
}

pub destroy_socket-Inv : (s : RoomSocket) → Inv s → Inv (destroy_socket s)
unfolding destroy_socket
destroy_socket-Inv s h = elim (Bool-cases s.is_destroyed) [
  | inl t ↦ rw (t, destroy_socket) (subst (λ b. Inv (record s { is_destroyed = b })) t h)
  | inr f ↦
      rw (f, destroy_socket)
        (record {
          waits = λ m. refl;
          serves = λ m. refl;
          rests = λ m. refl;
          single = ground arith;
          alone = h.alone;
          flag = h.flag;
        })
]

pub on_timer-Inv : (s : RoomSocket) → s.has_timer ≡ true → Inv s → Inv (on_timer s)
unfolding on_timer
on_timer-Inv s t h =
    let one = h.single in
    connect-Inv _
      (record { no_timer = refl; no_socket = ground arith; alone = h.alone; flag = h.flag })
      (ground arith)
