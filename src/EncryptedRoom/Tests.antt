-- ===== src/EncryptedRoom/Tests.antt =====
-- Runs of private rooms (encryptedRoom.ts), and instances of the theorems. Bytes are hashed to their
-- number modulo 100; every reference is to the same envelope but 99, which is to no bytes.
use whiteboard_ai.Base.{
  ℕ, ◌%◌, ◌==◌, ◌≤◌, ◌≡◌, ◌≢◌, ◌⊎◌, refl, true, false, not, none, some, List, [], ◌∷◌, any, Memᴰ,
  arith, if◌then◌else◌,
}
use whiteboard_ai.RoomPersistence.{Options}
use whiteboard_ai.CipherLog.{CipherEntry, StoredUpdate, has, load, LoadedBoard}
use whiteboard_ai.CipherLog.Known.{IsLog}
use whiteboard_ai.EncryptedRoom.{
  Connections, EncryptedRoom, SnapshotRequest, ClusterMessage, sync_request, peer_left, Presence,
  new_room, add_member, apply_loaded, welcome, receive_update, receive_awareness, get_presence,
}
use whiteboard_ai.EncryptedRoom.Snapshots.{ask_for_snapshot, receive_snapshot, snapshot_stored}
use whiteboard_ai.EncryptedRoom.Cluster.{handle_cluster, handle_all, finish_loading}
use whiteboard_ai.EncryptedRoom.System.{
  ReachRoom, start, next, joins, loads, finishes, welcomes, delivers,
}
use whiteboard_ai.EncryptedRoom.Synced.{holds}
use whiteboard_ai.EncryptedRoom.Supplied.{every_peer_is_supplied}
use whiteboard_ai.EncryptedRoom.Replaced.{WasReplaced}
use whiteboard_ai.EncryptedRoom.Requests.{asked_peer_holds_rows}
use whiteboard_ai.EncryptedRoom.Answers.{answer_lem}
use whiteboard_ai.EncryptedRoom.Relays.{news}
use whiteboard_ai.EncryptedRoom.Exchange.{answered_request_teaches, is_sync_request}
use whiteboard_ai.EncryptedRoom.Presences.{local_presence_stays}

abbrev digest : ℕ → ℕ
digest b = b % 100

abbrev envelope : List ℕ
envelope =
    1 ∷ 0 ∷ 0 ∷ 0 ∷ 0 ∷ 0 ∷ 0 ∷ 0 ∷ 0 ∷ 0 ∷ 0 ∷ 0 ∷ 0 ∷ 0 ∷ 0 ∷ 0 ∷ 0 ∷ 0 ∷ 0 ∷ 0 ∷ 0 ∷ 0 ∷ 0 ∷ 0
    ∷ 0 ∷ 0 ∷ 0 ∷ 0 ∷ 0 ∷ 0 ∷ []

abbrev content_of : ℕ → List ℕ
content_of b = if b == 99 then [] else envelope

-- Connection 1 may write, connection 2 may read.
abbrev peers : Connections
peers = record {
  peer_id = λ p. p % 100;
  can_write = λ p. p == 1;
  attribution = λ p. record { client_id = none; user_id = some p };
}

abbrev options : Options
options = record { flush_ms = 200; snapshot_every = 500 }

abbrev board : LoadedBoard
board = record { snapshot = none; updates = record { update = 5; seq = 1 } ∷ []; max_seq = 1 }

-- A loaded room, that 1 and 2 have joined.
abbrev r1 : EncryptedRoom
r1 = welcome peers 0 2 (
    welcome peers 0 1 (
      add_member 2 (
        add_member 1
          (finish_loading digest content_of options 0 (apply_loaded digest board new_room)))))

abbrev r2 : EncryptedRoom
r2 = receive_update digest peers options 1 1 7 r1

r2-ReachRoom : ReachRoom digest content_of peers options r2
unfolding welcome finish_loading
r2-ReachRoom =
    next
      (next
        (next (next (next (next (next start (loads board refl)) (finishes 0)) (joins 1)) (joins 2))
          (welcomes 0 1 refl))
        (welcomes 0 2 refl))
      (delivers 1 1 7)

-- Connection 2 holds the update 5, which it was sent in its welcome, and 7, which 1 delivered.
both_supplied :
    (holds digest 2 5 r2.sent r2.received ≡ true)
    × (holds digest 2 7 r2.sent r2.received ≡ true)
    × (holds digest 1 7 r2.sent r2.received ≡ true)
    × (holds digest 2 8 r2.sent r2.received ≡ false)
unfolding receive_update welcome finish_loading load
both_supplied = (refl, refl, refl, refl)

abbrev entry_7 : CipherEntry
entry_7 = record { blob = 7; hash = 7; ack = some (record { peer = 1; n = 1 }); seq = none }

every_peer_is_supplied_example : (true ≡ true) × (holds digest 2 7 r2.sent r2.received ≡ true)
unfolding receive_update welcome finish_loading load
every_peer_is_supplied_example =
    every_peer_is_supplied digest content_of peers options 2 entry_7 r2-ReachRoom refl
      (Memᴰ.tail (Memᴰ.head refl))

abbrev request : SnapshotRequest
request = record { id = 44; seq_upto = 2; peer = 1 }

-- The row 2 was written by another instance.
abbrev rows : List StoredUpdate
rows = record { update = 5; seq = 1 } ∷ record { update = 8; seq = 2 } ∷ []

abbrev r3 : EncryptedRoom
r3 = ask_for_snapshot digest content_of peers 44 2 rows r2

asked_peer_holds_rows_example :
    (peers.can_write 1 ≡ true)
    × (any (λ p. p == 1) r2.peers ≡ true)
    × (◌≡◌ {A = ℕ} 2 2)
    × ((holds digest 1 8 r3.sent r3.received ≡ true)
        ⊎ WasReplaced digest content_of peers options 8 r2-ReachRoom)
unfolding receive_update welcome finish_loading load ask_for_snapshot
asked_peer_holds_rows_example =
    asked_peer_holds_rows digest content_of peers options {q = request} 44 2 rows
      (record { update = 8; seq = 2 }) r2-ReachRoom refl refl (Memᴰ.tail (Memᴰ.head refl))
      (omega arith) refl

-- The answer of connection 1 is taken, and its snapshot replaces the entries up to the seq 2.
snapshot_replaces :
    (snapshot_stored request 70 (some 2) (receive_snapshot 1 44 r3).0).log.entries ≡ entry_7 ∷ []
unfolding receive_update welcome finish_loading load ask_for_snapshot receive_snapshot
    snapshot_stored
snapshot_replaces = refl

answer_lem_example :
    let (s, taken) = receive_snapshot 2 44 r3 in
    ((q : SnapshotRequest) × (taken ≡ some q)
      × (r3.snapshot_request ≡ some q)
      × (q.peer ≡ 2)
      × (q.id ≡ 44)
      × (s ≡ record r3 { snapshot_request = none })
      × ((Memᴰ entry_7 (snapshot_stored q 70 (some 2) s).log.entries)
          ⊎ ((k : ℕ) × (entry_7.seq ≡ some k) × (k ≤ q.seq_upto))))
    ⊎ (taken ≡ none)
      × (s ≡ r3)
      × ((k : ℕ) → r3.snapshot_request ≢ some (record { id = 44; seq_upto = k; peer = 2 }))
unfolding receive_update welcome finish_loading load ask_for_snapshot
answer_lem_example = answer_lem 2 44 70 (some 2) r3 entry_7 (Memᴰ.tail (Memᴰ.head refl))

-- Another instance, which has loaded the same board.
abbrev other : EncryptedRoom
other = finish_loading digest content_of options 0 (apply_loaded digest board new_room)

r2_log-IsLog : IsLog digest r2.log
unfolding receive_update welcome finish_loading load
r2_log-IsLog = record {
  sound = ((refl, refl), ((refl, refl), tt));
  distinct = ((refl, tt), (tt, tt));
}

answered_request_teaches_example :
    let ask : ClusterMessage = record { from = 2; content = sync_request other.log.known } in
    let r' = handle_cluster digest content_of options 0 ask r2 in
    (has 7 (handle_all digest content_of options 0 (news 1 r2 r') other).log ≡ true)
    × (any (λ n. is_sync_request n.content) (news 1 r2 r')
        ≡ any (λ h. not (has h r2.log)) other.log.known)
unfolding receive_update welcome finish_loading load
answered_request_teaches_example =
    answered_request_teaches digest content_of options 0 1 2 r2 other entry_7 refl refl
      (refl, (refl, tt)) r2_log-IsLog (Memᴰ.tail (Memᴰ.head refl))

abbrev r4 : EncryptedRoom
r4 = receive_awareness peers 10 1 30 r2

abbrev cursor : Presence
cursor = record { blob = 30; member = some 1; at = 10 }

local_presence_stays_example :
    get_presence 1
      (handle_cluster digest content_of options 20
        (record { from = 2; content = peer_left 1 })
        r4).presence
    ≡ some cursor
unfolding receive_update welcome finish_loading load receive_awareness
local_presence_stays_example =
    local_presence_stays digest content_of options 20 1 (record { from = 2; content = peer_left 1 })
      cursor 1 r4 refl refl
