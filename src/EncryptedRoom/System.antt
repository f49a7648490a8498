-- ===== src/EncryptedRoom/System.antt =====
-- What can happen to a room (encryptedRoom.ts), each call as a step: the manager, the connections,
-- the other instances, the database and the timers choose the order.
use whiteboard_ai.Base.{ℕ, ◌≡◌, Bool, true, Option, List, [], includes}
use whiteboard_ai.RoomPersistence.{RoomPersistence, Options, NewUpdate}
use whiteboard_ai.CipherLog.{StoredUpdate, LoadedBoard, committed, catch_up}
use whiteboard_ai.EncryptedRoom.{
  Vector, Connections, EncryptedRoom, SnapshotRequest, ClusterMessage, new_room, add_member,
  apply_loaded, welcome, receive_update, receive_awareness, remove_member, mark_persisted, destroy,
}
use whiteboard_ai.EncryptedRoom.Snapshots.{
  request_snapshot, ask_for_snapshot, request_failed, request_times_out, receive_snapshot,
  snapshot_stored,
}
use whiteboard_ai.EncryptedRoom.Cluster.{handle_cluster, finish_loading}

module _ (hash : ℕ → ℕ) (bytes : ℕ → List ℕ) (c : Connections) (o : Options) where
  -- A connection joins before it is welcomed, and a board is loaded before any is.
  pub data RoomStep (r : EncryptedRoom) : EncryptedRoom → Type 0 where
    joins : (m : ℕ) → RoomStep r (add_member m r)
    loads : (board : LoadedBoard) → r.peers ≡ [] → RoomStep r (apply_loaded hash board r)
    finishes : (now : ℕ) → RoomStep r (finish_loading hash bytes o now r)
    welcomes : (now p : ℕ) → includes p r.members ≡ true → RoomStep r (welcome c now p r)
    delivers : (p n blob : ℕ) → RoomStep r (receive_update hash c o p n blob r)
    shows : (now p blob : ℕ) → RoomStep r (receive_awareness c now p blob r)
    leaves : (m : ℕ) → RoomStep r (remove_member c m r)
    hears :
        (now : ℕ) (message : ClusterMessage)
        → RoomStep r (handle_cluster hash bytes o now message r)
    persists : (marker : Vector) (announce : Bool) → RoomStep r (mark_persisted marker announce r)
    commits :
        (batch : List (NewUpdate ℕ)) (first_seq : ℕ)
        → RoomStep r (record r { log = committed batch first_seq r.log })
    catches_up :
        (rows : List StoredUpdate) → RoomStep r (record r { log = (catch_up hash rows r.log).0 })
    begins_snapshot : RoomStep r (request_snapshot c r).0
    asks :
        (id seq_upto : ℕ) (rows : List StoredUpdate)
        → RoomStep r (ask_for_snapshot hash bytes c id seq_upto rows r)
    fails : RoomStep r (request_failed r)
    times_out : (id : ℕ) → RoomStep r (request_times_out id r)
    answered : (p id : ℕ) → RoomStep r (receive_snapshot p id r).0
    stores :
        (q : SnapshotRequest) (blob : ℕ) (archived : Option ℕ)
        → RoomStep r (snapshot_stored q blob archived r)
    manages :
        (persistence : Option (RoomPersistence ℕ Vector)) (closing : Bool)
        → RoomStep r (record r { persistence = persistence; closing = closing })
    destroys : RoomStep r (destroy r)

  pub data ReachRoom : EncryptedRoom → Type 0 where
    start : ReachRoom new_room
    next : {r s : EncryptedRoom} → ReachRoom r → RoomStep r s → ReachRoom s
