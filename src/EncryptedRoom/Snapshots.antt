-- ===== src/EncryptedRoom/Snapshots.antt =====
-- Snapshots of a private room (requestSnapshot, receiveSnapshot and isEnvelope; encryptedRoom.ts and
-- packages/shared/src/sync/e2e.ts). Each `await` ends one function, and its continuation is the next.
use whiteboard_ai.Base.{
  ℕ, Bool, true, false, ◌&&◌, ◌||◌, not, Option, none, some, List, [], ◌∷◌, find, length, is_none,
  ltb, leb, ◌==◌, if◌then◌else◌,
}
use whiteboard_ai.RoomPersistence.{snapshot_installed}
use whiteboard_ai.CipherLog.{StoredUpdate, Snapshot, add, install_snapshot}
use whiteboard_ai.EncryptedRoom.{
  Connections, EncryptedRoom, SnapshotRequest, update_message, request_message, broadcast, send,
}

abbrev pub min_envelope_bytes : ℕ
min_envelope_bytes = 29

-- `isEnvelope(bytes)`: the version is 1.
abbrev pub is_envelope : List ℕ → Bool
is_envelope [] = false
is_envelope (b ∷ bs) = leb min_envelope_bytes (length (b ∷ bs)) && b == 1

-- `this.log.snapshot?.seqUpto ?? 0`
abbrev pub covered_upto : Option Snapshot → ℕ
covered_upto none = 0
covered_upto (some s) = s.seq_upto

module _ (c : Connections) where
  -- `pickSnapshotPeer()`
  abbrev pub pick_snapshot_peer : EncryptedRoom → Option ℕ
  pick_snapshot_peer r = find c.can_write r.peers

  -- `requestSnapshot` up to its `await`: the seq to cover, and the one that is covered already.
  unfoldable pub request_snapshot : EncryptedRoom → EncryptedRoom × Option (ℕ × ℕ)
  request_snapshot r =
      let seq_upto = r.log.last_committed_seq in
      let covered = covered_upto r.log.snapshot in
      if not (is_none r.snapshot_request) || r.snapshot_starting || r.closing
      then (r, none)
      else if leb seq_upto covered || is_none (pick_snapshot_peer r)
      then (r, none)
      else (record r { snapshot_starting = true }, some (seq_upto, covered))

  abbrev pub ask : ℕ → ℕ → Option ℕ → EncryptedRoom → EncryptedRoom
  ask id seq_upto none r = r
  ask id seq_upto (some p) r =
      if r.closing
      then r
      else send p (request_message id seq_upto)
          (record r { snapshot_request = some (record { id = id; seq_upto = seq_upto; peer = p }) })

module _ (hash : ℕ → ℕ) (bytes : ℕ → List ℕ) where
  -- A stored row that this instance never saw goes to its clients, and is not stored again.
  unfoldable pub relay_row : ℕ → StoredUpdate → EncryptedRoom → EncryptedRoom
  unfolding add
  relay_row seq_upto row r =
      let (log, entry) = add hash row.update none (some row.seq) r.log in
      if ltb seq_upto row.seq || not (is_envelope (bytes row.update))
      then r
      else if is_none entry
      then record r { log = log }
      else broadcast (update_message row.update) none (record r { log = log })

  unfoldable pub relay_rows : ℕ → List StoredUpdate → EncryptedRoom → EncryptedRoom
  unfolding relay_row
  relay_rows seq_upto [] r = r
  relay_rows seq_upto (row ∷ rows) r = relay_rows seq_upto rows (relay_row seq_upto row r)

  -- `updatesSince` answered with `rows`; `id` is the random number of the request.
  unfoldable pub ask_for_snapshot :
      Connections → ℕ → ℕ → List StoredUpdate → EncryptedRoom → EncryptedRoom
  unfolding relay_rows
  ask_for_snapshot c id seq_upto rows r =
      let r1 = relay_rows seq_upto rows r in
      record (ask c id seq_upto (pick_snapshot_peer c r1) r1) { snapshot_starting = false }

-- `updatesSince` was rejected.
abbrev pub request_failed : EncryptedRoom → EncryptedRoom
request_failed r = record r { snapshot_starting = false }

abbrev pub is_request : Option SnapshotRequest → ℕ → Bool
is_request none id = false
is_request (some q) id = q.id == id

-- The callback of the request's timer.
unfoldable pub request_times_out : ℕ → EncryptedRoom → EncryptedRoom
request_times_out id r =
    if is_request r.snapshot_request id then record r { snapshot_request = none } else r

-- `request?.peer !== peer || request.id !== requestId`, negated.
abbrev pub answers : ℕ → ℕ → SnapshotRequest → Bool
answers p id q = q.peer == p && q.id == id

abbrev pub accept_answer :
    ℕ → ℕ → Option SnapshotRequest → EncryptedRoom → EncryptedRoom × Option SnapshotRequest
accept_answer p id none r = (r, none)
accept_answer p id (some q) r =
    if answers p id q then (record r { snapshot_request = none }, some q) else (r, none)

-- `receiveSnapshot` up to its `await`: the request that this answers, or none if it answers `false`.
unfoldable pub receive_snapshot : ℕ → ℕ → EncryptedRoom → EncryptedRoom × Option SnapshotRequest
receive_snapshot p id r = accept_answer p id r.snapshot_request r

-- The repository answered: `archived` is none if another snapshot superseded this one, or it failed.
unfoldable pub snapshot_stored : SnapshotRequest → ℕ → Option ℕ → EncryptedRoom → EncryptedRoom
unfolding install_snapshot
snapshot_stored q blob archived r = elim archived [
  | none ↦ r
  | some n ↦ record r {
    log = install_snapshot q.seq_upto blob r.log;
    persistence = elim r.persistence [ none ↦ none | some p ↦ some (snapshot_installed n p) ];
  }
]
