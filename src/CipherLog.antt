-- ===== src/CipherLog.antt =====
-- `CipherLog` of apps/server/src/sync/encryptedRoom.ts: the content of a private room. A blob is a
-- reference to a byte array, which nobody changes; `hash` stands for the SHA-256 digest of its bytes.
-- Of a stored update the source reads here the bytes and the seq alone.
pub mod Known
pub mod CatchUp
mod Tests
use whiteboard_ai.Base.{
  ℕ, ◌+◌, ◌-◌, max, Bool, true, false, Option, none, some, List, [], ◌∷◌, ◌++◌, ltb, ◌==◌, is_none,
  get_or_else, any, filter, length, if◌then◌else◌,
}
use whiteboard_ai.RoomPersistence.{NewUpdate}

pub record Ack : Type 0 where
  pub peer : ℕ
  pub n : ℕ

pub record CipherEntry : Type 0 where
  pub blob : ℕ
  pub hash : ℕ
  pub ack : Option Ack
  pub seq : Option ℕ

pub record Snapshot : Type 0 where
  pub seq_upto : ℕ
  pub blob : ℕ

-- `known` is a set, and `acks` a map from peers to counters.
pub record CipherLog : Type 0 where
  pub snapshot : Option Snapshot
  pub entries : List CipherEntry
  pub known : List ℕ
  pub acks : List (ℕ × ℕ)
  pub last_committed_seq : ℕ

pub record StoredUpdate : Type 0 where
  pub update : ℕ
  pub seq : ℕ

pub record LoadedBoard : Type 0 where
  pub snapshot : Option Snapshot
  pub updates : List StoredUpdate
  pub max_seq : ℕ

abbrev pub empty_log : CipherLog
empty_log = record { snapshot = none; entries = []; known = []; acks = []; last_committed_seq = 0 }

-- `this.acks.get(peer) ?? 0`
abbrev pub counter : ℕ → List (ℕ × ℕ) → ℕ
counter peer [] = 0
counter peer ((p, n) ∷ acks) = if p == peer then n else counter peer acks

-- `this.acks.set(peer, n)`
abbrev pub set_counter : ℕ → ℕ → List (ℕ × ℕ) → List (ℕ × ℕ)
set_counter peer n [] = (peer, n) ∷ []
set_counter peer n ((p, m) ∷ acks) =
    let rest = set_counter peer n acks in if p == peer then (p, n) ∷ acks else (p, m) ∷ rest

unfoldable pub note_ack : Option Ack → List (ℕ × ℕ) → List (ℕ × ℕ)
note_ack none acks = acks
note_ack (some a) acks = if ltb (counter a.peer acks) a.n then set_counter a.peer a.n acks else acks

abbrev pub raise : Option ℕ → ℕ → ℕ
raise none last = last
raise (some seq) last = max last seq

abbrev pub has : ℕ → CipherLog → Bool
has h log = any (λ k. k == h) log.known

-- Each entry that no snapshot up to `seq_upto` covers.
abbrev pub is_after : ℕ → CipherEntry → Bool
is_after seq_upto e = elim e.seq [ none ↦ true | some s ↦ ltb seq_upto s ]

unfoldable pub install_snapshot : ℕ → ℕ → CipherLog → CipherLog
install_snapshot seq_upto blob log = record log {
  snapshot = some (record { seq_upto = seq_upto; blob = blob });
  entries = filter (is_after seq_upto) log.entries;
}

abbrev pub to_new_update : CipherEntry → NewUpdate ℕ
to_new_update e = record { update = e.blob; client_id = none; user_id = none }

abbrev uncommitted : List CipherEntry → List (NewUpdate ℕ)
uncommitted [] = []
uncommitted (e ∷ es) =
    let rest = uncommitted es in if is_none e.seq then to_new_update e ∷ rest else rest

pub full_state : CipherLog → List (NewUpdate ℕ)
full_state log = uncommitted log.entries

-- `bySeq.get(blob)` is the last entry with this blob; its seq is set.
abbrev set_seq : ℕ → ℕ → List CipherEntry → List CipherEntry
set_seq blob n [] = []
set_seq blob n (e ∷ es) =
    let rest = set_seq blob n es in
    if any (λ f. f.blob == blob) es
    then e ∷ rest
    else if e.blob == blob
    then record e { seq = some n } ∷ es
    else e ∷ rest

-- `batch.forEach((update, i) => ...)`
abbrev pub set_seqs : List (NewUpdate ℕ) → ℕ → List CipherEntry → List CipherEntry
set_seqs [] n es = es
set_seqs (u ∷ us) n es = set_seqs us (n + 1) (set_seq u.update n es)

unfoldable pub committed : List (NewUpdate ℕ) → ℕ → CipherLog → CipherLog
committed batch first_seq log = record log {
  entries = set_seqs batch first_seq log.entries;
  last_committed_seq = max log.last_committed_seq (first_seq + length batch - 1);
}

-- One round of the loop of `catchUp`, with the seq that the entry is stored under, and what the
-- loop makes of the later entries.
abbrev catch_entry :
    Option ℕ
    → CipherEntry
    → List CipherEntry × List (NewUpdate ℕ)
    → List CipherEntry × List (NewUpdate ℕ)
catch_entry (some s) e (es, missing) = (record e { seq = some s } ∷ es, missing)
catch_entry none e (es, missing) =
    (e ∷ es, (if is_none e.seq then to_new_update e ∷ missing else missing))

module _ (hash : ℕ → ℕ) where
  abbrev pub entry_of : ℕ → Option Ack → Option ℕ → CipherEntry
  entry_of blob ack seq = record { blob = blob; hash = hash blob; ack = ack; seq = seq }

  unfoldable pub add : ℕ → Option Ack → Option ℕ → CipherLog → CipherLog × Option CipherEntry
  unfolding note_ack
  add blob ack seq log = if has (hash blob) log then (log, none) else (
    record log {
      known = log.known ++ hash blob ∷ [];
      entries = log.entries ++ entry_of blob ack seq ∷ [];
      acks = note_ack ack log.acks;
      last_committed_seq = raise seq log.last_committed_seq;
    },
    some (entry_of blob ack seq),
  )

  abbrev pub add_all : List StoredUpdate → CipherLog → CipherLog
  add_all [] log = log
  add_all (u ∷ us) log = add_all us (add u.update none (some u.seq) log).0

  unfoldable pub load : LoadedBoard → CipherLog → CipherLog
  load board log = record (add_all board.updates (record log { snapshot = board.snapshot })) {
    last_committed_seq = board.max_seq;
  }

  -- `storedSeq.get(h)`: of rows with the same hash the last counts.
  pub stored_seq : List StoredUpdate → ℕ → Option ℕ
  stored_seq [] h = none
  stored_seq (row ∷ rows) h = elim (stored_seq rows h) [
    | some s ↦ some s
    | none ↦ if hash row.update == h then some row.seq else none
  ]

  -- The loop of `catchUp`: the entries, and those that are missing.
  unfoldable pub catch_entries :
      List StoredUpdate → List CipherEntry → List CipherEntry × List (NewUpdate ℕ)
  catch_entries rows [] = ([], [])
  catch_entries rows (e ∷ es) = catch_entry (stored_seq rows e.hash) e (catch_entries rows es)

  -- `rows` is what `updatesSince` answers: all that is stored after the snapshot.
  unfoldable pub catch_up : List StoredUpdate → CipherLog → CipherLog × List (NewUpdate ℕ)
  unfolding catch_entries
  catch_up rows log =
      let (entries, missing) = catch_entries rows log.entries in
      (record log { entries = entries }, missing)
