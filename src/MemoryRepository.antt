-- ===== src/MemoryRepository.antt =====
-- MemoryBoardRepository of apps/server/src/persistence/memoryRepository.ts, and the interface of
-- repository.ts that it implements. An operation that fails returns none. `State` is the type of
-- snapshots, and what builds them is an argument, as in the source.
pub mod Numbered
pub mod Content
pub mod Roundtrip
mod Tests
use whiteboard_ai.Base.{
  ℕ, zero, suc, ◌+◌, ◌-◌, max, Bool, true, false, not, ◌||◌, Option, none, some, List, [], ◌∷◌,
  ◌++◌, map, filter, length, ltb, leb, ◌==◌, sort, if◌then◌else◌,
}
use whiteboard_ai.RoomPersistence.{NewUpdate}

pub record StoredUpdate : Type 0 where
  pub update : ℕ
  pub client_id : Option ℕ
  pub user_id : Option ℕ
  pub seq : ℕ

-- `xs.at(-1)`
abbrev pub last_of {ℓ} : {A : Type ℓ} → List A → Option A
last_of [] = none
last_of (x ∷ xs) = elim xs [ [] ↦ some x | y ∷ ys ↦ last_of xs ]

abbrev pub stored_at : ℕ → NewUpdate ℕ → StoredUpdate
stored_at seq u = record {
  update = u.update;
  client_id = u.client_id;
  user_id = u.user_id;
  seq = seq;
}

-- The updates with their seqs, from `seq` on.
unfoldable pub numbered : ℕ → List (NewUpdate ℕ) → List StoredUpdate
numbered seq [] = []
numbered seq (u ∷ us) = stored_at seq u ∷ numbered (suc seq) us

module _ (State : Type 0) where
  pub record SavedState : Type 0 where
    pub seq_upto : ℕ
    pub state : State

  pub record LoadedBoard : Type 0 where
    pub exists : Bool
    pub is_deleted : Bool
    pub snapshot : Option SavedState
    pub updates : List StoredUpdate
    pub max_seq : ℕ

  pub record MemoryBoard : Type 0 where
    pub is_deleted : Bool
    pub last_seq : ℕ
    pub snapshots : List SavedState
    pub updates : List StoredUpdate
    pub archive : List StoredUpdate

  -- `boards` is the map.
  pub record MemoryRepository : Type 0 where
    pub boards : ℕ → Option MemoryBoard
    pub fail_next : ℕ
    pub append_calls : ℕ

  abbrev pub new_board : MemoryBoard
  new_board = record {
    is_deleted = false;
    last_seq = 0;
    snapshots = [];
    updates = [];
    archive = [];
  }

  abbrev pub set_board : ℕ → MemoryBoard → MemoryRepository → MemoryRepository
  set_board v b r = record r { boards = λ w. if w == v then some b else r.boards w }

  -- `maybeFail`, before an operation
  abbrev pub may_fail {ℓ} :
      {A : Type ℓ}
      → (MemoryRepository → A × MemoryRepository)
      → MemoryRepository
      → Option A × MemoryRepository
  may_fail op r = elim r.fail_next [
    | zero ↦ let done = op r in (some done.0, done.1)
    | suc left ↦ (none, record r { fail_next = left })
  ]

  -- `snapshot?.seqUpto ?? 0`
  abbrev pub upto : Option SavedState → ℕ
  upto none = 0
  upto (some s) = s.seq_upto

  abbrev pub seq_of : Option StoredUpdate → ℕ
  seq_of none = 0
  seq_of (some u) = u.seq

  unfoldable pub load_board : Option MemoryBoard → LoadedBoard
  load_board none = record {
    exists = false;
    is_deleted = false;
    snapshot = none;
    updates = [];
    max_seq = 0;
  }
  load_board (some b) =
      let snapshot = last_of b.snapshots in
      let updates = filter (λ u. ltb (upto snapshot) u.seq) b.updates in
      record {
        exists = true;
        is_deleted = b.is_deleted;
        snapshot = snapshot;
        updates = updates;
        max_seq = max (upto snapshot) (seq_of (last_of updates));
      }

  unfoldable pub load_stored : ℕ → MemoryRepository → Option LoadedBoard × MemoryRepository
  load_stored v r = may_fail (λ q. (load_board (q.boards v), q)) r

  abbrev pub board_or_new : Option MemoryBoard → MemoryBoard
  board_or_new none = new_board
  board_or_new (some b) = b

  abbrev pub append_to : List (NewUpdate ℕ) → MemoryBoard → MemoryBoard
  append_to us b = record b {
    updates = b.updates ++ numbered (b.last_seq + 1) us;
    last_seq = b.last_seq + length us;
  }

  -- The seqs that were used, first and last.
  unfoldable pub append_stored :
      ℕ → List (NewUpdate ℕ) → MemoryRepository → Option (ℕ × ℕ) × MemoryRepository
  append_stored v us r =
      may_fail
        (λ q. elim us [
          | [] ↦ ((0, 0), q)
          | u ∷ rest ↦
              let b = board_or_new (q.boards v) in
              let c = append_to (u ∷ rest) b in ((b.last_seq + 1, c.last_seq), set_board v c q)
        ])
        (record r { append_calls = r.append_calls + 1 })

  -- A snapshot of the updates up to `seq_upto`, which are moved to the archive.
  abbrev pub archive_upto : ℕ → State → MemoryBoard → MemoryBoard
  archive_upto seq_upto state b = record b {
    snapshots = b.snapshots ++ record { seq_upto = seq_upto; state = state } ∷ [];
    archive = b.archive ++ filter (λ u. leb u.seq seq_upto) b.updates;
    updates = filter (λ u. ltb seq_upto u.seq) b.updates;
  }

  abbrev pub state_of : Option SavedState → Option State
  state_of none = none
  state_of (some s) = some s.state

  unfoldable pub compact_board :
      (Option State → List ℕ → State) → MemoryBoard → Option (MemoryBoard × (ℕ × ℕ))
  compact_board build b =
      let snapshot = last_of b.snapshots in
      let updates = filter (λ u. ltb (upto snapshot) u.seq) b.updates in
      elim (last_of updates) [
        | none ↦ none
        | some last ↦
            let state = build (state_of snapshot) (map (λ u. u.update) updates) in
            some (archive_upto last.seq state b, (last.seq, length updates))
      ]

  -- The seq and the number of updates that were compacted, if any were.
  abbrev pub change_board {ℓ} :
      {A : Type ℓ}
      → ℕ
      → (MemoryBoard → Option (MemoryBoard × A))
      → MemoryRepository
      → Option A × MemoryRepository
  change_board v change q = elim (q.boards v) [
    | none ↦ (none, q)
    | some b ↦ elim (change b) [ none ↦ (none, q) | some (c, a) ↦ (some a, set_board v c q) ]
  ]

  unfoldable pub compact_stored :
      ℕ
      → (Option State → List ℕ → State)
      → MemoryRepository
      → Option (Option (ℕ × ℕ)) × MemoryRepository
  compact_stored v build r = may_fail (change_board v (compact_board build)) r

  unfoldable pub install_board : ℕ → State → MemoryBoard → Option (MemoryBoard × ℕ)
  install_board seq_upto state b =
      if leb seq_upto (upto (last_of b.snapshots)) || ltb b.last_seq seq_upto
      then none
      else some (archive_upto seq_upto state b, length (filter (λ u. leb u.seq seq_upto) b.updates))

  unfoldable pub install_stored :
      ℕ → ℕ → State → MemoryRepository → Option (Option ℕ) × MemoryRepository
  install_stored v seq_upto state r = may_fail (change_board v (install_board seq_upto state)) r

  abbrev pub since : ℕ → Option MemoryBoard → List StoredUpdate
  since after none = []
  since after (some b) =
      sort (λ a c. ltb a.seq c.seq) (filter (λ u. ltb after u.seq) (b.archive ++ b.updates))

  unfoldable pub updates_since :
      ℕ → ℕ → MemoryRepository → Option (List StoredUpdate) × MemoryRepository
  updates_since v after r = may_fail (λ q. (since after (q.boards v), q)) r
