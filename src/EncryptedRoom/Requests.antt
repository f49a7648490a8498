-- ===== src/EncryptedRoom/Requests.antt =====
-- What a snapshot of a private room is asked for, and whose answer is taken (requestSnapshot and
-- receiveSnapshot of encryptedRoom.ts).
use whiteboard_ai.Base.{
  ℕ, ◌≤◌, ◌≡◌, ◌⊎◌, refl, sym, subst, ◌∙◌, inl, inr, ◌||◌, not, Bool, true, false, Option, none,
  some, List, [], ◌∷◌, ◌++◌, arith, ◌==◌, ==_iff, any, includes, ltb, find-eq-some, Memᴰ, any-Mem,
  Bool-cases,
}
use whiteboard_ai.RoomPersistence.{Options}
use whiteboard_ai.CipherLog.{StoredUpdate, add, has, entry_of}
use whiteboard_ai.CipherLog.Known.{any-push}
use whiteboard_ai.EncryptedRoom.{Connections, EncryptedRoom, SnapshotRequest}
use whiteboard_ai.EncryptedRoom.Snapshots.{
  is_envelope, pick_snapshot_peer, ask, relay_row, relay_rows, ask_for_snapshot,
}
use whiteboard_ai.EncryptedRoom.System.{ReachRoom, next, asks}
use whiteboard_ai.EncryptedRoom.Synced.{holds, is_listed, is_listed-push}
use whiteboard_ai.EncryptedRoom.Supplied.{reach-IsSynced}
use whiteboard_ai.EncryptedRoom.Replaced.{WasReplaced, known_or_replaced}

-- The row is one of those that the request is to cover.
abbrev pub is_due : (ℕ → List ℕ) → ℕ → StoredUpdate → Bool
is_due bytes upto row = not (ltb upto row.seq || not (is_envelope (bytes row.update)))

module _ (hash : ℕ → ℕ) (bytes : ℕ → List ℕ) (upto : ℕ) where
  -- What one row does to the log: nothing, or it is a new entry at its end.
  row_cases :
      (row : StoredUpdate) (r : EncryptedRoom)
      → ((relay_row hash bytes upto row r).log ≡ r.log)
          × ((is_due bytes upto row ≡ false) ⊎ (has (hash row.update) r.log ≡ true))
        ⊎ (has (hash row.update) r.log ≡ false)
          × ((relay_row hash bytes upto row r).log.known ≡ r.log.known ++ hash row.update ∷ [])
          × ((relay_row hash bytes upto row r).log.entries
              ≡ r.log.entries ++ entry_of hash row.update none (some row.seq) ∷ [])
  unfolding relay_row
  row_cases row r = elim (Bool-cases (ltb upto row.seq || not (is_envelope (bytes row.update)))) [
    | inl t ↦ rw t (inl (refl, inl refl))
    | inr f ↦ rw f (elim (Bool-cases (has (hash row.update) r.log)) [
      | inl k ↦ rw (k, add) (inl (refl, inr refl))
      | inr k ↦ rw (k, add) (inr (refl, refl, refl))
    ])
  ]

  relay_row_keeps :
      (row : StoredUpdate) (r : EncryptedRoom)
      → ((relay_row hash bytes upto row r).snapshot_request ≡ r.snapshot_request)
        × ((relay_row hash bytes upto row r).peers ≡ r.peers)
  unfolding relay_row
  relay_row_keeps row r =
      elim (Bool-cases (ltb upto row.seq || not (is_envelope (bytes row.update)))) [
        | inl t ↦ rw t (refl, refl)
        | inr f ↦ rw f (elim (Bool-cases (has (hash row.update) r.log)) [
          | inl k ↦ rw (k, add) (refl, refl)
          | inr k ↦ rw (k, add) (refl, refl)
        ])
      ]

  relay_rows_keep :
      (rows : List StoredUpdate) (r : EncryptedRoom)
      → ((relay_rows hash bytes upto rows r).snapshot_request ≡ r.snapshot_request)
        × ((relay_rows hash bytes upto rows r).peers ≡ r.peers)
  unfolding relay_rows
  relay_rows_keep [] r = (refl, refl)
  relay_rows_keep (row ∷ rows) r =
      let (a, b) = relay_row_keeps row r in
      let (a', b') = relay_rows_keep rows (relay_row hash bytes upto row r) in (a' ∙ a, b' ∙ b)

  listed_stays :
      (h : ℕ) (row : StoredUpdate) (r : EncryptedRoom)
      → is_listed hash h r.log.entries ≡ true
      → is_listed hash h (relay_row hash bytes upto row r).log.entries ≡ true
  listed_stays h row r l = elim (row_cases row r) [
    | inl (e, why) ↦ rw e l
    | inr (new, k, e) ↦ rw e (
        let both =
          is_listed-push hash h r.log.entries (entry_of hash row.update none (some row.seq)) in
        ground arith)
  ]

  listed_stays_all :
      (h : ℕ) (rows : List StoredUpdate) (r : EncryptedRoom)
      → is_listed hash h r.log.entries ≡ true
      → is_listed hash h (relay_rows hash bytes upto rows r).log.entries ≡ true
  unfolding relay_rows
  listed_stays_all h [] r l = l
  listed_stays_all h (row ∷ rows) r l = listed_stays_all h rows _ (listed_stays h row r l)

  -- What the log knows after a row it knew before, or lists.
  known_before :
      (h : ℕ) (row : StoredUpdate) (r : EncryptedRoom)
      → has h (relay_row hash bytes upto row r).log ≡ true
      → (has h r.log ≡ true)
        ⊎ (is_listed hash h (relay_row hash bytes upto row r).log.entries ≡ true)
  known_before h row r k = elim (row_cases row r) [
    | inl (e, why) ↦ inl (subst (λ l. has h l ≡ true) e k)
    | inr (new, known, e) ↦
        let k' = subst (λ ks. any (λ j. j == h) ks ≡ true) known k in
        let both = any-push (λ j. j == h) r.log.known (hash row.update) in
        elim (Bool-cases (has h r.log)) [
          | inl t ↦ inl t
          | inr f ↦ inr (
              rw e (
                let pushed =
                  is_listed-push hash h r.log.entries
                    (entry_of hash row.update none (some row.seq)) in
                ground arith))
        ]
  ]

  -- A row that is due is listed afterwards, unless the log knew it and lists it no more.
  due_row :
      (row : StoredUpdate) (rows : List StoredUpdate) (r : EncryptedRoom)
      → Memᴰ row rows
      → is_due bytes upto row ≡ true
      → (is_listed hash (hash row.update) (relay_rows hash bytes upto rows r).log.entries ≡ true)
        ⊎ (has (hash row.update) r.log ≡ true)
          × (is_listed hash (hash row.update) r.log.entries ≡ false)
  unfolding relay_rows
  due_row row [] r m d = elim m [ ]
  due_row row (x ∷ rows) r (Memᴰ.head e) d = elim (Bool-cases (has (hash row.update) r.log)) [
    | inl k ↦ elim (Bool-cases (is_listed hash (hash row.update) r.log.entries)) [
      | inl l ↦
          inl (listed_stays_all (hash row.update) rows _ (listed_stays (hash row.update) x r l))
      | inr l ↦ inr (k, l)
    ]
    | inr k ↦ inl (
        listed_stays_all (hash row.update) rows _ (
          subst
            (λ z.
              is_listed hash (hash row.update) (relay_row hash bytes upto z r).log.entries ≡ true)
            e (fresh k)))
  ]
    where
      fresh :
          has (hash row.update) r.log ≡ false
          → is_listed hash (hash row.update) (relay_row hash bytes upto row r).log.entries ≡ true
      fresh k = elim (row_cases row r) [
        | inl (same, why) ↦ elim why [
          | inl a ↦ absurd (ground arith)
          | inr b ↦ absurd (ground arith)
        ]
        | inr (new, known, pushed) ↦ rw pushed (
            let both =
              is_listed-push hash (hash row.update) r.log.entries
                (entry_of hash row.update none (some row.seq)) in
            let same = (==_iff (hash row.update) (hash row.update)).1 refl in ground arith)
      ]
  due_row row (x ∷ rows) r (Memᴰ.tail m) d =
      elim (due_row row rows (relay_row hash bytes upto x r) m d) [
        | inl l ↦ inl l
        | inr (k, l) ↦ elim (known_before (hash row.update) x r k) [
          | inl old ↦ elim (Bool-cases (is_listed hash (hash row.update) r.log.entries)) [
            | inl t ↦ absurd (let still = listed_stays (hash row.update) x r t in ground arith)
            | inr f ↦ inr (old, f)
          ]
          | inr l' ↦ absurd (ground arith)
        ]
      ]

module _ (c : Connections) (id upto : ℕ) where
  asked :
      (p : Option ℕ) (r : EncryptedRoom) {q : SnapshotRequest}
      → r.snapshot_request ≡ none
      → (ask c id upto p r).snapshot_request ≡ some q
      → (p ≡ some q.peer)
        × (q.seq_upto ≡ upto)
        × ((ask c id upto p r).peers ≡ r.peers)
        × ((ask c id upto p r).log ≡ r.log)
  asked none r n e = absurd (ground arith)
  asked (some p) r n e = elim (Bool-cases r.closing) [
    | inl t ↦ absurd (let b = rw t at e in ground arith)
    | inr f ↦ let b = rw f at e in rw f (ground arith, ground arith, refl, refl)
  ]

module _ (hash : ℕ → ℕ) (bytes : ℕ → List ℕ) (c : Connections) (o : Options) where
  -- When a reachable room asks for a snapshot, the connection that it asks may write, was welcomed and
  -- is asked to cover the seq `upto`; and of each stored row up to this seq whose update is an envelope
  -- it holds bytes with the same hash, or a snapshot that was stored before has replaced an entry with
  -- this hash, whose seq it covered.
  pub asked_peer_holds_rows :
      {r : EncryptedRoom} {q : SnapshotRequest} (id upto : ℕ) (rows : List StoredUpdate)
      (row : StoredUpdate) (run : ReachRoom hash bytes c o r)
      → r.snapshot_request ≡ none
      → (ask_for_snapshot hash bytes c id upto rows r).snapshot_request ≡ some q
      → Memᴰ row rows
      → row.seq ≤ upto
      → is_envelope (bytes row.update) ≡ true
      → (c.can_write q.peer ≡ true)
        × (includes q.peer r.peers ≡ true)
        × (q.seq_upto ≡ upto)
        × (let r' = ask_for_snapshot hash bytes c id upto rows r in
            (holds hash q.peer (hash row.update) r'.sent r'.received ≡ true)
            ⊎ WasReplaced hash bytes c o (hash row.update) run)
  unfolding ask_for_snapshot
  asked_peer_holds_rows {r} {q} id upto rows row h n e m le env =
      let r1 = relay_rows hash bytes upto rows r in
      let v = reach-IsSynced hash bytes c o (next h (asks id upto rows)) in
      let (req, prs) = relay_rows_keep hash bytes upto rows r in
      let (picked, same, ps', log') = asked c id upto (pick_snapshot_peer c r1) r1 (req ∙ n) e in
      let (among, writes) = find-eq-some c.can_write r1.peers picked in
      let in_r1 : includes q.peer r1.peers ≡ true =
        any-Mem (λ x. x == q.peer) q.peer r1.peers among ((==_iff _ _).1 refl) in
      (
        writes,
        subst (λ ps. includes q.peer ps ≡ true) prs in_r1,
        same,
        elim (due_row hash bytes upto row rows r m (ground arith)) [
          | inl l ↦ inl (
              v.held q.peer (hash row.update)
                (subst (λ ps. includes q.peer ps ≡ true) (sym ps') in_r1)
                (subst (λ l. is_listed hash (hash row.update) l.entries ≡ true) (sym log') l))
          | inr (k, gone) ↦ inr (known_or_replaced hash bytes c o (hash row.update) h k gone)
        ],
      )
