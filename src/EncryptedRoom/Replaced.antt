-- ===== src/EncryptedRoom/Replaced.antt =====
-- What the log of a private room knows but lists no more (encryptedRoom.ts): a snapshot replaced it.
use whiteboard_ai.Base.{
  ℕ, ◌≤◌, ◌≡◌, ◌⊎◌, refl, sym, subst, inl, inr, true, false, Option, none, some, List, [], ◌∷◌,
  arith, ◌==◌, ==_iff, filter, includes-map, ltb, Memᴰ, Mem-filter, Bool-cases,
}
use whiteboard_ai.RoomPersistence.{Options}
use whiteboard_ai.CipherLog.{
  CipherEntry, has, is_after, load, install_snapshot, committed, catch_up,
}
use whiteboard_ai.CipherLog.Known.{identities-set_seqs, identities-catch_entries}
use whiteboard_ai.EncryptedRoom.{
  Connections, EncryptedRoom, SnapshotRequest, welcome, receive_awareness, destroy,
}
use whiteboard_ai.EncryptedRoom.Snapshots.{snapshot_stored}
use whiteboard_ai.EncryptedRoom.System.{
  RoomStep, joins, loads, finishes, welcomes, delivers, shows, leaves, hears, persists, commits,
  catches_up, begins_snapshot, asks, fails, times_out, answered, stores, manages, destroys,
  ReachRoom, start, next,
}
use whiteboard_ai.EncryptedRoom.Synced.{is_listed}
use whiteboard_ai.EncryptedRoom.Preserved.{same_listed}
use whiteboard_ai.EncryptedRoom.Folded.{
  Grows, stays, unchanged, relisted, add_all-Grows, receive_update-Grows,
}
use whiteboard_ai.EncryptedRoom.Grown.{
  mark_persisted_log, handle_cluster-Grows, finish_loading-Grows, remove_member_log,
  ask_for_snapshot-Grows, request_snapshot_log, receive_snapshot_log, times_out_log,
}

module _ (hash : ℕ → ℕ) (bytes : ℕ → List ℕ) (c : Connections) (o : Options) where
  -- The step stores a snapshot and takes an entry with the hash `h` out of the log, whose seq the
  -- snapshot covers.
  abbrev pub IsReplacing : ℕ → {r s : EncryptedRoom} → RoomStep hash bytes c o r s → Type 0
  IsReplacing h {r} (stores q blob (some n)) =
      (e : CipherEntry) × Memᴰ e r.log.entries
      × (hash e.blob ≡ h)
      × ((k : ℕ) × (e.seq ≡ some k) × (k ≤ q.seq_upto))
  IsReplacing h _ = ⊥

  -- Some step of the run does.
  abbrev pub WasReplaced : ℕ → {r : EncryptedRoom} → ReachRoom hash bytes c o r → Type 0
  WasReplaced h start = ⊥
  WasReplaced h (next run step) = WasReplaced h run ⊎ IsReplacing h step

  snapshot_stored-none :
      (q : SnapshotRequest) (blob : ℕ) (r : EncryptedRoom)
      → (snapshot_stored q blob none r).log ≡ r.log
  unfolding snapshot_stored
  snapshot_stored-none q blob r = refl

  listed_entry :
      (h : ℕ) (es : List CipherEntry)
      → is_listed hash h es ≡ true
      → (e : CipherEntry) × Memᴰ e es × (hash e.blob ≡ h)
  listed_entry h [] l = absurd (ground arith)
  listed_entry h (e ∷ es) l = elim (Bool-cases (hash e.blob == h)) [
    | inl t ↦ (e, Memᴰ.head refl, (==_iff _ _).0 t)
    | inr f ↦ let (e', m, s) = listed_entry h es (ground arith) in (e', Memᴰ.tail m, s)
  ]

  covered_seq :
      (upto : ℕ) (s : Option ℕ)
      → (elim s [ none ↦ true | some k ↦ ltb upto k ]) ≡ false
      → (k : ℕ) × (s ≡ some k) × (k ≤ upto)
  covered_seq upto none g = absurd (ground arith)
  covered_seq upto (some k) g = (k, refl, ground arith)

  stored_replaces :
      (q : SnapshotRequest) (blob n : ℕ) (r : EncryptedRoom) (h : ℕ)
      → has h (snapshot_stored q blob (some n) r).log ≡ true
      → is_listed hash h (snapshot_stored q blob (some n) r).log.entries ≡ false
      → ((has h r.log ≡ true) × (is_listed hash h r.log.entries ≡ false))
        ⊎ ((e : CipherEntry) × Memᴰ e r.log.entries
            × (hash e.blob ≡ h)
            × ((k : ℕ) × (e.seq ≡ some k) × (k ≤ q.seq_upto)))
  unfolding snapshot_stored install_snapshot
  stored_replaces q blob n r h k u = elim (Bool-cases (is_listed hash h r.log.entries)) [
    | inr gone ↦ inl (k, gone)
    | inl l ↦
        let (e, m, same) = listed_entry h r.log.entries l in
        elim (Bool-cases (is_after q.seq_upto e)) [
          | inr f ↦ inr (e, m, same, covered_seq q.seq_upto e.seq f)
          | inl t ↦ absurd (
              let still =
                includes-map (λ e. hash e.blob) e (filter (is_after q.seq_upto) r.log.entries)
                  (Mem-filter (is_after q.seq_upto) e r.log.entries m t) in
              let b =
                subst (λ j. is_listed hash j (filter (is_after q.seq_upto) r.log.entries) ≡ true)
                  same still in
              ground arith)
        ]
  ]

  -- Either the log grows, or a snapshot takes entries out of it.
  step-Grows :
      {r s : EncryptedRoom} (step : RoomStep hash bytes c o r s)
      → Grows hash r.log s.log
        ⊎ ((h : ℕ)
            → has h s.log ≡ true
            → is_listed hash h s.log.entries ≡ false
            → ((has h r.log ≡ true) × (is_listed hash h r.log.entries ≡ false))
              ⊎ IsReplacing h step)
  unfolding load welcome receive_awareness destroy committed catch_up
  step-Grows {r} (joins m) = inl (stays hash r.log)
  step-Grows {r} (loads board e) =
      let g = add_all-Grows hash board.updates (record r.log { snapshot = board.snapshot }) in
      inl (record { listed = g.listed; known = g.known })
  step-Grows {r} (finishes now) = inl (finish_loading-Grows hash bytes c o now r)
  step-Grows {r} (welcomes now p m) = inl (stays hash r.log)
  step-Grows {r} (delivers p n blob) = inl (receive_update-Grows hash c o p n blob r)
  step-Grows {r} (shows now p blob) = inl (stays hash r.log)
  step-Grows {r} (leaves m) = inl (unchanged hash (remove_member_log hash bytes c o m r))
  step-Grows {r} (hears now message) = inl (handle_cluster-Grows hash bytes c o now message r)
  step-Grows {r} (persists marker announce) =
      inl (unchanged hash (mark_persisted_log hash bytes c o marker announce r))
  step-Grows {r} (commits batch n) = inl (
      relisted hash refl
        (same_listed hash _ r.log.entries (sym (identities-set_seqs batch n r.log.entries))))
  step-Grows {r} (catches_up rows) = inl (
      relisted hash refl
        (same_listed hash _ r.log.entries (sym (identities-catch_entries hash rows r.log.entries))))
  step-Grows {r} begins_snapshot = inl (unchanged hash (request_snapshot_log hash bytes c o r))
  step-Grows {r} (asks id upto rows) = inl (ask_for_snapshot-Grows hash bytes c o id upto rows r)
  step-Grows {r} fails = inl (stays hash r.log)
  step-Grows {r} (times_out id) = inl (unchanged hash (times_out_log hash bytes c o id r))
  step-Grows {r} (answered p id) = inl (unchanged hash (receive_snapshot_log hash bytes c o p id r))
  step-Grows {r} (stores q blob none) = inl (unchanged hash (snapshot_stored-none q blob r))
  step-Grows {r} (stores q blob (some n)) = inr (λ h k u. stored_replaces q blob n r h k u)
  step-Grows {r} (manages persistence closing) = inl (stays hash r.log)
  step-Grows {r} destroys = inl (stays hash r.log)

  -- What a room knows of and lists no more was replaced by a snapshot that covered it.
  pub known_or_replaced :
      (h : ℕ) {r : EncryptedRoom} (run : ReachRoom hash bytes c o r)
      → has h r.log ≡ true
      → is_listed hash h r.log.entries ≡ false
      → WasReplaced h run
  known_or_replaced h start k u = absurd (ground arith)
  known_or_replaced h (next run step) k u = elim (step-Grows step) [
    | inl g ↦ elim (g.known h k) [
      | inl old ↦ inl (known_or_replaced h run old (unlisted _ _ g.listed u))
      | inr l ↦ absurd (ground arith)
    ]
    | inr f ↦ elim (f h k u) [
      | inl (old, gone) ↦ inl (known_or_replaced h run old gone)
      | inr now ↦ inr now
    ]
  ]
    where
      unlisted :
          (es es' : List CipherEntry)
          → ((h : ℕ) → is_listed hash h es ≡ true → is_listed hash h es' ≡ true)
          → is_listed hash h es' ≡ false
          → is_listed hash h es ≡ false
      unlisted es es' f g = elim (Bool-cases (is_listed hash h es)) [
        | inl t ↦ absurd (let b = f h t in ground arith)
        | inr n ↦ n
      ]
