-- ===== src/EncryptedRoom/Answers.antt =====
-- Whose answer to a snapshot request is taken, and what the snapshot replaces (receiveSnapshot of
-- apps/server/src/sync/encryptedRoom.ts).
use whiteboard_ai.Base.{
  ℕ, ◌≤◌, ◌≡◌, ◌≢◌, ◌⊎◌, refl, inl, inr, true, false, Option, none, some, arith, ==_iff, ltb, Memᴰ,
  Mem-filter, Bool-cases, Option-cases,
}
use whiteboard_ai.CipherLog.{CipherEntry, is_after, install_snapshot}
use whiteboard_ai.EncryptedRoom.{EncryptedRoom, SnapshotRequest}
use whiteboard_ai.EncryptedRoom.Snapshots.{
  answers, accept_answer, receive_snapshot, snapshot_stored,
}

-- An entry that a stored snapshot takes out of the log is covered by it.
snapshot_stored_keeps :
    (q : SnapshotRequest) (blob : ℕ) (archived : Option ℕ) (r : EncryptedRoom) (e : CipherEntry)
    → Memᴰ e r.log.entries
    → (Memᴰ e (snapshot_stored q blob archived r).log.entries)
      ⊎ ((k : ℕ) × (e.seq ≡ some k) × (k ≤ q.seq_upto))
unfolding snapshot_stored install_snapshot
snapshot_stored_keeps q blob none r e m = inl m
snapshot_stored_keeps q blob (some n) r e m = elim (Bool-cases (is_after q.seq_upto e)) [
  | inl t ↦ inl (Mem-filter (is_after q.seq_upto) e r.log.entries m t)
  | inr f ↦ inr (covered e.seq f)
]
  where
    covered :
        (o : Option ℕ)
        → (elim o [ none ↦ true | some s ↦ ltb q.seq_upto s ]) ≡ false
        → (k : ℕ) × (o ≡ some k) × (k ≤ q.seq_upto)
    covered none g = absurd (ground arith)
    covered (some s) g = (s, refl, ground arith)

-- Either an answer comes from the connection that was asked and names the open request, which it
-- closes; once it is stored, or is refused by the database, each entry of the log is still there or
-- has a seq that the request covered. Or no request of this connection and number is open, and the
-- answer changes nothing.
pub answer_lem :
    (p id blob : ℕ) (archived : Option ℕ) (r : EncryptedRoom) (e : CipherEntry)
    → Memᴰ e r.log.entries
    → let (s, taken) = receive_snapshot p id r in
      ((q : SnapshotRequest) × (taken ≡ some q)
        × (r.snapshot_request ≡ some q)
        × (q.peer ≡ p)
        × (q.id ≡ id)
        × (s ≡ record r { snapshot_request = none })
        × ((Memᴰ e (snapshot_stored q blob archived s).log.entries)
            ⊎ ((k : ℕ) × (e.seq ≡ some k) × (k ≤ q.seq_upto))))
      ⊎ (taken ≡ none)
        × (s ≡ r)
        × ((k : ℕ) → r.snapshot_request ≢ some (record { id = id; seq_upto = k; peer = p }))
unfolding receive_snapshot
answer_lem p id blob archived r e m = elim (Option-cases r.snapshot_request) [
  | inl n ↦ rw (n, accept_answer) (inr (refl, refl, λ k h. cc))
  | inr (q, open_request) ↦ elim (Bool-cases (answers p id q)) [
    | inl t ↦
        rw (open_request, accept_answer)
          (rw t (
            inl (
              q,
              refl,
              refl,
              (==_iff _ _).0 (ground arith),
              (==_iff _ _).0 (ground arith),
              refl,
              snapshot_stored_keeps q blob archived (record r { snapshot_request = none }) e m,
            )))
    | inr f ↦ rw (open_request, accept_answer) (rw f (inr (refl, refl, λ k h. unlike q k f h)))
  ]
]
  where
    unlike :
        (q : SnapshotRequest) (k : ℕ)
        → answers p id q ≡ false
        → some q ≢ some (record { id = id; seq_upto = k; peer = p })
    unlike q k f h =
        let a : q.peer ≡ p = ground arith in
        let b : q.id ≡ id = ground arith in
        let t = (==_iff q.peer p).1 a in let u = (==_iff q.id id).1 b in ground arith
