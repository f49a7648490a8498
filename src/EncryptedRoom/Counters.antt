-- ===== src/EncryptedRoom/Counters.antt =====
-- The counters that are persisted (markPersisted of encryptedRoom.ts, and mergeStateVectors of
-- apps/server/src/sync/roomTypes.ts).
use whiteboard_ai.Base.{
  ℕ, ◌≡◌, refl, sym, ap, inl, inr, Bool, true, false, none, some, List, [], ◌∷◌, arith, ◌==◌,
  ==_iff, ltb, includes, max, Memᴰ, Bool-cases, if◌then◌else◌,
}
use whiteboard_ai.Base.Memᴰ
use whiteboard_ai.CipherLog.{counter, set_counter, note_ack}
use whiteboard_ai.EncryptedRoom.{
  Vector, EncryptedRoom, mark_persisted, merge_vectors, Message, posts, persisted_message,
}

-- The counter of a peer after a marker was merged: the higher of two, where the marker has it.
counter-set_counter :
    (q p n : ℕ) (acks : Vector)
    → counter q (set_counter p n acks) ≡ (if p == q then n else counter q acks)
counter-set_counter q p n [] = refl
counter-set_counter q p n ((i, m) ∷ acks) =
    let rest = counter-set_counter q p n acks in
    elim (Bool-cases (i == p)) [
      | inl t ↦ let same : i ≡ p = (==_iff _ _).0 t in rw t (rw same (ground arith))
      | inr f ↦ rw f (elim (Bool-cases (i == q)) [
        | inl t ↦
            let same : i ≡ q = (==_iff _ _).0 t in
            let other : (p == q) ≡ false = ground arith in rw (t, other) refl
        | inr k ↦ rw k rest
      ])
    ]

counter-note_ack :
    (q p n : ℕ) (acks : Vector)
    → counter q (note_ack (some (record { peer = p; n = n })) acks)
      ≡ (if p == q then max (counter q acks) n else counter q acks)
unfolding note_ack
counter-note_ack q p n acks = elim (Bool-cases (p == q)) [
  | inl t ↦
      let same : p ≡ q = (==_iff _ _).0 t in
      rw same (
        let set = counter-set_counter q q n acks in
        let here = (==_iff q q).1 refl in
        elim (Bool-cases (ltb (counter q acks) n)) [
          | inl l ↦ rw (l, here) (ground arith)
          | inr l ↦ rw (l, here) (ground arith)
        ])
  | inr f ↦
      let set = counter-set_counter q p n acks in
      elim (Bool-cases (ltb (counter p acks) n)) [
        | inl l ↦ rw (l, f) (ground arith)
        | inr l ↦ rw (l, f) refl
      ]
]

-- The highest counter of a peer in a marker, 0 if it has none.
abbrev pub highest : ℕ → Vector → ℕ
highest q [] = 0
highest q ((p, n) ∷ b) = max (if p == q then n else 0) (highest q b)

counter-merge_vectors :
    (q : ℕ) (a b : Vector) → counter q (merge_vectors a b) ≡ max (counter q a) (highest q b)
unfolding merge_vectors
counter-merge_vectors q a [] = omega arith
counter-merge_vectors q a ((p, n) ∷ b) =
    let rest = counter-merge_vectors q (note_ack (some (record { peer = p; n = n })) a) b in
    let first = counter-note_ack q p n a in ground arith

pub told_all :
    (message : Message) (m : ℕ) (ms : List ℕ)
    → includes m ms ≡ true
    → Memᴰ (m, message) (posts message none ms)
told_all message m [] k = absurd (ground arith)
told_all message m (j ∷ ms) k = elim (Bool-cases (j == m)) [
  | inl t ↦ let same : j ≡ m = (==_iff _ _).0 t in Memᴰ.head (ap (λ i. (i, message)) (sym same))
  | inr f ↦ Memᴰ.tail (told_all message m ms (ground arith))
]

-- After a marker was persisted, the counter of each peer that clients are told is the higher of the
-- one before and the highest in the marker, so that it never goes back; and every member is told.
pub counter-mark_persisted :
    (marker : Vector) (announce : Bool) (r : EncryptedRoom) (q m : ℕ)
    → includes m r.members ≡ true
    → let r' = mark_persisted marker announce r in
      (counter q r'.persisted_vector ≡ max (counter q r.persisted_vector) (highest q marker))
      × (Memᴰ (m, persisted_message r'.persisted_vector) r'.sent)
unfolding mark_persisted
counter-mark_persisted marker true r q m k = (
  counter-merge_vectors q r.persisted_vector marker,
  Memᴰ.append_right r.sent (told_all _ m r.members k),
)
counter-mark_persisted marker false r q m k = (
  counter-merge_vectors q r.persisted_vector marker,
  Memᴰ.append_right r.sent (told_all _ m r.members k),
)
