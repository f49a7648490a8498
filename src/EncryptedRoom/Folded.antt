-- ===== src/EncryptedRoom/Folded.antt =====
-- How a call of a private room lets its log grow (encryptedRoom.ts).
use whiteboard_ai.Base.{
  ℕ, ◌≡◌, ◌⊎◌, sym, subst, inl, inr, ◌||◌, not, true, Option, none, some, List, [], ◌∷◌, arith,
  ◌==◌, any, ltb, is_none, Bool-cases,
}
use whiteboard_ai.RoomPersistence.{Options}
use whiteboard_ai.CipherLog.{CipherLog, Ack, StoredUpdate, add, add_all, has, entry_of}
use whiteboard_ai.CipherLog.Known.{any-push}
use whiteboard_ai.EncryptedRoom.{Connections, EncryptedRoom, Relayed, receive_update}
use whiteboard_ai.EncryptedRoom.Snapshots.{is_envelope, relay_row, relay_rows}
use whiteboard_ai.EncryptedRoom.Cluster.{relay_entry, relay_entries}
use whiteboard_ai.EncryptedRoom.Synced.{is_listed, is_listed-push}

module _ (hash : ℕ → ℕ) where
  -- The second log lists what the first does, and knows no more unless it lists it.
  pub record Grows (l l' : CipherLog) : Type 0 where
    pub listed : (h : ℕ) → is_listed hash h l.entries ≡ true → is_listed hash h l'.entries ≡ true
    pub known : (h : ℕ) → has h l' ≡ true → (has h l ≡ true) ⊎ (is_listed hash h l'.entries ≡ true)

  pub stays : (l : CipherLog) → Grows l l
  stays l = record { listed = λ h a. a; known = λ h a. inl a }

  pub unchanged : {l l' : CipherLog} → l' ≡ l → Grows l l'
  unchanged {l} e = subst (Grows l) (sym e) (stays l)

  pub then-Grows : {a b c : CipherLog} → Grows a b → Grows b c → Grows a c
  then-Grows g k = record {
    listed = λ h l. k.listed h (g.listed h l);
    known = λ h x. elim (k.known h x) [
      | inl y ↦ elim (g.known h y) [ inl z ↦ inl z | inr z ↦ inr (k.listed h z) ]
      | inr y ↦ inr y
    ];
  }

  pub relisted :
      {l l' : CipherLog}
      → l'.known ≡ l.known
      → ((h : ℕ) → is_listed hash h l.entries ≡ true → is_listed hash h l'.entries ≡ true)
      → Grows l l'
  relisted k f = record {
    listed = f;
    known = λ h x. inl (subst (λ ks. any (λ j. j == h) ks ≡ true) k x);
  }

  added-Grows :
      (blob : ℕ) (ack : Option Ack) (seq : Option ℕ) (l : CipherLog)
      → Grows l (add hash blob ack seq l).0
  unfolding add
  added-Grows blob ack seq l = elim (Bool-cases (has (hash blob) l)) [
    | inl k ↦ rw (k, add) (stays l)
    | inr k ↦
        rw (k, add)
          (record {
            listed = λ h a.
                let both = is_listed-push hash h l.entries (entry_of hash blob ack seq) in
                ground arith;
            known = λ h a.
                let both = is_listed-push hash h l.entries (entry_of hash blob ack seq) in
                let pushed = any-push (λ j. j == h) l.known (hash blob) in
                elim (Bool-cases (has h l)) [ inl t ↦ inl t | inr f ↦ inr (ground arith) ];
          })
  ]

  pub add_all-Grows : (us : List StoredUpdate) (l : CipherLog) → Grows l (add_all hash us l)
  add_all-Grows [] l = stays l
  add_all-Grows (u ∷ us) l =
      then-Grows (added-Grows u.update none (some u.seq) l) (add_all-Grows us _)

  relay_row-Grows :
      (bytes : ℕ → List ℕ) (upto : ℕ) (row : StoredUpdate) (r : EncryptedRoom)
      → Grows r.log (relay_row hash bytes upto row r).log
  unfolding relay_row
  relay_row-Grows bytes upto row r =
      let g = added-Grows row.update none (some row.seq) r.log in
      elim (Bool-cases (ltb upto row.seq || not (is_envelope (bytes row.update)))) [
        | inl t ↦ rw t (stays r.log)
        | inr f ↦
            rw f (elim (Bool-cases (is_none (add hash row.update none (some row.seq) r.log).1)) [
              | inl k ↦ rw k g
              | inr k ↦ rw k g
            ])
      ]

  pub relay_rows-Grows :
      (bytes : ℕ → List ℕ) (upto : ℕ) (rows : List StoredUpdate) (r : EncryptedRoom)
      → Grows r.log (relay_rows hash bytes upto rows r).log
  unfolding relay_rows
  relay_rows-Grows bytes upto [] r = stays r.log
  relay_rows-Grows bytes upto (row ∷ rows) r =
      then-Grows (relay_row-Grows bytes upto row r) (relay_rows-Grows bytes upto rows _)

  relay_entry-Grows :
      (o : Options) (x : Relayed) (r : EncryptedRoom) → Grows r.log (relay_entry hash o x r).log
  unfolding relay_entry
  relay_entry-Grows o x r =
      let g = added-Grows x.blob x.ack none r.log in
      elim (Bool-cases (is_none (add hash x.blob x.ack none r.log).1)) [
        | inl k ↦ rw k g
        | inr k ↦ rw k g
      ]

  pub relay_entries-Grows :
      (o : Options) (xs : List Relayed) (r : EncryptedRoom)
      → Grows r.log (relay_entries hash o xs r).log
  unfolding relay_entries
  relay_entries-Grows o [] r = stays r.log
  relay_entries-Grows o (x ∷ xs) r =
      then-Grows (relay_entry-Grows o x r) (relay_entries-Grows o xs _)

  pub receive_update-Grows :
      (c : Connections) (o : Options) (p n blob : ℕ) (r : EncryptedRoom)
      → Grows r.log (receive_update hash c o p n blob r).log
  unfolding receive_update
  receive_update-Grows c o p n blob r =
      let ack : Ack = record { peer = c.peer_id p; n = n } in
      let g = added-Grows blob (some ack) none r.log in
      elim (Bool-cases (is_none (add hash blob (some ack) none r.log).1)) [
        | inl k ↦ rw k (stays r.log)
        | inr k ↦ rw k g
      ]
