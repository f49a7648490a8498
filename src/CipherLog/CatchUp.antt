-- ===== src/CipherLog/CatchUp.antt =====
-- A new writer of a private room catches the database up (`catchUp` and `committed` of `CipherLog` in
-- apps/server/src/sync/encryptedRoom.ts).
use whiteboard_ai.Base.{
  ℕ, ◌≡◌, refl, sym, ap, subst, ◌∙◌, inl, inr, true, false, Option, none, some, List, [], ◌∷◌,
  arith, ◌==◌, ==_iff, any, All, All-map, Bool-cases, Option-cases, is_none,
}
use whiteboard_ai.RoomPersistence.{NewUpdate}
use whiteboard_ai.CipherLog.{
  CipherLog, CipherEntry, StoredUpdate, committed, set_seq, set_seqs, uncommitted, full_state,
  to_new_update, catch_entry, catch_entries, catch_up, stored_seq,
}
use whiteboard_ai.CipherLog.Known.{
  identities, Distinct, IsLog, identities-set_seq, identities-catch_entries,
}

-- No later entry has the blob of an earlier one.
abbrev Apart : List (ℕ × ℕ) → Type 0
Apart [] = Unit
Apart (i ∷ is) = All (λ j. (j.0 == i.0) ≡ false) is × Apart is

module _ (hash : ℕ → ℕ) where
  Apart-Distinct : (is : List (ℕ × ℕ)) → All (λ i. i.1 ≡ hash i.0) is → Distinct is → Apart is
  Apart-Distinct [] h d = tt
  Apart-Distinct (i ∷ is) h d = (all_apart is h.1 d.0, Apart-Distinct is h.1 d.1)
    where
      all_apart :
          (js : List (ℕ × ℕ))
          → All (λ j. j.1 ≡ hash j.0) js
          → All (λ j. (j.1 == i.1) ≡ false) js
          → All (λ j. (j.0 == i.0) ≡ false) js
      all_apart [] k d = tt
      all_apart (j ∷ js) k d = (apart_from j k.0 d.0, all_apart js k.1 d.1)
        where
          apart_from : (j : ℕ × ℕ) → j.1 ≡ hash j.0 → (j.1 == i.1) ≡ false → (j.0 == i.0) ≡ false
          apart_from j hj dj = elim (Bool-cases (j.0 == i.0)) [
            | inl t ↦
                let same : j.0 ≡ i.0 = (==_iff _ _).0 t in
                let k : (j.1 == i.1) ≡ true = (==_iff _ _).1 (hj ∙ ap hash same ∙ sym h.0) in
                absurd (ground arith)
            | inr f ↦ f
          ]

later_apart :
    (b : ℕ) (es : List CipherEntry)
    → All (λ j. (j.0 == b) ≡ false) (identities es)
    → any (λ f. f.blob == b) es ≡ false
later_apart b [] h = refl
later_apart b (e ∷ es) h = rw (h.0, later_apart b es h.1) refl

uncommitted_first :
    (x : CipherEntry) (es : List CipherEntry) (u : NewUpdate ℕ) (us : List (NewUpdate ℕ))
    → x.seq ≡ none
    → uncommitted (x ∷ es) ≡ u ∷ us
    → (x.blob ≡ u.update) × (uncommitted es ≡ us)
uncommitted_first x es u us n e =
    let k : to_new_update x ∷ uncommitted es ≡ u ∷ us = sym (rw n refl) ∙ e in
    (ground arith, ground arith)

uncommitted_later :
    (x : CipherEntry) (es : List CipherEntry) {s : ℕ}
    → x.seq ≡ some s
    → uncommitted (x ∷ es) ≡ uncommitted es
uncommitted_later x es n = rw n refl

-- What is uncommitted is the blob of an entry.
listed :
    (es : List CipherEntry) (u : NewUpdate ℕ) (us : List (NewUpdate ℕ))
    → uncommitted es ≡ u ∷ us
    → any (λ f. f.blob == u.update) es ≡ true
listed [] u us e = absurd (ground arith)
listed (x ∷ es) u us e = elim (Option-cases x.seq) [
  | inl n ↦ rw ((==_iff _ _).1 (uncommitted_first x es u us n e).0) refl
  | inr (s, n) ↦ let k = listed es u us (sym (uncommitted_later x es n) ∙ e) in ground arith
]

set_seq_first :
    (x : CipherEntry) (es : List CipherEntry) (n : ℕ)
    → any (λ f. f.blob == x.blob) es ≡ false
    → uncommitted (set_seq x.blob n (x ∷ es)) ≡ uncommitted es
set_seq_first x es n h =
    let same : (x.blob == x.blob) ≡ true = (==_iff _ _).1 refl in rw (h, same) refl

-- Committing the first uncommitted entry leaves the others.
first_committed :
    (es : List CipherEntry) (n : ℕ) (u : NewUpdate ℕ) (us : List (NewUpdate ℕ))
    → Apart (identities es)
    → uncommitted es ≡ u ∷ us
    → uncommitted (set_seq u.update n es) ≡ us
first_committed [] n u us d e = absurd (ground arith)
first_committed (x ∷ es) n u us d e = elim (Option-cases x.seq) [
  | inl m ↦
      let (b, rest) = uncommitted_first x es u us m e in
      subst (λ k. uncommitted (set_seq k n (x ∷ es)) ≡ us) b
        (set_seq_first x es n (later_apart x.blob es d.0) ∙ rest)
  | inr (s, m) ↦
      let e' : uncommitted es ≡ u ∷ us = sym (uncommitted_later x es m) ∙ e in
      rw (listed es u us e')
        (uncommitted_later x (set_seq u.update n es) m ∙ first_committed es n u us d.1 e')
]

all_committed :
    (us : List (NewUpdate ℕ)) (n : ℕ) (es : List CipherEntry)
    → Apart (identities es)
    → uncommitted es ≡ us
    → uncommitted (set_seqs us n es) ≡ []
all_committed [] n es d e = e
all_committed (u ∷ us) n es d e =
    all_committed us _ (set_seq u.update n es)
      (subst Apart (sym (identities-set_seq u.update n es)) d) (first_committed es n u us d e)

missing_is_uncommitted :
    (o : Option ℕ) (e : CipherEntry) (rest : List CipherEntry × List (NewUpdate ℕ))
    → rest.1 ≡ uncommitted rest.0
    → (catch_entry o e rest).1 ≡ uncommitted (catch_entry o e rest).0
missing_is_uncommitted none e rest h = rw h refl
missing_is_uncommitted (some s) e rest h = h

module _ (hash : ℕ → ℕ) (rows : List StoredUpdate) where
  missing-uncommitted :
      (es : List CipherEntry)
      → (catch_entries hash rows es).1 ≡ uncommitted (catch_entries hash rows es).0
  unfolding catch_entries
  missing-uncommitted [] = refl
  missing-uncommitted (e ∷ es) = missing_is_uncommitted _ e _ (missing-uncommitted es)

  missing_entry :
      (o : Option ℕ) (e : CipherEntry) (rest : List CipherEntry × List (NewUpdate ℕ))
      → stored_seq hash rows (hash e.blob) ≡ o
      → All (λ u. stored_seq hash rows (hash u.update) ≡ none) rest.1
      → All (λ u. stored_seq hash rows (hash u.update) ≡ none) (catch_entry o e rest).1
  missing_entry (some s) e rest k h = h
  missing_entry none e rest k h = elim (Bool-cases (is_none e.seq)) [
    | inl t ↦ rw t (k, h)
    | inr f ↦ rw f h
  ]

  missing_not_stored :
      (es : List CipherEntry)
      → All (λ i. i.1 ≡ hash i.0) (identities es)
      → All (λ u. stored_seq hash rows (hash u.update) ≡ none) (catch_entries hash rows es).1
  unfolding catch_entries
  missing_not_stored [] h = tt
  missing_not_stored (e ∷ es) h =
      missing_entry _ e _ (ap (stored_seq hash rows) (sym h.0)) (missing_not_stored es h.1)

  -- A log whose entries carry their own, different hashes is caught up with the stored rows. No update
  -- that it names as missing has the bytes of a stored row; and once the missing ones are committed,
  -- no entry of the log is uncommitted.
  pub catch_up_completes :
      (log : CipherLog) (first_seq : ℕ)
      → IsLog hash log
      → let (log', missing) = catch_up hash rows log in
        All (λ u. stored_seq hash rows (hash u.update) ≡ none) missing
        × (full_state (committed missing first_seq log') ≡ [])
  unfolding catch_up committed full_state
  catch_up_completes log first_seq v =
      let hashed = All-map _ _ _ (λ i h. h.0) v.sound in
      (
        missing_not_stored log.entries hashed,
        all_committed _ first_seq (catch_entries hash rows log.entries).0
            (subst Apart (sym (identities-catch_entries hash rows log.entries))
              (Apart-Distinct hash (identities log.entries) hashed v.distinct))
            (sym (missing-uncommitted log.entries)),
      )
