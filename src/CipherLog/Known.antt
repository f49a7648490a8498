-- ===== src/CipherLog/Known.antt =====
-- What every log of a private room keeps (`CipherLog` of apps/server/src/sync/encryptedRoom.ts).
use whiteboard_ai.Base.{
  ℕ, ◌≡◌, refl, sym, ap, subst, ◌∙◌, inl, inr, ◌||◌, Bool, true, false, Option, none, some, List,
  [], ◌∷◌, ◌++◌, arith, ◌==◌, ==_iff, any, filter, All, All-map, All-append, any-append, Bool-cases,
}
use whiteboard_ai.RoomPersistence.{NewUpdate}
use whiteboard_ai.CipherLog.{
  CipherLog, CipherEntry, Ack, StoredUpdate, LoadedBoard, empty_log, has, is_after,
  install_snapshot, committed, set_seq, set_seqs, add, add_all, catch_entry, entry_of, load,
  catch_entries, catch_up, stored_seq,
}

-- What never changes of an entry: its blob and its hash.
abbrev pub identity : CipherEntry → ℕ × ℕ
identity e = (e.blob, e.hash)

abbrev pub identities : List CipherEntry → List (ℕ × ℕ)
identities [] = []
identities (e ∷ es) = identity e ∷ identities es

-- No two of them have the same hash.
abbrev pub Distinct : List (ℕ × ℕ) → Type 0
Distinct [] = Unit
Distinct (i ∷ is) = All (λ j. (j.1 == i.1) ≡ false) is × Distinct is

pub identities-set_seq :
    (b n : ℕ) (es : List CipherEntry) → identities (set_seq b n es) ≡ identities es
identities-set_seq b n [] = refl
identities-set_seq b n (e ∷ es) = elim (Bool-cases (any (λ f. f.blob == b) es)) [
  | inl t ↦ rw t (ap (◌∷◌ (identity e)) (identities-set_seq b n es))
  | inr f ↦ elim (Bool-cases (e.blob == b)) [
    | inl t ↦ rw (f, t) refl
    | inr g ↦ rw (f, g) (ap (◌∷◌ (identity e)) (identities-set_seq b n es))
  ]
]

pub identities-set_seqs :
    (us : List (NewUpdate ℕ)) (n : ℕ) (es : List CipherEntry)
    → identities (set_seqs us n es) ≡ identities es
identities-set_seqs [] n es = refl
identities-set_seqs (u ∷ us) n es =
    identities-set_seqs us _ (set_seq u.update n es) ∙ identities-set_seq u.update n es

All-filter :
    (P : ℕ × ℕ → Type 0) (p : CipherEntry → Bool) (es : List CipherEntry)
    → All P (identities es)
    → All P (identities (filter p es))
All-filter P p [] h = tt
All-filter P p (e ∷ es) h = elim (Bool-cases (p e)) [
  | inl t ↦ rw t (h.0, All-filter P p es h.1)
  | inr f ↦ rw f (All-filter P p es h.1)
]

Distinct-filter :
    (p : CipherEntry → Bool) (es : List CipherEntry)
    → Distinct (identities es)
    → Distinct (identities (filter p es))
Distinct-filter p [] h = tt
Distinct-filter p (e ∷ es) h = elim (Bool-cases (p e)) [
  | inl t ↦ rw t (All-filter _ p es h.0, Distinct-filter p es h.1)
  | inr f ↦ rw f (Distinct-filter p es h.1)
]

identities-append :
    (es : List CipherEntry) (e : CipherEntry)
    → identities (es ++ e ∷ []) ≡ identities es ++ identity e ∷ []
identities-append [] e = refl
identities-append (f ∷ es) e = ap (◌∷◌ (identity f)) (identities-append es e)

Distinct-append :
    (is : List (ℕ × ℕ)) (i : ℕ × ℕ)
    → Distinct is
    → All (λ j. (i.1 == j.1) ≡ false) is
    → Distinct (is ++ i ∷ [])
Distinct-append [] i d f = (tt, tt)
Distinct-append (j ∷ is) i d f =
    (All-append _ is (i ∷ []) d.0 (f.0, tt), Distinct-append is i d.1 f.1)

pub any-push : (p : ℕ → Bool) (ks : List ℕ) (k : ℕ) → any p (ks ++ k ∷ []) ≡ (any p ks || p k)
any-push p ks k = let both = any-append p ks (k ∷ []) in ground arith

identities-catch_entry :
    (o : Option ℕ) (e : CipherEntry) (rest : List CipherEntry × List (NewUpdate ℕ))
    → identities (catch_entry o e rest).0 ≡ identity e ∷ identities rest.0
identities-catch_entry none e rest = refl
identities-catch_entry (some s) e rest = refl

-- A call that changes the log.
pub data Operation : Type 0 where
  adds : ℕ → Option Ack → Option ℕ → Operation
  commits : List (NewUpdate ℕ) → ℕ → Operation
  catches_up : List StoredUpdate → Operation
  installs : ℕ → ℕ → Operation

module _ (hash : ℕ → ℕ) where
  pub identities-catch_entries :
      (rows : List StoredUpdate) (es : List CipherEntry)
      → identities (catch_entries hash rows es).0 ≡ identities es
  unfolding catch_entries
  identities-catch_entries rows [] = refl
  identities-catch_entries rows (e ∷ es) =
      identities-catch_entry (stored_seq hash rows e.hash) e (catch_entries hash rows es)
      ∙ ap (◌∷◌ (identity e)) (identities-catch_entries rows es)

  -- What a blob is known by is its hash, which the log has seen; and it is there once.
  pub record IsLog (log : CipherLog) : Type 0 where
    pub sound : All (λ i. (i.1 ≡ hash i.0) × (has i.1 log ≡ true)) (identities log.entries)
    pub distinct : Distinct (identities log.entries)

  unfoldable pub apply : Operation → CipherLog → CipherLog
  apply (adds blob ack seq) log = (add hash blob ack seq log).0
  apply (commits batch first_seq) log = committed batch first_seq log
  apply (catches_up rows) log = (catch_up hash rows log).0
  apply (installs seq_upto blob) log = install_snapshot seq_upto blob log

  unfoldable pub run : List Operation → CipherLog → CipherLog
  unfolding apply
  run [] log = log
  run (op ∷ ops) log = run ops (apply op log)

  add_fresh :
      (blob : ℕ) (ack : Option Ack) (seq : Option ℕ) (log : CipherLog)
      → has (hash blob) log ≡ false
      → IsLog log
      → IsLog (add hash blob ack seq log).0
  unfolding add
  add_fresh blob ack seq log fresh v =
      rw (fresh, add)
        (record {
          sound = rw (identities-append log.entries (entry_of hash blob ack seq)) (
              All-append _ (identities log.entries) _
                (All-map _ _ _
                  (λ i h. (h.0, any-push (λ k. k == i.1) log.known (hash blob) ∙ rw h.1 refl))
                  v.sound)
                ((refl, any-push (λ k. k == hash blob) log.known (hash blob) ∙ ground arith), tt));
          distinct = rw (identities-append log.entries (entry_of hash blob ack seq)) (
              Distinct-append (identities log.entries) _ v.distinct
                (All-map _ _ _ (λ i h. unlike i h.1) v.sound));
        })
    where
      unlike : (i : ℕ × ℕ) → has i.1 log ≡ true → (hash blob == i.1) ≡ false
      unlike i h = elim (Bool-cases (hash blob == i.1)) [
        | inl t ↦ absurd (let same : hash blob ≡ i.1 = (==_iff _ _).0 t in cc)
        | inr f ↦ f
      ]

  add-IsLog :
      (blob : ℕ) (ack : Option Ack) (seq : Option ℕ) (log : CipherLog)
      → IsLog log
      → IsLog (add hash blob ack seq log).0
  unfolding add
  add-IsLog blob ack seq log v = elim (Bool-cases (has (hash blob) log)) [
    | inl k ↦ rw (k, add) v
    | inr k ↦ add_fresh blob ack seq log k v
  ]

  -- The invariant is about the identities of the entries and what is known.
  same_identities :
      (log log' : CipherLog)
      → identities log'.entries ≡ identities log.entries
      → log'.known ≡ log.known
      → IsLog log
      → IsLog log'
  same_identities log log' e k v = record { sound = rw (e, k) v.sound; distinct = rw e v.distinct }

  apply-IsLog : (op : Operation) (log : CipherLog) → IsLog log → IsLog (apply op log)
  unfolding apply committed catch_up install_snapshot
  apply-IsLog (adds blob ack seq) log v = add-IsLog blob ack seq log v
  apply-IsLog (commits batch n) log v =
      same_identities log _ (identities-set_seqs batch n log.entries) refl v
  apply-IsLog (catches_up rows) log v =
      same_identities log _ (identities-catch_entries rows log.entries) refl v
  apply-IsLog (installs seq_upto blob) log v = record {
    sound = All-filter _ (is_after seq_upto) log.entries v.sound;
    distinct = Distinct-filter (is_after seq_upto) log.entries v.distinct;
  }

  add_all-IsLog :
      (us : List StoredUpdate) (log : CipherLog) → IsLog log → IsLog (add_all hash us log)
  add_all-IsLog [] log v = v
  add_all-IsLog (u ∷ us) log v = add_all-IsLog us _ (add-IsLog u.update none (some u.seq) log v)

  run-IsLog : (ops : List Operation) (log : CipherLog) → IsLog log → IsLog (run ops log)
  unfolding run
  run-IsLog [] log v = v
  run-IsLog (op ∷ ops) log v = run-IsLog ops _ (apply-IsLog op log v)

  -- Whatever stored board a log is loaded from, and whatever calls follow: each entry carries the
  -- hash of its blob, which the log knows, and no two entries have the same hash.
  pub loaded-IsLog :
      (board : LoadedBoard) (ops : List Operation) → IsLog (run ops (load hash board empty_log))
  unfolding load
  loaded-IsLog board ops = run-IsLog ops _ (
      same_identities (add_all hash board.updates (record empty_log { snapshot = board.snapshot }))
        _ refl refl (add_all-IsLog board.updates _ (record { sound = tt; distinct = tt })))

  pub known_grows :
      (k blob : ℕ) (ack : Option Ack) (seq : Option ℕ) (log : CipherLog)
      → has k log ≡ true
      → has k (add hash blob ack seq log).0 ≡ true
  unfolding add
  known_grows k blob ack seq log h = elim (Bool-cases (has (hash blob) log)) [
    | inl t ↦ rw (t, add) h
    | inr f ↦ rw (f, add) (any-push (λ j. j == k) log.known (hash blob) ∙ rw h refl)
  ]

  apply_knows :
      (k : ℕ) (op : Operation) (log : CipherLog) → has k log ≡ true → has k (apply op log) ≡ true
  unfolding apply committed catch_up install_snapshot
  apply_knows k (adds blob ack seq) log h = known_grows k blob ack seq log h
  apply_knows k (commits batch n) log h = h
  apply_knows k (catches_up rows) log h = h
  apply_knows k (installs seq_upto blob) log h = h

  run_knows :
      (k : ℕ) (ops : List Operation) (log : CipherLog)
      → has k log ≡ true
      → has k (run ops log) ≡ true
  unfolding run
  run_knows k [] log h = h
  run_knows k (op ∷ ops) log h = run_knows k ops _ (apply_knows k op log h)

  pub has-add :
      (blob : ℕ) (ack : Option Ack) (seq : Option ℕ) (log : CipherLog)
      → has (hash blob) (add hash blob ack seq log).0 ≡ true
  unfolding add
  has-add blob ack seq log = elim (Bool-cases (has (hash blob) log)) [
    | inl t ↦ rw (t, add) t
    | inr f ↦ rw (f, add) (any-push (λ j. j == hash blob) log.known (hash blob) ∙ ground arith)
  ]

  -- A blob that was added once is a duplicate from then on, whatever calls lie between: adding the
  -- same bytes changes nothing and gives no entry, even if a snapshot has replaced the entry since.
  pub added_once :
      (log : CipherLog) (blob : ℕ) (ack : Option Ack) (seq : Option ℕ) (ops : List Operation)
      (again : ℕ) (ack' : Option Ack) (seq' : Option ℕ)
      → hash again ≡ hash blob
      → add hash again ack' seq' (run ops (add hash blob ack seq log).0)
        ≡ (run ops (add hash blob ack seq log).0, none)
  unfolding add
  added_once log blob ack seq ops again ack' seq' same =
      let k : has (hash again) (run ops (add hash blob ack seq log).0) ≡ true =
        subst (λ h. has h (run ops (add hash blob ack seq log).0) ≡ true) (sym same)
          (run_knows (hash blob) ops _ (has-add blob ack seq log)) in
      rw (k, add) refl
