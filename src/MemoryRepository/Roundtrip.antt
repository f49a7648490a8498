-- ===== src/MemoryRepository/Roundtrip.antt =====
-- What is loaded of a board, whatever was done with it.
use whiteboard_ai.Base.{
  ℕ, zero, suc, ◌≡◌, ◌⊎◌, inl, inr, refl, sym, ap, subst, ◌∙◌, true, false, Option, none, some,
  List, [], ◌∷◌, ◌++◌, append-nil, length, take, drop, Option-cases, List-cases, ◌==◌, ==_iff,
}
use whiteboard_ai.RoomPersistence.{NewUpdate}
use whiteboard_ai.MemoryRepository.{
  numbered, LoadedBoard, MemoryBoard, MemoryRepository, new_board, load_board, load_stored,
  board_or_new, append_stored, may_fail, change_board, compact_board, compact_stored, install_board,
  install_stored, since, updates_since,
}
use whiteboard_ai.MemoryRepository.Content.{
  updates_of, content_of, Holds, new_board-Holds, append_to-Holds, Keeps, install_board-Keeps,
  compact_board-Keeps, loaded_content, loaded, since-numbered,
}

-- A snapshot that is built stands for the snapshot and the updates that it is built of.
module _ {State : Type 0} (content : State → List ℕ) (build : Option State → List ℕ → State)
    (merges : (s : Option State) (us : List ℕ) → content (build s us) ≡ content_of content s ++ us)
    (v : ℕ) where
  -- What may be done with a repository: `all` was appended to the board. A client's snapshot stands
  -- for the updates up to its seq; `outage` makes the next operations fail.
  pub data Run : MemoryRepository State → List (NewUpdate ℕ) → Type 0 where
    unsaved : (r : MemoryRepository State) → r.boards v ≡ none → Run r []
    appended :
        {r : MemoryRepository State} {all : List (NewUpdate ℕ)}
        → Run r all
        → (us : List (NewUpdate ℕ)) → r.fail_next ≡ 0
        → Run (append_stored State v us r).1 (all ++ us)
    append_failed :
        {r : MemoryRepository State} {all : List (NewUpdate ℕ)}
        → Run r all
        → (us : List (NewUpdate ℕ)) (n : ℕ) → r.fail_next ≡ suc n
        → Run (append_stored State v us r).1 all
    elsewhere :
        {r : MemoryRepository State} {all : List (NewUpdate ℕ)}
        → Run r all
        → (w : ℕ) (us : List (NewUpdate ℕ)) → (v == w) ≡ false
        → Run (append_stored State w us r).1 all
    compacted :
        {r : MemoryRepository State} {all : List (NewUpdate ℕ)}
        → Run r all
        → Run (compact_stored State v build r).1 all
    installed :
        {r : MemoryRepository State} {all : List (NewUpdate ℕ)}
        → Run r all
        → (m : ℕ) (state : State) → content state ≡ updates_of (take m all)
        → Run (install_stored State v m state r).1 all
    outage :
        {r : MemoryRepository State} {all : List (NewUpdate ℕ)}
        → Run r all
        → (n : ℕ) → Run (record r { fail_next = n }) all

  abbrev BoardHolds : List (NewUpdate ℕ) → Option (MemoryBoard State) → Type 0
  BoardHolds all none = all ≡ []
  BoardHolds all (some b) = Holds content all b

  or_new-Holds :
      (all : List (NewUpdate ℕ)) (o : Option (MemoryBoard State))
      → BoardHolds all o
      → Holds content all (board_or_new State o)
  or_new-Holds all none h =
      subst (λ a. Holds content a (new_board State)) (sym h) (new_board-Holds content)
  or_new-Holds all (some b) h = h

  append-BoardHolds :
      (us all : List (NewUpdate ℕ)) (r : MemoryRepository State)
      → BoardHolds all (r.boards v)
      → r.fail_next ≡ 0
      → BoardHolds (all ++ us) ((append_stored State v us r).1.boards v)
  unfolding append_stored
  append-BoardHolds [] all r h e =
      rw (e, append_stored) (subst (λ a. BoardHolds a (r.boards v)) (sym (append-nil all)) h)
  append-BoardHolds (u ∷ us) all r h e =
      let self : (v == v) ≡ true = (==_iff v v).1 refl in
      rw (e, append_stored, self)
        (append_to-Holds content (u ∷ us) all _ (or_new-Holds all (r.boards v) h))

  failed-BoardHolds :
      (us all : List (NewUpdate ℕ)) (r : MemoryRepository State) (n : ℕ)
      → BoardHolds all (r.boards v)
      → r.fail_next ≡ suc n
      → BoardHolds all ((append_stored State v us r).1.boards v)
  unfolding append_stored
  failed-BoardHolds us all r n h e = rw (e, append_stored) h

  fail_cases : (n : ℕ) → (n ≡ 0) ⊎ ((k : ℕ) × (n ≡ suc k))
  fail_cases zero = inl refl
  fail_cases (suc k) = inr (k, refl)

  elsewhere-BoardHolds :
      (w : ℕ) (us all : List (NewUpdate ℕ)) (r : MemoryRepository State)
      → BoardHolds all (r.boards v)
      → (v == w) ≡ false
      → BoardHolds all ((append_stored State w us r).1.boards v)
  unfolding append_stored
  elsewhere-BoardHolds w us all r h other = elim (fail_cases r.fail_next) [
    | inl e ↦ elim (List-cases us) [
      | inl k ↦ rw (e, k, append_stored) h
      | inr (u, rest, k) ↦ rw (e, k, append_stored, other) h
    ]
    | inr (k, e) ↦ rw (e, append_stored) h
  ]

  change-BoardHolds :
      {A : Type 0} (change : MemoryBoard State → Option (MemoryBoard State × A))
      (all : List (NewUpdate ℕ)) (r : MemoryRepository State)
      → ((b : MemoryBoard State) → Holds content all b → Keeps content all (change b))
      → BoardHolds all (r.boards v)
      → BoardHolds all ((may_fail State (change_board State v change) r).1.boards v)
  change-BoardHolds change all r keeps h = elim (fail_cases r.fail_next) [
    | inl e ↦ elim (Option-cases (r.boards v)) [
      | inl f ↦ rw (e, f, may_fail, change_board) h
      | inr (b, f) ↦
          let holds : Holds content all b = subst (BoardHolds all) f h in
          elim (Option-cases (change b)) [
            | inl k ↦ rw (e, f, k, may_fail, change_board) h
            | inr (c, k) ↦
                let self : (v == v) ≡ true = (==_iff v v).1 refl in
                let kept : Keeps content all (some c) =
                  subst (Keeps content all) k (keeps b holds) in
                rw (e, f, k, self, may_fail, change_board) kept
          ]
    ]
    | inr (n, e) ↦ rw (e, may_fail) h
  ]

  Run-BoardHolds :
      (r : MemoryRepository State) (all : List (NewUpdate ℕ))
      → Run r all
      → BoardHolds all (r.boards v)
  unfolding compact_stored install_stored
  Run-BoardHolds r all (unsaved q e) = subst (BoardHolds []) (sym e) refl
  Run-BoardHolds r all (appended {r = q} {all = us} h vs e) =
      append-BoardHolds vs us q (Run-BoardHolds q us h) e
  Run-BoardHolds r all (append_failed {r = q} h us n e) =
      failed-BoardHolds us all q n (Run-BoardHolds q all h) e
  Run-BoardHolds r all (elsewhere {r = q} h w us n) =
      elsewhere-BoardHolds w us all q (Run-BoardHolds q all h) n
  Run-BoardHolds r all (compacted {r = q} h) =
      change-BoardHolds (compact_board State build) all q
        (compact_board-Keeps content build merges all) (Run-BoardHolds q all h)
  Run-BoardHolds r all (installed {r = q} h m state covers) =
      change-BoardHolds (install_board State m state) all q
        (λ b k. install_board-Keeps content m state all b k covers) (Run-BoardHolds q all h)
  Run-BoardHolds r all (outage {r = q} h n) = Run-BoardHolds q all h

  load_board-whole :
      (all : List (NewUpdate ℕ)) (o : Option (MemoryBoard State))
      → BoardHolds all o
      → (loaded_content content (load_board State o) ≡ updates_of all)
        × ((load_board State o).max_seq ≡ length all)
  unfolding load_board
  load_board-whole all none h = (ap updates_of (sym h), ap length (sym h))
  load_board-whole all (some b) h = loaded content all b h

  -- Whatever was done with a board, a load that the database answers returns everything that was
  -- appended to it, in order and once, as a snapshot and the updates after it, and the number of them
  -- as the highest seq.
  pub load_after_appends :
      (r : MemoryRepository State) (all : List (NewUpdate ℕ))
      → Run r all
      → r.fail_next ≡ 0
      → (l : LoadedBoard State) × ((load_stored State v r).0 ≡ some l)
        × (loaded_content content l ≡ updates_of all)
        × (l.max_seq ≡ length all)
  unfolding load_stored
  load_after_appends r all h e =
      let (whole, size) = load_board-whole all (r.boards v) (Run-BoardHolds r all h) in
      (load_board State (r.boards v), rw e refl, whole, size)

  drop_none : (after : ℕ) → drop {A = NewUpdate ℕ} after [] ≡ []
  drop_none zero = refl
  drop_none (suc after) = refl

  since_board :
      (after : ℕ) (all : List (NewUpdate ℕ)) (o : Option (MemoryBoard State))
      → BoardHolds all o
      → since State after o ≡ numbered (suc after) (drop after all)
  unfolding numbered
  since_board after all none h =
      sym (ap (numbered (suc after)) (ap (drop after) h ∙ drop_none after))
  since_board after all (some b) h = since-numbered content after all b h

  -- The updates since a seq are exactly those that were appended after as many, with their own seqs, also
  -- when they are archived.
  pub updates_since_lem :
      (r : MemoryRepository State) (all : List (NewUpdate ℕ)) (after : ℕ)
      → Run r all
      → r.fail_next ≡ 0
      → (updates_since State v after r).0 ≡ some (numbered (suc after) (drop after all))
  unfolding updates_since
  updates_since_lem r all after h e =
      rw e (ap some (since_board after all (r.boards v) (Run-BoardHolds r all h)))
