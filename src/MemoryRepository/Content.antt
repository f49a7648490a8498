-- ===== src/MemoryRepository/Content.antt =====
-- What the repository holds of a board: everything that was appended, in order, part of it in a snapshot.
use whiteboard_ai.Base.{
  ℕ, suc, ◌+◌, ◌-◌, ◌≤◌, ◌<◌, ◌≡◌, inl, inr, refl, sym, ap, ◌∙◌, ◌||◌, Option, none, some, List, [],
  ◌∷◌, ◌++◌, map, filter, length, length-append, take, drop, take-append-drop, arith, ltb, leb,
  Bool-cases, Option-cases, sort,
}
use whiteboard_ai.RoomPersistence.{NewUpdate}
use whiteboard_ai.MemoryRepository.{
  numbered, last_of, SavedState, LoadedBoard, MemoryBoard, new_board, upto, seq_of, load_board,
  append_to, archive_upto, state_of, compact_board, install_board, since,
}
use whiteboard_ai.MemoryRepository.Numbered.{
  numbered-append, map-numbered, numbered-low, numbered-high, sort-numbered, last-numbered,
  last-push, take-more, drop-more, length-drop, length-take, take-split, drop-drop, take-all,
}

abbrev pub updates_of : List (NewUpdate ℕ) → List ℕ
updates_of us = map (λ u. u.update) us

-- `content` are the updates that a snapshot stands for.
module _ {State : Type 0} (content : State → List ℕ) where
  abbrev pub content_of : Option State → List ℕ
  content_of none = []
  content_of (some s) = content s

  -- The board holds `all`: up to a seq in the archive and the last snapshot, the rest as updates.
  pub record Holds (all : List (NewUpdate ℕ)) (b : MemoryBoard State) : Type 0 where
    saved : Option (SavedState State)
    newest : last_of b.snapshots ≡ saved
    counted : b.last_seq ≡ length all
    bound : upto State saved ≤ length all
    archived : b.archive ≡ numbered 1 (take (upto State saved) all)
    live : b.updates ≡ numbered (suc (upto State saved)) (drop (upto State saved) all)
    covered : content_of (state_of State saved) ≡ updates_of (take (upto State saved) all)

  pub new_board-Holds : Holds [] (new_board State)
  unfolding numbered
  new_board-Holds = record {
    saved = none;
    newest = refl;
    counted = refl;
    bound = omega arith;
    archived = refl;
    live = refl;
    covered = refl;
  }

  pub append_to-Holds :
      (us all : List (NewUpdate ℕ)) (b : MemoryBoard State)
      → Holds all b
      → Holds (all ++ us) (append_to State us b)
  append_to-Holds us all b h =
      let k = upto State h.saved in
      let more = take-more k all us h.bound in
      let at : b.last_seq + 1 ≡ suc k + length (drop k all) =
        omega (arith, h.counted, length-drop k all h.bound) in
      record {
        saved = h.saved;
        newest = h.newest;
        counted = omega (arith, h.counted, length-append all us);
        bound = omega (arith, h.bound, length-append all us);
        archived = h.archived ∙ ap (numbered 1) (sym more);
        live =
            ap (λ xs. xs ++ numbered (b.last_seq + 1) us) h.live
            ∙ ap (λ s. numbered (suc k) (drop k all) ++ numbered s us) at
            ∙ sym (numbered-append (suc k) (drop k all) us)
            ∙ ap (numbered (suc k)) (sym (drop-more k all us h.bound));
        covered = h.covered ∙ ap updates_of (sym more);
      }

  archive_upto-Holds :
      (m : ℕ) (state : State) (all : List (NewUpdate ℕ)) (b : MemoryBoard State) (h : Holds all b)
      → upto State h.saved < m
      → m ≤ length all
      → content state ≡ updates_of (take m all)
      → Holds all (archive_upto State m state b)
  archive_upto-Holds m state all b h newer bound covers =
      let k = upto State h.saved in
      let n = m - k in
      let e : suc m ≡ suc k + n = omega (arith, newer) in
      let whole : m ≡ k + n = omega (arith, newer) in
      let at : suc k ≡ 1 + length (take k all) = omega (arith, length-take k all h.bound) in
      record {
        saved = some (record { seq_upto = m; state = state });
        newest = last-push b.snapshots (record { seq_upto = m; state = state });
        counted = h.counted;
        bound = bound;
        archived =
            ap (λ xs. xs ++ filter (λ u. leb u.seq m) b.updates) h.archived
            ∙ ap (λ ys. numbered 1 (take k all) ++ ys)
                (ap (filter (λ u. leb u.seq m)) h.live ∙ numbered-low n m (suc k) (drop k all) e)
            ∙ ap (λ s. numbered 1 (take k all) ++ numbered s (take n (drop k all))) at
            ∙ sym (numbered-append 1 (take k all) (take n (drop k all)))
            ∙ ap (numbered 1) (take-split k n m all whole);
        live =
            ap (filter (λ u. ltb m u.seq)) h.live
            ∙ numbered-high n m (suc k) (drop k all) e
            ∙ ap (numbered (suc m)) (drop-drop k n m all whole);
        covered = covers;
      }

  -- The updates since the last snapshot are all that are left.
  fresh_updates :
      (all : List (NewUpdate ℕ)) (b : MemoryBoard State) (h : Holds all b)
      → filter (λ u. ltb (upto State (last_of b.snapshots)) u.seq) b.updates
        ≡ numbered (suc (upto State h.saved)) (drop (upto State h.saved) all)
  fresh_updates all b h =
      let k = upto State h.saved in
      ap (λ o. filter (λ u. ltb (upto State o) u.seq) b.updates) h.newest
      ∙ ap (filter (λ u. ltb k u.seq)) h.live
      ∙ numbered-high 0 k (suc k) (drop k all) (omega arith)

  updates_of-append :
      (xs ys : List (NewUpdate ℕ)) → updates_of (xs ++ ys) ≡ updates_of xs ++ updates_of ys
  updates_of-append [] ys = refl
  updates_of-append (x ∷ xs) ys = ap (◌∷◌ x.update) (updates_of-append xs ys)

  -- The snapshot and the updates after it are everything.
  whole_content :
      (all : List (NewUpdate ℕ)) (b : MemoryBoard State)
      → Holds all b
      → content_of (state_of State (last_of b.snapshots))
          ++ map
              (λ u. u.update)
              (filter (λ u. ltb (upto State (last_of b.snapshots)) u.seq) b.updates)
        ≡ updates_of all
  whole_content all b h =
      let k = upto State h.saved in
      ap (λ xs. content_of (state_of State (last_of b.snapshots)) ++ xs)
        (ap (map (λ u. u.update)) (fresh_updates all b h) ∙ map-numbered (suc k) (drop k all))
      ∙ ap (λ o. content_of (state_of State o) ++ updates_of (drop k all)) h.newest
      ∙ ap (λ xs. xs ++ updates_of (drop k all)) h.covered
      ∙ sym (updates_of-append (take k all) (drop k all))
      ∙ ap updates_of (take-append-drop k all)

  -- Whatever becomes of the board, it holds the same.
  abbrev pub Keeps {ℓ} : {A : Type ℓ} → List (NewUpdate ℕ) → Option (MemoryBoard State × A) → Type 0
  Keeps all none = Unit
  Keeps all (some (c, a)) = Holds all c

  pub install_board-Keeps :
      (m : ℕ) (state : State) (all : List (NewUpdate ℕ)) (b : MemoryBoard State)
      → Holds all b
      → content state ≡ updates_of (take m all)
      → Keeps all (install_board State m state b)
  unfolding install_board
  install_board-Keeps m state all b h covers =
      elim (Bool-cases (leb m (upto State (last_of b.snapshots)) || ltb b.last_seq m)) [
        | inl t ↦ rw (t, install_board) tt
        | inr f ↦
            let same = ap (upto State) h.newest in
            let c = h.counted in
            rw (f, install_board)
              (archive_upto-Holds m state all b h (ground arith) (ground arith) covers)
      ]

  module _ (build : Option State → List ℕ → State)
      (merges : (s : Option State) (us : List ℕ) → content (build s us) ≡ content_of s ++ us) where
    pub compact_board-Keeps :
        (all : List (NewUpdate ℕ)) (b : MemoryBoard State)
        → Holds all b
        → Keeps all (compact_board State build b)
    unfolding compact_board
    compact_board-Keeps all b h =
        let k = upto State h.saved in
        let fresh = fresh_updates all b h in
        elim (Option-cases
          (last_of (filter (λ u. ltb (upto State (last_of b.snapshots)) u.seq) b.updates))) [
            | inl e ↦ rw (e, compact_board) tt
            | inr (last, e) ↦ elim (last-numbered (suc k) (drop k all)) [
              | inl (n, empty) ↦ absurd (let w = sym e ∙ ap last_of fresh ∙ n in cc)
              | inr (u, at, above, last_is) ↦
                  let same : some last ≡ some u = sym e ∙ ap last_of fresh ∙ at in
                  let seq : last.seq ≡ u.seq = ap (seq_of State) same in
                  let size = length-drop k all h.bound in
                  let end : last.seq ≡ length all = omega (arith, seq, last_is, size) in
                  rw (e, compact_board)
                    (archive_upto-Holds last.seq _ all b h (omega (arith, seq, above))
                      (omega (arith, end))
                      (merges _ _
                        ∙ whole_content all b h
                        ∙ ap updates_of (sym (take-all all) ∙ ap (λ n. take n all) (sym end))))
            ]
          ]

  max_seq-length :
      (all : List (NewUpdate ℕ)) (b : MemoryBoard State)
      → Holds all b
      → (load_board State (some b)).max_seq ≡ length all
  unfolding load_board
  max_seq-length all b h =
      let k = upto State h.saved in
      let size = length-drop k all h.bound in
      let same = ap (upto State) h.newest in
      let fresh = ap (λ xs. seq_of State (last_of xs)) (fresh_updates all b h) in
      elim (last-numbered (suc k) (drop k all)) [
        | inl (n, empty) ↦
            let none_left = ap (seq_of State) n in
            let nothing = ap length empty in omega (arith, same, fresh, none_left, nothing, size)
        | inr (u, at, above, last_is) ↦
            let seq = ap (seq_of State) at in omega (arith, same, fresh, seq, above, last_is, size)
      ]

  -- What a load returns stands for.
  abbrev pub loaded_content : LoadedBoard State → List ℕ
  loaded_content l = content_of (state_of State l.snapshot) ++ map (λ u. u.update) l.updates

  -- What a load, and a catch-up, return of a board that holds everything.
  pub loaded :
      (all : List (NewUpdate ℕ)) (b : MemoryBoard State)
      → Holds all b
      → (loaded_content (load_board State (some b)) ≡ updates_of all)
        × ((load_board State (some b)).max_seq ≡ length all)
  unfolding load_board
  loaded all b h = (whole_content all b h, max_seq-length all b h)

  pub since-numbered :
      (after : ℕ) (all : List (NewUpdate ℕ)) (b : MemoryBoard State)
      → Holds all b
      → since State after (some b) ≡ numbered (suc after) (drop after all)
  since-numbered after all b h =
      let k = upto State h.saved in
      let at : suc k ≡ 1 + length (take k all) = omega (arith, length-take k all h.bound) in
      let whole : b.archive ++ b.updates ≡ numbered 1 all =
        ap (λ xs. xs ++ b.updates) h.archived
        ∙ ap (λ ys. numbered 1 (take k all) ++ ys) h.live
        ∙ ap (λ s. numbered 1 (take k all) ++ numbered s (drop k all)) at
        ∙ sym (numbered-append 1 (take k all) (drop k all))
        ∙ ap (numbered 1) (take-append-drop k all) in
      ap (sort (λ a c. ltb a.seq c.seq))
        (ap (filter (λ u. ltb after u.seq)) whole ∙ numbered-high after after 1 all (omega arith))
      ∙ sort-numbered (suc after) (drop after all)
