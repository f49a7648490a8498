-- ===== src/WindowLimiter/Bound.antt =====
-- The bound that apps/server/src/http/windowLimiter.ts promises, for clocks that never go back.
use whiteboard_ai.Base.{
  ℕ, ◌+◌, ◌-◌, ◌/◌, ◌≤◌, ◌<◌, ◌≡◌, refl, sym, ap, subst, ◌∙◌, inl, inr, true, false, ◌&&◌, some,
  List, [], ◌∷◌, arith, ◌==◌, ==_iff, leb, Bool-cases, if◌then◌else◌,
}
use whiteboard_ai.WindowLimiter.{Entry, Counts, get, set, forget, next_count, hit}
use whiteboard_ai.WindowLimiter.Entries.{
  Unique, get-set, get-set_other, Unique-set, Unique-forget, used, Past, Past-le, used-forget,
  Past-forget, next_count-used, used_before,
}

module _ (most window_ms w k : ℕ) where
  -- How many of the hits, each an instant and a key, are of the key `k` in the window `w` and
  -- allowed.
  unfoldable pub allowed_hits : List (ℕ × ℕ) → Counts → ℕ
  allowed_hits [] counts = 0
  allowed_hits ((now, key) ∷ hits) counts =
      let (counts', ok) = hit most window_ms now key counts in
      (if key == k && now / window_ms == w && ok then 1 else 0) + allowed_hits hits counts'

  -- The clock: the windows of the hits never go back, and start at `v` or later.
  abbrev pub Ordered : ℕ → List (ℕ × ℕ) → Type 0
  Ordered v [] = Unit
  Ordered v ((now, _) ∷ hits) = (v ≤ now / window_ms) × Ordered (now / window_ms) hits

  contribution : ℕ → ℕ → Counts → ℕ
  contribution now key counts =
      if key == k && now / window_ms == w && (hit most window_ms now key counts).1 then 1 else 0

  elsewhere :
      (now key : ℕ) (counts : Counts)
      → (now / window_ms == w) ≡ false
      → contribution now key counts ≡ 0
  unfolding contribution
  elsewhere now key counts f = elim (Bool-cases (key == k)) [
    | inl t ↦ rw (t, f) refl
    | inr g ↦ rw g refl
  ]

  other_key : (now key : ℕ) (counts : Counts) → (key == k) ≡ false → contribution now key counts ≡ 0
  unfolding contribution
  other_key now key counts f = rw f refl

  late :
      (v : ℕ) (hits : List (ℕ × ℕ)) (counts : Counts)
      → w < v
      → Ordered v hits
      → allowed_hits hits counts ≡ 0
  unfolding allowed_hits contribution
  late v [] counts h o = refl
  late v ((now, key) ∷ hits) counts h o =
      let f : (now / window_ms == w) ≡ false = later (now / window_ms) o.0 in
      let a = elsewhere now key counts f in
      let b =
        late (now / window_ms) hits (hit most window_ms now key counts).0 (omega (arith, o.0, h))
          o.1 in
      omega (arith, a, b)
    where
      later : (x : ℕ) → v ≤ x → (x == w) ≡ false
      later x l = ground arith

  -- The entry of `k` after a hit of `k`, and of another key.
  hit_own :
      (now key : ℕ) (counts : Counts)
      → key ≡ k
      → let n = next_count (now / window_ms) (get k (forget (now / window_ms) counts)) in
        (get k (hit most window_ms now key counts).0
          ≡ some (record { key = key; window = now / window_ms; count = n }))
        × ((hit most window_ms now key counts).1 ≡ leb n most)
  unfolding hit
  hit_own now key counts e =
      let kept = forget (now / window_ms) counts in
      let x : Entry = record {
        key = key;
        window = now / window_ms;
        count = next_count (now / window_ms) (get key kept);
      } in
      (
        subst
            (λ j.
              get j (set x kept)
              ≡ some (record {
                key = key;
                window = now / window_ms;
                count = next_count (now / window_ms) (get j kept);
              }))
            e (get-set x kept),
        ap (λ j. leb (next_count (now / window_ms) (get j kept)) most) e,
      )

  hit_other :
      (now key : ℕ) (counts : Counts)
      → (key == k) ≡ false
      → get k (hit most window_ms now key counts).0 ≡ get k (forget (now / window_ms) counts)
  unfolding hit
  hit_other now key counts f = get-set_other _ k (forget (now / window_ms) counts) f

  hit-Unique :
      (now key : ℕ) (counts : Counts) → Unique counts → Unique (hit most window_ms now key counts).0
  unfolding hit
  hit-Unique now key counts u =
      Unique-set _ (forget (now / window_ms) counts) (Unique-forget (now / window_ms) counts u)

  hit-Past :
      (now key v : ℕ) (counts : Counts)
      → Unique counts
      → v ≤ now / window_ms
      → Past v (get k counts)
      → Past (now / window_ms) (get k (hit most window_ms now key counts).0)
  hit-Past now key v counts u l p = elim (Bool-cases (key == k)) [
    | inl t ↦
        subst (Past (now / window_ms)) (sym (hit_own now key counts ((==_iff _ _).0 t)).0)
          (omega arith)
    | inr f ↦ subst (Past (now / window_ms)) (sym (hit_other now key counts f)) (
        Past-forget (now / window_ms) (now / window_ms) k counts u (Past-le v _ (get k counts) l p))
  ]

  contribution_own :
      (now key n : ℕ) (counts : Counts)
      → (key == k) ≡ true
      → (now / window_ms == w) ≡ true
      → (hit most window_ms now key counts).1 ≡ leb n most
      → 1 ≤ n
      → contribution now key counts + (most - n) ≤ most - (n - 1)
  unfolding contribution
  contribution_own now key n counts a b c one = elim (Bool-cases (leb n most)) [
    | inl t ↦ rw (a, b, c, t) (ground arith)
    | inr f ↦ rw (a, b, c, f) (omega arith)
  ]

  own_counts :
      (now key : ℕ) (counts : Counts)
      → Unique counts
      → (now / window_ms == w) ≡ true
      → (key == k) ≡ true
      → contribution now key counts + (most - used w (get k (hit most window_ms now key counts).0))
        ≤ most - used w (get k counts)
  own_counts now key counts u t kt =
      let w' = now / window_ms in
      let same : now / window_ms ≡ w = (==_iff _ _).0 t in
      let own = hit_own now key counts ((==_iff _ _).0 kt) in
      let n = next_count (now / window_ms) (get k (forget (now / window_ms) counts)) in
      let a : used w (get k (hit most window_ms now key counts).0) ≡ n =
        ap (used w) own.0 ∙ rw t refl in
      let b : n ≡ used w' (get k (forget w' counts)) + 1 =
        next_count-used w' (get k (forget w' counts)) in
      let c : used w' (get k (forget w' counts)) ≡ used w' (get k counts) =
        used-forget w' k counts u in
      let d : used w' (get k counts) ≡ used w (get k counts) =
        ap (λ x. used x (get k counts)) same in
      let e = contribution_own now key n counts kt t own.1 (omega (arith, b)) in
      omega (arith, a, b, c, d, e)

  -- A hit counts what it allows, as long as the window is not over.
  hit_counts :
      (now key v : ℕ) (counts : Counts)
      → Unique counts
      → v ≤ now / window_ms
      → now / window_ms ≤ w
      → Past v (get k counts)
      → contribution now key counts + (most - used w (get k (hit most window_ms now key counts).0))
        ≤ most - used w (get k counts)
  hit_counts now key v counts u l m p = elim (Bool-cases (now / window_ms == w)) [
    | inl t ↦ elim (Bool-cases (key == k)) [
      | inl kt ↦ own_counts now key counts u t kt
      | inr kf ↦
          let same : now / window_ms ≡ w = (==_iff _ _).0 t in
          let a = other_key now key counts kf in
          let b : used w (get k (hit most window_ms now key counts).0) ≡ used w (get k counts) =
            ap (used w) (hit_other now key counts kf)
            ∙ subst (λ x. used w (get k (forget x counts)) ≡ used w (get k counts)) (sym same)
                (used-forget w k counts u) in
          omega (arith, a, b)
    ]
    | inr f ↦
        let a = elsewhere now key counts f in
        let before : now / window_ms < w = ground arith in
        let b =
          used_before (now / window_ms) w (get k counts) before (Past-le v _ (get k counts) l p) in
        omega (arith, a, b)
  ]

  bound_from :
      (v : ℕ) (hits : List (ℕ × ℕ)) (counts : Counts)
      → Unique counts
      → Ordered v hits
      → Past v (get k counts)
      → allowed_hits hits counts ≤ most - used w (get k counts)
  unfolding allowed_hits contribution
  bound_from v [] counts u o p = omega arith
  bound_from v ((now, key) ∷ hits) counts u o p =
      let counts' = (hit most window_ms now key counts).0 in
      elim (Bool-cases (leb (now / window_ms) w)) [
        | inl t ↦
            let rest =
              bound_from (now / window_ms) hits counts' (hit-Unique now key counts u) o.1
                (hit-Past now key v counts u o.0 p) in
            let step = hit_counts now key v counts u o.0 (ground arith) p in
            omega (arith, rest, step)
        | inr f ↦
            let after : w < now / window_ms = ground arith in
            let none_left =
              late (now / window_ms) ((now, key) ∷ hits) counts after (omega arith, o.1) in
            omega (arith, none_left)
      ]

  -- In any run of hits from an empty map by a clock that never goes back, at most `most` hits of a
  -- key are allowed in one window.
  pub at_most_max : (hits : List (ℕ × ℕ)) → Ordered 0 hits → allowed_hits hits [] ≤ most
  at_most_max hits o = omega (arith, bound_from 0 hits [] tt o tt)
