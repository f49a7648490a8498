-- ===== src/Graph/Search/Ends.antt =====
-- The work list ends: each round takes an id, and an id is pushed once.
use whiteboard_ai.Base.{
  ℕ, zero, suc, ◌+◌, ◌≤◌, ◌≡◌, inl, inr, ap, true, List, [], ◌∷◌, ◌++◌, arith, length, includes,
  unseen, unseen-push, List-cases, Bool-cases,
}
use whiteboard_ai.Graph.Search.{Search, push_new, scan, expand, search}

module _ (universe : List ℕ) where
  -- The rounds that are left at most, where all that is next to anything is in the universe.
  abbrev pub work : Search → ℕ
  work s = length s.stack + unseen universe s.seen

  push_new-work : (s : Search) (v : ℕ) → includes v universe ≡ true → work (push_new s v) ≤ work s
  unfolding push_new
  push_new-work s v m = elim (Bool-cases (includes v s.seen)) [
    | inl t ↦ rw t (omega arith)
    | inr f ↦ rw f (omega (arith, unseen-push universe s.seen v m f))
  ]

  scan-work :
      (s : Search) (vs : List ℕ)
      → ((v : ℕ) → includes v vs ≡ true → includes v universe ≡ true)
      → work (scan s vs) ≤ work s
  unfolding scan
  scan-work s [] h = omega arith
  scan-work s (v ∷ vs) h =
      let first = push_new-work s v (h v (ground arith)) in
      let rest = scan-work (push_new s v) vs (λ u m. h u (ground arith)) in
      omega (arith, first, rest)

  pub search_ends :
      (next : ℕ → List ℕ) (fuel : ℕ) (s : Search)
      → ((u v : ℕ) → includes v (next u) ≡ true → includes v universe ≡ true)
      → work s ≤ fuel
      → (search next fuel s).stack ≡ []
  unfolding search expand
  search_ends next zero s h e = elim (List-cases s.stack) [
    | inl k ↦ k
    | inr (u, rest, k) ↦ absurd (omega (arith, ap length k, e))
  ]
  search_ends next (suc fuel) s h e = elim (List-cases s.stack) [
    | inl k ↦ rw (k, search) k
    | inr (u, rest, k) ↦
        let less =
          scan-work (record s { stack = rest; taken = s.taken ++ u ∷ [] }) (next u) (h u) in
        rw (k, search)
          (search_ends next fuel (expand next s u rest) h (omega (arith, ap length k, less, e)))
  ]
