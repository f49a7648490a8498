-- ===== src/Replay/CountAt.antt =====
-- The binary search of packages/shared/src/replay/index.ts (`countAt`) and what it finds.
use whiteboard_ai.Base.{
  ℕ, zero, suc, ◌+◌, ◌-◌, ◌/◌, ◌≤◌, ◌<◌, ◌≡◌, refl, max, inl, inr, true, false, none, some, List,
  [], ◌∷◌, arith, ltb, leb, length, filter, Bool-cases, Option-cases, length-filter-le,
}
use whiteboard_ai.Replay.{Range, create, clamp, time_at, narrow, search, count_at}

-- Times that never go back, from `v` on.
abbrev pub Ascending : ℕ → List ℕ → Type 0
Ascending v [] = Unit
Ascending v (t ∷ ts) = (v ≤ t) × Ascending t ts

-- How many of the times are `t` or earlier.
abbrev pub by : ℕ → List ℕ → ℕ
by t ts = length (filter (λ x. leb x t) ts)

clamp-Ascending : (v : ℕ) (ts : List ℕ) → Ascending v (clamp v ts)
unfolding clamp
clamp-Ascending v [] = tt
clamp-Ascending v (t ∷ ts) = (omega arith, clamp-Ascending (max v t) ts)

from_start : (v i : ℕ) (ts : List ℕ) {x : ℕ} → Ascending v ts → time_at i ts ≡ some x → v ≤ x
from_start v i [] a e = absurd (ground arith)
from_start v zero (t ∷ ts) a e = ground arith
from_start v (suc i) (t ∷ ts) a e = omega (arith, a.0, from_start t i ts a.1 e)

none_by : (v t : ℕ) (ts : List ℕ) → Ascending v ts → t < v → by t ts ≡ 0
none_by v t [] a h = refl
none_by v t (x ∷ ts) a h =
    let late : leb x t ≡ false = ground (arith, a.0) in
    rw late (none_by x t ts a.1 (omega (arith, a.0, h)))

below :
    (v t i : ℕ) (ts : List ℕ) {x : ℕ}
    → Ascending v ts
    → time_at i ts ≡ some x
    → x ≤ t
    → i + 1 ≤ by t ts
below v t i [] a e h = absurd (ground arith)
below v t zero (y ∷ ts) a e h = let early : leb y t ≡ true = ground arith in rw early (omega arith)
below v t (suc i) (y ∷ ts) a e h =
    let k = from_start y i ts a.1 e in
    let early : leb y t ≡ true = ground arith in
    let rest = below y t i ts a.1 e h in rw early (omega (arith, rest))

above :
    (v t i : ℕ) (ts : List ℕ) {x : ℕ} → Ascending v ts → time_at i ts ≡ some x → t < x → by t ts ≤ i
above v t i [] a e h = omega arith
above v t zero (y ∷ ts) a e h =
    let late : t < y = ground arith in
    let k : leb y t ≡ false = ground arith in rw k (omega (arith, none_by y t ts a.1 late))
above v t (suc i) (y ∷ ts) a e h =
    let rest = above y t i ts a.1 e h in
    elim (Bool-cases (leb y t)) [
      | inl k ↦ rw k (omega (arith, rest))
      | inr k ↦ rw k (omega (arith, rest))
    ]

past_the_end : (i : ℕ) (ts : List ℕ) → time_at i ts ≡ none → length ts ≤ i
past_the_end i [] e = omega arith
past_the_end zero (t ∷ ts) e = absurd (ground arith)
past_the_end (suc i) (t ∷ ts) e = omega (arith, past_the_end i ts e)

-- The bounds keep the count between them, and come closer.
narrowed :
    (v t lo hi : ℕ) (ts : List ℕ)
    → Ascending v ts
    → lo ≤ by t ts
    → by t ts ≤ hi
    → lo < hi
    → ((narrow ts t lo hi).0 ≤ by t ts)
      × (by t ts ≤ (narrow ts t lo hi).1)
      × ((narrow ts t lo hi).1 - (narrow ts t lo hi).0 + 1 ≤ hi - lo)
narrowed v t lo hi ts a l h open_range = elim (Option-cases (time_at ((lo + hi) / 2) ts)) [
  | inl e ↦
      let short = past_the_end ((lo + hi) / 2) ts e in
      let few = length-filter-le (λ x. leb x t) ts in
      rw e (l, omega (arith, short, few), omega arith)
  | inr (x, e) ↦ elim (Bool-cases (leb x t)) [
    | inl k ↦ rw (e, k) (below v t ((lo + hi) / 2) ts a e (ground arith), h, omega arith)
    | inr k ↦ rw (e, k) (l, above v t ((lo + hi) / 2) ts a e (ground arith), omega arith)
  ]
]

found :
    (v t fuel lo hi : ℕ) (ts : List ℕ)
    → Ascending v ts
    → lo ≤ by t ts
    → by t ts ≤ hi
    → hi - lo ≤ fuel
    → search fuel ts t lo hi ≡ by t ts
unfolding search
found v t zero lo hi ts a l h enough = omega arith
found v t (suc fuel) lo hi ts a l h enough = elim (Bool-cases (ltb lo hi)) [
  | inl k ↦
      let (l', h', closer) = narrowed v t lo hi ts a l h (ground arith) in
      rw k (found v t fuel _ _ ts a l' h' (omega (arith, closer, enough)))
  | inr k ↦ rw k (ground arith)
]

-- In a timeline made of any steps, `countAt` counts exactly the steps whose time is `t` or earlier;
-- as many rounds of the search as there are steps are enough. The times of the timeline never go back.
pub count_at-counts :
    (ts : List ℕ) (range : Range) (t : ℕ)
    → (count_at (create ts range) t ≡ by t (create ts range).times)
      × Ascending 0 (create ts range).times
unfolding count_at create
count_at-counts ts range t =
    let a = clamp-Ascending 0 ts in
    let few = length-filter-le (λ x. leb x t) (clamp 0 ts) in
    (
      found 0 t (length (clamp 0 ts)) 0 (length (clamp 0 ts)) (clamp 0 ts) a (omega arith) few
          (omega arith),
      a,
    )
