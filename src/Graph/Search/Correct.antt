-- ===== src/Graph/Search/Correct.antt =====
-- What the work list has seen when it ends.
use whiteboard_ai.Base.{
  ℕ, zero, suc, ◌≡◌, ◌⊎◌, ◌↔◌, inl, inr, refl, ap, ◌∙◌, true, false, not, ◌&&◌, ◌||◌, List, [], ◌∷◌,
  ◌++◌, arith, includes, includes-append, List-cases, Bool-cases, ◌==◌, ==_iff, includes-reverse,
}
use whiteboard_ai.Graph.Search.{Search, push_new, scan, expand, search, begin_search}

seen-push_new :
    (s : Search) (w v : ℕ) → includes v (push_new s w).seen ≡ (includes v s.seen || w == v)
unfolding push_new
seen-push_new s w v =
    let last = includes-append v s.seen (w ∷ []) in
    elim (Bool-cases (w == v)) [
      | inl t ↦
          let same : w ≡ v = (==_iff _ _).0 t in
          let k : includes w s.seen ≡ includes v s.seen = ap (λ x. includes x s.seen) same in
          ground arith
      | inr f ↦ ground arith
    ]

pub seen-scan :
    (s : Search) (vs : List ℕ) (v : ℕ)
    → includes v (scan s vs).seen ≡ (includes v s.seen || includes v vs)
unfolding scan
seen-scan s [] v = ground arith
seen-scan s (w ∷ vs) v =
    let rest = seen-scan (push_new s w) vs v in let first = seen-push_new s w v in ground arith

stack-push_new :
    (s : Search) (w v : ℕ)
    → includes v (push_new s w).stack ≡ (includes v s.stack || w == v && not (includes v s.seen))
unfolding push_new
stack-push_new s w v = elim (Bool-cases (w == v)) [
  | inl t ↦
      let same : w ≡ v = (==_iff _ _).0 t in
      let k : includes w s.seen ≡ includes v s.seen = ap (λ x. includes x s.seen) same in
      ground arith
  | inr f ↦ ground arith
]

pub stack-scan :
    (s : Search) (vs : List ℕ) (v : ℕ)
    → includes v (scan s vs).stack
      ≡ (includes v s.stack || includes v vs && not (includes v s.seen))
unfolding scan
stack-scan s [] v = ground arith
stack-scan s (w ∷ vs) v =
    let rest = stack-scan (push_new s w) vs v in
    let first = stack-push_new s w v in let more = seen-push_new s w v in ground arith

taken-push_new : (s : Search) (w : ℕ) → (push_new s w).taken ≡ s.taken
unfolding push_new
taken-push_new s w = elim (Bool-cases (includes w s.seen)) [ inl t ↦ rw t refl | inr f ↦ rw f refl ]

pub taken-scan : (s : Search) (vs : List ℕ) → (scan s vs).taken ≡ s.taken
unfolding scan
taken-scan s [] = refl
taken-scan s (w ∷ vs) = taken-scan (push_new s w) vs ∙ taken-push_new s w

module _ (next : ℕ → List ℕ) where
  -- The walks along `next`.
  pub data Walk : ℕ → ℕ → Type 0 where
    here : {u : ℕ} → Walk u u
    step : {s u v : ℕ} → Walk s u → includes v (next u) ≡ true → Walk s v

-- `old` was seen before, and leads nowhere else; `starts` are new.
module _ (next : ℕ → List ℕ) (old starts : List ℕ)
    (shut : (u v : ℕ) → includes u old ≡ true → includes v (next u) ≡ true → includes v old ≡ true)
    (apart : (v : ℕ) → includes v old ≡ true → includes v starts ≡ false) where
  -- A walk leads from one of the starts to `v`.
  abbrev pub Found : ℕ → Type 0
  Found v = (s : ℕ) × (includes s starts ≡ true) × Walk next s v

  record Inv (s : Search) : Type 0 where
    sound : (v : ℕ) → includes v s.seen ≡ true → (includes v old ≡ true) ⊎ Found v
    began : (v : ℕ) → (includes v old || includes v starts) ≡ true → includes v s.seen ≡ true
    closed :
        (u v : ℕ)
        → includes u s.seen ≡ true
        → includes v (next u) ≡ true
        → (includes u s.stack ≡ true) ⊎ (includes v s.seen ≡ true)
    counted :
        (v : ℕ) → includes v s.seen ≡ (includes v old || includes v s.taken || includes v s.stack)
    fresh : (v : ℕ) → includes v old ≡ true → (includes v s.taken || includes v s.stack) ≡ false

  begin-Inv : Inv (begin_search old starts)
  begin-Inv = record {
    sound = λ v m.
        let both = includes-append v old starts in
        elim (Bool-cases (includes v old)) [ inl o ↦ inl o | inr n ↦ inr (v, ground arith, here) ];
    began = λ v m. includes-append v old starts ∙ m;
    closed = λ u v m edge.
        let both = includes-append u old starts in
        let both' = includes-append v old starts in
        let turned = includes-reverse u starts in
        elim (Bool-cases (includes u old)) [
          | inl o ↦ inr (let k = shut u v o edge in ground arith)
          | inr n ↦ inl (ground arith)
        ];
    counted = λ v.
        let both = includes-append v old starts in
        let turned = includes-reverse v starts in ground arith;
    fresh = λ v o. includes-reverse v starts ∙ apart v o;
  }

  module _ (s : Search) (u : ℕ) (rest : List ℕ) (e : s.stack ≡ u ∷ rest) (h : Inv s) where
    abbrev popped : Search
    popped = record s { stack = rest; taken = s.taken ++ u ∷ [] }

    on_stack : (v : ℕ) → includes v s.stack ≡ (u == v || includes v rest)
    on_stack v = ap (includes v) e

    was_seen : includes u s.seen ≡ true
    was_seen =
        let top = on_stack u in
        let all = h.counted u in let same : (u == u) ≡ true = (==_iff u u).1 refl in ground arith

    to_new : (v : ℕ) → includes v (next u) ≡ true → (includes v old ≡ true) ⊎ Found v
    to_new v edge = elim (h.sound u was_seen) [
      | inl o ↦ inl (shut u v o edge)
      | inr (x, m, walk) ↦ inr (x, m, step walk edge)
    ]

    next_closed :
        (x v : ℕ)
        → includes x (expand next s u rest).seen ≡ true
        → includes v (next x) ≡ true
        → (includes x (expand next s u rest).stack ≡ true)
          ⊎ (includes v (expand next s u rest).seen ≡ true)
    unfolding expand
    next_closed x v m edge =
        let now = seen-scan popped (next u) v in
        let a = seen-scan popped (next u) x in
        let b = stack-scan popped (next u) x in
        elim (Bool-cases (u == x)) [
          | inl t ↦
              let same : u ≡ x = (==_iff _ _).0 t in
              let k = ap (λ y. includes v (next y)) same in inr (ground arith)
          | inr n ↦ elim (Bool-cases (includes x s.seen)) [
            | inl o ↦ elim (h.closed x v o edge) [
              | inl on ↦ inl (let top = on_stack x in ground arith)
              | inr k ↦ inr (ground arith)
            ]
            | inr f ↦ inl (ground arith)
          ]
        ]

    expand-Inv : Inv (expand next s u rest)
    unfolding expand
    expand-Inv = record {
      sound = λ v m. elim (Bool-cases (includes v s.seen)) [
        | inl k ↦ h.sound v k
        | inr k ↦ to_new v (let b = seen-scan popped (next u) v in ground arith)
      ];
      began = λ v m. let a = h.began v m in let b = seen-scan popped (next u) v in ground arith;
      closed = next_closed;
      counted = λ v.
          let a = h.counted v in
          let top = on_stack v in
          let b = seen-scan popped (next u) v in
          let c = stack-scan popped (next u) v in
          let d = ap (includes v) (taken-scan popped (next u)) in
          let last = includes-append v s.taken (u ∷ []) in ground arith;
      fresh = λ v o.
          let a = h.fresh v o in
          let k = h.began v (ground arith) in
          let top = on_stack v in
          let c = stack-scan popped (next u) v in
          let d = ap (includes v) (taken-scan popped (next u)) in
          let last = includes-append v s.taken (u ∷ []) in ground arith;
    }

  search-Inv : (fuel : ℕ) (s : Search) → Inv s → Inv (search next fuel s)
  unfolding search
  search-Inv zero s h = h
  search-Inv (suc fuel) s h = elim (List-cases s.stack) [
    | inl k ↦ rw (k, search) h
    | inr (u, rest, k) ↦
        rw (k, search) (search-Inv fuel (expand next s u rest) (expand-Inv s u rest k h))
  ]

  -- Once the stack is empty, everything a walk leads to was seen.
  walked :
      (s : Search)
      → Inv s
      → s.stack ≡ []
      → {a v : ℕ} → Walk next a v
      → includes a s.seen ≡ true
      → includes v s.seen ≡ true
  walked s h e here m = m
  walked s h e (step {u = u} {v = v} walk edge) m = elim (h.closed u v (walked s h e walk m) edge) [
    | inl on ↦ absurd (let k = ap (includes u) e in ground arith)
    | inr k ↦ k
  ]

  pub search_lem :
      (fuel v : ℕ)
      → (search next fuel (begin_search old starts)).stack ≡ []
      → includes v (search next fuel (begin_search old starts)).seen ≡ true
        ↔ ((includes v old ≡ true) ⊎ Found v)
  search_lem fuel v e =
      let h = search-Inv fuel (begin_search old starts) begin-Inv in
      (
        λ m. h.sound v m,
        λ k. elim k [
          | inl o ↦ h.began v (ground arith)
          | inr (a, m, walk) ↦
              walked (search next fuel (begin_search old starts)) h e walk
                (h.began a (ground arith))
        ],
      )

  pub taken_lem :
      (fuel v : ℕ)
      → (search next fuel (begin_search old starts)).stack ≡ []
      → includes v (search next fuel (begin_search old starts)).seen
        ≡ (includes v old || includes v (search next fuel (begin_search old starts)).taken)
  taken_lem fuel v e =
      let h = (search-Inv fuel (begin_search old starts) begin-Inv).counted v in
      let k = ap (includes v) e in ground arith

  pub seen-Shut :
      (fuel u v : ℕ)
      → (search next fuel (begin_search old starts)).stack ≡ []
      → includes u (search next fuel (begin_search old starts)).seen ≡ true
      → includes v (next u) ≡ true
      → includes v (search next fuel (begin_search old starts)).seen ≡ true
  seen-Shut fuel u v e m edge =
      walked (search next fuel (begin_search old starts))
        (search-Inv fuel (begin_search old starts) begin-Inv) e (step here edge) m

  pub taken_sound :
      (fuel v : ℕ)
      → includes v (search next fuel (begin_search old starts)).taken ≡ true
      → (includes v old ≡ true) ⊎ Found v
  taken_sound fuel v m =
      let h = search-Inv fuel (begin_search old starts) begin-Inv in
      h.sound v (let k = h.counted v in ground arith)

  pub taken-fresh :
      (fuel v : ℕ)
      → includes v (search next fuel (begin_search old starts)).taken ≡ true
      → includes v old ≡ false
  taken-fresh fuel v m = elim (Bool-cases (includes v old)) [
    | inl o ↦
        let h = (search-Inv fuel (begin_search old starts) begin-Inv).fresh v o in
        absurd (ground arith)
    | inr n ↦ n
  ]
