-- ===== src/RoomPersistence/Served.antt =====
-- What wakes the queue of apps/server/src/sync/roomPersistence.ts up: a timer, or a flush in the chain.
use whiteboard_ai.Base.{
  ℕ, ◌≡◌, refl, inl, inr, Bool, true, false, ◌&&◌, ◌||◌, not, Option, none, some, List, [], ◌∷◌,
  ◌++◌, arith, any, is_empty, is_none, leb, Bool-cases,
}
use whiteboard_ai.RoomPersistence.{
  RoomPersistence, NewUpdate, Task, Running, appending, catching_up, flush_task, last_flush_task,
  compact_task, catch_up_task, arm,
}

abbrev pub is_flush : Task → Bool
is_flush flush_task = true
is_flush last_flush_task = true
is_flush _ = false

abbrev pub is_catch_up : Task → Bool
is_catch_up catch_up_task = true
is_catch_up _ = false

-- A flush is to come.
abbrev pub armed : Option ℕ → List Task → Bool
armed timer chain = not (is_none timer) || any is_flush chain

-- After each catch-up of the chain a flush is to come.
abbrev pub followed : Option ℕ → List Task → Bool
followed timer [] = true
followed timer (t ∷ ts) = (not (is_catch_up t) || armed timer ts) && followed timer ts

followed-some : (d : ℕ) (c : List Task) → followed (some d) c ≡ true
followed-some d [] = refl
followed-some d (t ∷ ts) = rw (followed-some d ts) (ground arith)

pub any-append :
    (c : List Task) (t : Task) → any is_flush (c ++ t ∷ []) ≡ (any is_flush c || is_flush t)
any-append [] t = ground arith
any-append (x ∷ c) t = let rest = any-append c t in ground arith

followed-flush :
    (timer : Option ℕ) (c : List Task) (t : Task)
    → is_flush t ≡ true
    → followed timer (c ++ t ∷ []) ≡ true
followed-flush timer [] t h = ground arith
followed-flush timer (x ∷ c) t h =
    let rest = followed-flush timer c t h in let flushes = any-append c t in ground arith

followed-compact :
    (timer : Option ℕ) (c : List Task)
    → followed timer c ≡ true
    → followed timer (c ++ compact_task ∷ []) ≡ true
followed-compact timer [] h = refl
followed-compact timer (x ∷ c) h =
    let flushes = any-append c compact_task in
    let rest : followed timer c ≡ true → followed timer (c ++ compact_task ∷ []) ≡ true =
      followed-compact timer c in
    ground arith

arm-some : (d : ℕ) (timer : Option ℕ) → (n : ℕ) × (arm false d timer ≡ some n)
unfolding arm
arm-some d none = (d, ground arith)
arm-some d (some n) = elim (Bool-cases (leb 1 d)) [
  | inl t ↦ (n, ground arith)
  | inr f ↦ (d, ground arith)
]

module _ {B M : Type 0} where
  abbrev pub is_appending : Running B M → Bool
  is_appending (appending batch cut last) = true
  is_appending _ = false

  abbrev pub is_catching_up : Running B M → Bool
  is_catching_up catching_up = true
  is_catching_up _ = false

  -- A flush is to come after each catch-up, and for what is pending unless a batch is on its way.
  abbrev pub work : Option ℕ → Running B M → List Task → List (NewUpdate B) → Bool
  work timer running chain pending =
      followed timer chain
      && (not (is_catching_up running) || armed timer chain)
      && (is_empty pending || is_appending running || armed timer chain)

  pub record Served (s : RoomPersistence B M) : Type 0 where
    pub alive : s.active ≡ true → s.disposed ≡ false
    pub works : s.active ≡ true → s.closed ≡ false → work s.timer s.running s.chain s.pending ≡ true

  pub work-some :
      (d : ℕ) (r : Running B M) (c : List Task) (p : List (NewUpdate B))
      → work (some d) r c p ≡ true
  work-some d r c p = rw (followed-some d c) (ground arith)

  pub work-flush :
      (timer : Option ℕ) (r : Running B M) (c : List Task) (t : Task) (p : List (NewUpdate B))
      → is_flush t ≡ true
      → work timer r (c ++ t ∷ []) p ≡ true
  work-flush timer r c t p h =
      let a = followed-flush timer c t h in let b = any-append c t in ground arith

  pub work-compact :
      (timer : Option ℕ) (r : Running B M) (c : List Task) (p : List (NewUpdate B))
      → work timer r c p ≡ true
      → work timer r (c ++ compact_task ∷ []) p ≡ true
  work-compact timer r c p h =
      let flushes = any-append c compact_task in
      let rest : followed timer c ≡ true → followed timer (c ++ compact_task ∷ []) ≡ true =
        followed-compact timer c in
      ground arith

  pub work-arm :
      (closed : Bool) (d : ℕ) (timer : Option ℕ) (r : Running B M) (c : List Task)
      (p : List (NewUpdate B))
      → closed ≡ false
      → work (arm closed d timer) r c p ≡ true
  work-arm closed d timer r c p e = let (n, k) = arm-some d timer in rw (e, k) (work-some n r c p)
