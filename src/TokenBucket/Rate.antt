-- ===== src/TokenBucket/Rate.antt =====
-- How much the bucket of apps/server/src/sync/rateLimit.ts lets through.
use whiteboard_ai.Base.{
  ℕ, ◌+◌, ◌-◌, ◌*◌, ◌≤◌, ◌≡◌, refl, sym, ap, subst, ◌∙◌, inl, inr, List, [], ◌∷◌, arith, ltb,
  Bool-cases, if◌then◌else◌,
}
use whiteboard_ai.TokenBucket.{TokenBucket, create, refilled, take_tokens}

-- The amounts that are let through, of calls at an instant each.
unfoldable pub granted : List (ℕ × ℕ) → TokenBucket → ℕ
granted [] b = 0
granted ((now, amount) ∷ calls) b =
    let (b', ok) = take_tokens now amount b in (if ok then amount else 0) + granted calls b'

-- The instant of the last call, and a clock that never goes back.
abbrev pub last_call : ℕ → List (ℕ × ℕ) → ℕ
last_call start [] = start
last_call start ((now, _) ∷ calls) = last_call now calls

abbrev pub Ascending : ℕ → List (ℕ × ℕ) → Type 0
Ascending start [] = Unit
Ascending start ((now, _) ∷ calls) = (start ≤ now) × Ascending now calls

last-le : (start : ℕ) (calls : List (ℕ × ℕ)) → Ascending start calls → start ≤ last_call start calls
last-le start [] a = omega arith
last-le start ((now, _) ∷ calls) a = omega (arith, a.0, last-le now calls a.1)

times_sum : (a b r : ℕ) → (a + b) * r ≡ a * r + b * r
times_sum a b r = omega arith

split_time :
    (r start now stop : ℕ)
    → start ≤ now
    → now ≤ stop
    → (now - start) * r + (stop - now) * r ≡ (stop - start) * r
split_time r start now stop h k =
    let parts : stop - start ≡ (now - start) + (stop - now) = omega arith in
    sym (ap (λ x. x * r) parts ∙ times_sum (now - start) (stop - now) r)

granted_from :
    (calls : List (ℕ × ℕ)) (b : TokenBucket)
    → Ascending b.last calls
    → granted calls b * 1000 ≤ b.tokens + (last_call b.last calls - b.last) * b.refill_per_second
unfolding granted take_tokens
granted_from [] b a = omega arith
granted_from ((now, amount) ∷ calls) b a =
    let time =
      split_time b.refill_per_second b.last now (last_call now calls) a.0 (last-le now calls a.1) in
    elim (Bool-cases (ltb (refilled now b).tokens (amount * 1000))) [
      | inl k ↦
          let rest = granted_from calls (refilled now b) a.1 in rw k (omega (arith, rest, time))
      | inr k ↦
          let rest =
            granted_from calls
              (record (refilled now b) { tokens = (refilled now b).tokens - amount * 1000 }) a.1 in
          let enough : amount * 1000 ≤ (refilled now b).tokens = ground arith in
          rw k (omega (arith, rest, time, enough))
    ]

-- The first call fills the bucket to its capacity at most, whatever was left before.
first_call :
    (b : TokenBucket) (now amount : ℕ) (calls : List (ℕ × ℕ))
    → Ascending now calls
    → granted ((now, amount) ∷ calls) b * 1000
      ≤ b.capacity * 1000 + (last_call now calls - now) * b.refill_per_second
unfolding granted take_tokens
first_call b now amount calls a = elim (Bool-cases (ltb (refilled now b).tokens (amount * 1000))) [
  | inl k ↦ let rest = granted_from calls (refilled now b) a in rw k (omega (arith, rest))
  | inr k ↦
      let rest =
        granted_from calls
          (record (refilled now b) { tokens = (refilled now b).tokens - amount * 1000 }) a in
      let enough : amount * 1000 ≤ (refilled now b).tokens = ground arith in
      rw k (omega (arith, rest, enough))
]

-- The bucket after some calls.
unfoldable pub after_calls : List (ℕ × ℕ) → TokenBucket → TokenBucket
after_calls [] b = b
after_calls ((now, amount) ∷ calls) b = after_calls calls (take_tokens now amount b).0

after_calls-keeps :
    (calls : List (ℕ × ℕ)) (b : TokenBucket)
    → ((after_calls calls b).capacity ≡ b.capacity)
      × ((after_calls calls b).refill_per_second ≡ b.refill_per_second)
unfolding after_calls take_tokens
after_calls-keeps [] b = (refl, refl)
after_calls-keeps ((now, amount) ∷ calls) b =
    elim (Bool-cases (ltb (refilled now b).tokens (amount * 1000))) [
      | inl k ↦ rw (k, after_calls) (after_calls-keeps calls (refilled now b))
      | inr k ↦
          rw (k, after_calls)
            (after_calls-keeps calls
              (record (refilled now b) { tokens = (refilled now b).tokens - amount * 1000 }))
    ]

-- Of a bucket that had any calls before, also after a long pause, the calls from any one on get
-- together no more than the capacity and what is refilled from that call to the last: a thousandth of
-- the rate each millisecond. From that call on the clock does not go back.
pub granted_within_rate :
    (capacity rate start now amount : ℕ) (earlier calls : List (ℕ × ℕ))
    → Ascending now calls
    → granted ((now, amount) ∷ calls) (after_calls earlier (create capacity rate start)) * 1000
      ≤ capacity * 1000 + (last_call now calls - now) * rate
granted_within_rate capacity rate start now amount earlier calls a =
    let b = after_calls earlier (create capacity rate start) in
    let (c, r) = after_calls-keeps earlier (create capacity rate start) in
    subst
      (λ k.
        granted ((now, amount) ∷ calls) b * 1000 ≤ k * 1000 + (last_call now calls - now) * rate)
      c
      (subst
        (λ k.
          granted ((now, amount) ∷ calls) b * 1000
          ≤ b.capacity * 1000 + (last_call now calls - now) * k)
        r (first_call b now amount calls a))
