-- ===== src/Graph/Rule/Stable.antt =====
-- A finding's id depends on the set of its shapes only.
use whiteboard_ai.Base.{
  ℕ, ◌<◌, ◌≡◌, inl, inr, refl, sym, ap, ◌∙◌, true, false, ◌||◌, List, [], ◌∷◌, ◌++◌, arith,
  includes, includes-append, Bool-cases, All, All-map, insert, sort, ltb, ltb→lt, ◌==◌, ==_iff,
}
use whiteboard_ai.Graph.{Severity, Texts}
use whiteboard_ai.Graph.Rule.{unique_after, make_finding}

abbrev pub IsDistinct : List ℕ → Type 0
IsDistinct [] = Unit
IsDistinct (x ∷ xs) = (includes x xs ≡ false) × IsDistinct xs

IsDistinct-push :
    (xs : List ℕ) (v : ℕ) → IsDistinct xs → includes v xs ≡ false → IsDistinct (xs ++ v ∷ [])
IsDistinct-push [] v h n = (refl, tt)
IsDistinct-push (x ∷ xs) v h n =
    let last = includes-append x xs (v ∷ []) in
    (let a = h.0 in ground arith, IsDistinct-push xs v h.1 (ground arith))

pub includes-unique_after :
    (seen xs : List ℕ) (v : ℕ)
    → includes v (unique_after seen xs) ≡ (includes v seen || includes v xs)
unfolding unique_after
includes-unique_after seen [] v = ground arith
includes-unique_after seen (x ∷ xs) v = elim (Bool-cases (includes x seen)) [
  | inl t ↦
      let rest = includes-unique_after seen xs v in
      elim (Bool-cases (x == v)) [
        | inl q ↦
            let k = ap (λ y. includes y seen) ((==_iff x v).0 q) in
            rw (t, unique_after) (ground arith)
        | inr q ↦ rw (t, unique_after) (ground arith)
      ]
  | inr f ↦
      let rest = includes-unique_after (seen ++ x ∷ []) xs v in
      let last = includes-append v seen (x ∷ []) in rw (f, unique_after) (ground arith)
]

unique_after-IsDistinct : (seen xs : List ℕ) → IsDistinct seen → IsDistinct (unique_after seen xs)
unfolding unique_after
unique_after-IsDistinct seen [] h = h
unique_after-IsDistinct seen (x ∷ xs) h = elim (Bool-cases (includes x seen)) [
  | inl t ↦ rw (t, unique_after) (unique_after-IsDistinct seen xs h)
  | inr f ↦
      rw (f, unique_after)
        (unique_after-IsDistinct (seen ++ x ∷ []) xs (IsDistinct-push seen x h f))
]

includes-insert : (v x : ℕ) (xs : List ℕ) → includes v (insert ltb x xs) ≡ (x == v || includes v xs)
includes-insert v x [] = refl
includes-insert v x (y ∷ ys) =
    let rest = includes-insert v x ys in
    elim (Bool-cases (ltb y x)) [ inl t ↦ rw t (ground arith) | inr f ↦ rw f (ground arith) ]

includes-sort : (v : ℕ) (xs : List ℕ) → includes v (sort ltb xs) ≡ includes v xs
includes-sort v [] = refl
includes-sort v (x ∷ xs) =
    let rest = includes-sort v xs in let top = includes-insert v x (sort ltb xs) in ground arith

abbrev IsIncreasing : List ℕ → Type 0
IsIncreasing [] = Unit
IsIncreasing (x ∷ xs) = All (λ y. x < y) xs × IsIncreasing xs

All-insert_lt :
    (b x : ℕ) (xs : List ℕ) → b < x → All (λ y. b < y) xs → All (λ y. b < y) (insert ltb x xs)
All-insert_lt b x [] l h = (l, tt)
All-insert_lt b x (y ∷ ys) l h = elim (Bool-cases (ltb y x)) [
  | inl t ↦ rw t (h.0, All-insert_lt b x ys l h.1)
  | inr f ↦ rw f (l, h)
]

insert-IsIncreasing :
    (x : ℕ) (xs : List ℕ) → includes x xs ≡ false → IsIncreasing xs → IsIncreasing (insert ltb x xs)
insert-IsIncreasing x [] n h = (tt, tt)
insert-IsIncreasing x (y ∷ ys) n h = elim (Bool-cases (ltb y x)) [
  | inl t ↦
      rw t (All-insert_lt y x ys (ltb→lt y x t) h.0, insert-IsIncreasing x ys (ground arith) h.1)
  | inr f ↦
      let less : x < y = ground arith in
      rw f ((less, All-map _ _ ys (λ a l. omega (arith, less, l)) h.0), h)
]

sort-IsIncreasing : (xs : List ℕ) → IsDistinct xs → IsIncreasing (sort ltb xs)
sort-IsIncreasing [] h = tt
sort-IsIncreasing (x ∷ xs) h =
    insert-IsIncreasing x (sort ltb xs) (includes-sort x xs ∙ h.0) (sort-IsIncreasing xs h.1)

above : (v x : ℕ) (xs : List ℕ) → All (λ y. x < y) xs → includes v xs ≡ true → x < v
above v x [] h m = absurd (ground arith)
above v x (y ∷ ys) h m = elim (Bool-cases (y == v)) [
  | inl t ↦ let same = (==_iff y v).0 t in omega (arith, h.0, same)
  | inr f ↦ above v x ys h.1 (ground arith)
]

absent : (v x : ℕ) (xs : List ℕ) → All (λ y. x < y) xs → x ≡ v → includes v xs ≡ false
absent v x xs h e = elim (Bool-cases (includes v xs)) [
  | inl t ↦ absurd (omega (arith, above v x xs h t, e))
  | inr f ↦ f
]

same_head :
    (x y : ℕ) (xs ys : List ℕ)
    → All (λ a. x < a) xs
    → All (λ a. y < a) ys
    → includes x (x ∷ xs) ≡ includes x (y ∷ ys)
    → includes y (x ∷ xs) ≡ includes y (y ∷ ys)
    → x ≡ y
same_head x y xs ys h k a b = elim (Bool-cases (x == y)) [
  | inl t ↦ (==_iff x y).0 t
  | inr f ↦
      let self = (==_iff x x).1 refl in
      let own = (==_iff y y).1 refl in
      let flip : (y == x) ≡ false = ground arith in
      absurd (omega (arith, above x y ys k (ground arith), above y x xs h (ground arith)))
]

same_tail :
    (x y : ℕ) (xs ys : List ℕ)
    → All (λ a. x < a) xs
    → All (λ a. y < a) ys
    → (v : ℕ) → x ≡ y
    → includes v (x ∷ xs) ≡ includes v (y ∷ ys)
    → includes v xs ≡ includes v ys
same_tail x y xs ys h k v e a = elim (Bool-cases (x == v)) [
  | inl t ↦ let at = (==_iff x v).0 t in absent v x xs h at ∙ sym (absent v y ys k (sym e ∙ at))
  | inr f ↦ let same = ap (λ z. z == v) e in ground arith
]

-- An increasing list is determined by its members.
increasing_unique :
    (xs ys : List ℕ)
    → IsIncreasing xs
    → IsIncreasing ys
    → ((v : ℕ) → includes v xs ≡ includes v ys)
    → xs ≡ ys
increasing_unique [] [] h k e = refl
increasing_unique [] (y ∷ ys) h k e =
    absurd (let a = e y in let b = (==_iff y y).1 refl in ground arith)
increasing_unique (x ∷ xs) [] h k e =
    absurd (let a = e x in let b = (==_iff x x).1 refl in ground arith)
increasing_unique (x ∷ xs) (y ∷ ys) h k e =
    let head : x ≡ y = same_head x y xs ys h.0 k.0 (e x) (e y) in
    let tail : xs ≡ ys =
      increasing_unique xs ys h.1 k.1 (λ v. same_tail x y xs ys h.0 k.0 v head (e v)) in
    cc

-- A finding's id is stable: it is the same for the same shapes, in whatever order and however often
-- they are named, and whatever the severity.
pub finding_id_stable :
    (texts : Texts) (rule : ℕ) (s t : Severity) (xs ys : List ℕ)
    → ((v : ℕ) → includes v xs ≡ includes v ys)
    → (make_finding texts rule s xs).id ≡ (make_finding texts rule t ys).id
unfolding make_finding
finding_id_stable texts rule s t xs ys e = ap (texts.finding_id rule) (
    increasing_unique _ _ (sort-IsIncreasing _ (unique_after-IsDistinct [] xs tt))
      (sort-IsIncreasing _ (unique_after-IsDistinct [] ys tt))
      (λ v.
        includes-sort v _
        ∙ includes-unique_after [] xs v
        ∙ e v
        ∙ sym (includes-unique_after [] ys v)
        ∙ sym (includes-sort v _)))
