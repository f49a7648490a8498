-- ===== src/MemoryRepository/Numbered.antt =====
-- The seqs of stored updates: they are filtered, split and sorted by them.
use whiteboard_ai.Base.{
  ℕ, zero, suc, ◌+◌, ◌≤◌, ◌<◌, ◌≡◌, ◌⊎◌, inl, inr, refl, ap, ◌∙◌, true, false, none, some, List, [],
  ◌∷◌, ◌++◌, map, filter, length, take, drop, arith, ltb, leb, sort,
}
use whiteboard_ai.RoomPersistence.{NewUpdate}
use whiteboard_ai.MemoryRepository.{StoredUpdate, stored_at, numbered, last_of}

pub numbered-append :
    (a : ℕ) (xs ys : List (NewUpdate ℕ))
    → numbered a (xs ++ ys) ≡ numbered a xs ++ numbered (a + length xs) ys
unfolding numbered
numbered-append a [] ys = let e : a ≡ a + 0 = omega arith in ap (λ b. numbered b ys) e
numbered-append a (x ∷ xs) ys =
    let e : suc a + length xs ≡ a + suc (length xs) = omega arith in
    ap (◌∷◌ (stored_at a x))
      (numbered-append (suc a) xs ys ∙ ap (λ b. numbered (suc a) xs ++ numbered b ys) e)

pub map-numbered :
    (a : ℕ) (xs : List (NewUpdate ℕ)) → map (λ u. u.update) (numbered a xs) ≡ map (λ u. u.update) xs
unfolding numbered
map-numbered a [] = refl
map-numbered a (x ∷ xs) = ap (◌∷◌ x.update) (map-numbered (suc a) xs)

pub length-numbered : (a : ℕ) (xs : List (NewUpdate ℕ)) → length (numbered a xs) ≡ length xs
unfolding numbered
length-numbered a [] = refl
length-numbered a (x ∷ xs) = ap suc (length-numbered (suc a) xs)

none_low :
    (m a : ℕ) (xs : List (NewUpdate ℕ)) → m < a → filter (λ u. leb u.seq m) (numbered a xs) ≡ []
unfolding numbered
none_low m a [] h = refl
none_low m a (x ∷ xs) h =
    let above : leb a m ≡ false = ground arith in
    let rest = none_low m (suc a) xs (omega (arith, h)) in rw above rest

all_high :
    (m a : ℕ) (xs : List (NewUpdate ℕ))
    → m < a
    → filter (λ u. ltb m u.seq) (numbered a xs) ≡ numbered a xs
unfolding numbered
all_high m a [] h = refl
all_high m a (x ∷ xs) h =
    let above : ltb m a ≡ true = ground arith in
    let rest = all_high m (suc a) xs (omega (arith, h)) in rw above (ap (◌∷◌ (stored_at a x)) rest)

-- The updates up to a seq.
pub numbered-low :
    (n m a : ℕ) (xs : List (NewUpdate ℕ))
    → suc m ≡ a + n
    → filter (λ u. leb u.seq m) (numbered a xs) ≡ numbered a (take n xs)
unfolding numbered
numbered-low zero m a xs e = none_low m a xs (omega (arith, e))
numbered-low (suc n) m a [] e = refl
numbered-low (suc n) m a (x ∷ xs) e =
    let below : leb a m ≡ true = ground arith in
    let rest = numbered-low n m (suc a) xs (omega (arith, e)) in
    rw below (ap (◌∷◌ (stored_at a x)) rest)

-- The updates above a seq.
pub numbered-high :
    (n m a : ℕ) (xs : List (NewUpdate ℕ))
    → suc m ≡ a + n
    → filter (λ u. ltb m u.seq) (numbered a xs) ≡ numbered (suc m) (drop n xs)
unfolding numbered
numbered-high zero m a xs e =
    let same : a ≡ suc m = omega (arith, e) in
    all_high m a xs (omega (arith, e)) ∙ ap (λ b. numbered b xs) same
numbered-high (suc n) m a [] e = refl
numbered-high (suc n) m a (x ∷ xs) e =
    let below : ltb m a ≡ false = ground arith in
    rw below (numbered-high n m (suc a) xs (omega (arith, e)))

-- They are sorted already.
pub sort-numbered :
    (a : ℕ) (xs : List (NewUpdate ℕ))
    → sort (λ u v. ltb u.seq v.seq) (numbered a xs) ≡ numbered a xs
unfolding numbered
sort-numbered a [] = refl
sort-numbered a (x ∷ []) = refl
sort-numbered a (x ∷ y ∷ xs) =
    let rest = sort-numbered (suc a) (y ∷ xs) in
    let later : ltb (suc a) a ≡ false = ground arith in rw rest (rw later refl)

-- The last seq.
pub last-numbered :
    (a : ℕ) (xs : List (NewUpdate ℕ))
    → (last_of (numbered a xs) ≡ none) × (xs ≡ [])
      ⊎ ((u : StoredUpdate) × (last_of (numbered a xs) ≡ some u)
          × (a ≤ u.seq)
          × (u.seq + 1 ≡ a + length xs))
unfolding numbered
last-numbered a [] = inl (refl, refl)
last-numbered a (x ∷ []) = inr (_, refl, omega arith, omega arith)
last-numbered a (x ∷ y ∷ xs) = elim (last-numbered (suc a) (y ∷ xs)) [
  | inl (e, k) ↦ absurd cc
  | inr (u, e, l, k) ↦ inr (u, e, omega (arith, l), omega (arith, k))
]

pub last-push {ℓ} : {A : Type ℓ} (xs : List A) (x : A) → last_of (xs ++ x ∷ []) ≡ some x
last-push [] x = refl
last-push (y ∷ []) x = refl
last-push (y ∷ z ∷ xs) x = last-push (z ∷ xs) x

-- What was taken stays when more is added, and what was dropped grows.
pub take-more :
    {A : Type 0} (k : ℕ) (xs ys : List A) → k ≤ length xs → take k (xs ++ ys) ≡ take k xs
take-more zero xs ys h = refl
take-more (suc k) [] ys h = absurd (omega (arith, h))
take-more (suc k) (x ∷ xs) ys h = ap (◌∷◌ x) (take-more k xs ys (omega (arith, h)))

pub drop-more :
    {A : Type 0} (k : ℕ) (xs ys : List A) → k ≤ length xs → drop k (xs ++ ys) ≡ drop k xs ++ ys
drop-more zero xs ys h = refl
drop-more (suc k) [] ys h = absurd (omega (arith, h))
drop-more (suc k) (x ∷ xs) ys h = drop-more k xs ys (omega (arith, h))

pub length-drop :
    {A : Type 0} (k : ℕ) (xs : List A) → k ≤ length xs → k + length (drop k xs) ≡ length xs
length-drop zero xs h = omega arith
length-drop (suc k) [] h = absurd (omega (arith, h))
length-drop (suc k) (x ∷ xs) h = omega (arith, length-drop k xs (omega (arith, h)))

pub length-take : {A : Type 0} (k : ℕ) (xs : List A) → k ≤ length xs → length (take k xs) ≡ k
length-take zero xs h = refl
length-take (suc k) [] h = absurd (omega (arith, h))
length-take (suc k) (x ∷ xs) h = ap suc (length-take k xs (omega (arith, h)))

pub take-split :
    {A : Type 0} (k n t : ℕ) (xs : List A) → t ≡ k + n → take k xs ++ take n (drop k xs) ≡ take t xs
take-split zero n t xs e = let same : n ≡ t = omega (arith, e) in ap (λ m. take m xs) same
take-split (suc k) n zero xs e = absurd (omega (arith, e))
take-split (suc k) zero (suc t) [] e = refl
take-split (suc k) (suc n) (suc t) [] e = refl
take-split (suc k) n (suc t) (x ∷ xs) e = ap (◌∷◌ x) (take-split k n t xs (omega (arith, e)))

pub drop-drop : {A : Type 0} (k n t : ℕ) (xs : List A) → t ≡ k + n → drop n (drop k xs) ≡ drop t xs
drop-drop zero n t xs e = let same : n ≡ t = omega (arith, e) in ap (λ m. drop m xs) same
drop-drop (suc k) n zero xs e = absurd (omega (arith, e))
drop-drop (suc k) zero (suc t) [] e = refl
drop-drop (suc k) (suc n) (suc t) [] e = refl
drop-drop (suc k) n (suc t) (x ∷ xs) e = drop-drop k n t xs (omega (arith, e))

pub take-all : {A : Type 0} (xs : List A) → take (length xs) xs ≡ xs
take-all [] = refl
take-all (x ∷ xs) = ap (◌∷◌ x) (take-all xs)
