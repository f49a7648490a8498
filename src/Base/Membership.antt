-- ===== src/Base/Membership.antt =====
-- Membership in a list of numbers as a test, and JavaScript's methods on such lists.
use Prim.Native.Nat.{ℕ, ◌+◌, ◌≤◌}
use mathlib.Core.Path.{◌≡◌, refl, sym, ap, subst}
use mathlib.Core.Logic.{◌↔◌, ◌⊎◌, inl, inr}
use mathlib.Core.Bool.{Bool, true, false, not, ◌&&◌, ◌||◌}
use mathlib.Core.List.{List, [], ◌∷◌, ◌++◌, map, Memᴰ}
use mathlib.Core.List.Memᴰ
use native.Mathlib.Omega.{arith}
use whiteboard_ai.Base.Tests.{if◌then◌else◌, ◌==◌, Bool-cases, ==_iff}
use whiteboard_ai.Base.Lists.{any, is_empty, filter, length, length-append}

-- `xs.includes(v)`, and `has` of a set whose members are `xs`
abbrev pub includes : ℕ → List ℕ → Bool
includes v xs = any (λ x. x == v) xs

pub includes-append :
    (v : ℕ) (xs ys : List ℕ) → includes v (xs ++ ys) ≡ (includes v xs || includes v ys)
includes-append v [] ys = ground arith
includes-append v (x ∷ xs) ys = let rest = includes-append v xs ys in ground arith

-- `xs.reverse()`
abbrev pub reverse {ℓ} : {A : Type ℓ} → List A → List A
reverse [] = []
reverse (x ∷ xs) = reverse xs ++ x ∷ []

pub includes-reverse : (v : ℕ) (xs : List ℕ) → includes v (reverse xs) ≡ includes v xs
includes-reverse v [] = refl
includes-reverse v (x ∷ xs) =
    let last = includes-append v (reverse xs) (x ∷ []) in
    let rest = includes-reverse v xs in ground arith

pub length-reverse {ℓ} : {A : Type ℓ} (xs : List A) → length (reverse xs) ≡ length xs
length-reverse [] = refl
length-reverse (x ∷ xs) = omega (arith, length-append (reverse xs) (x ∷ []), length-reverse xs)

pub List-cases {ℓ} :
    {A : Type ℓ} (xs : List A) → (xs ≡ []) ⊎ ((x : A) × (rest : List A) × (xs ≡ x ∷ rest))
List-cases [] = inl refl
List-cases (x ∷ rest) = inr (x, rest, refl)

-- How many of `us` are not among `seen`.
abbrev pub unseen : List ℕ → List ℕ → ℕ
unseen [] seen = 0
unseen (u ∷ us) seen = (if includes u seen then 0 else 1) + unseen us seen

pub unseen-push_le : (us seen : List ℕ) (v : ℕ) → unseen us (seen ++ v ∷ []) ≤ unseen us seen
unseen-push_le [] seen v = omega arith
unseen-push_le (u ∷ us) seen v =
    let rest = unseen-push_le us seen v in
    let more = includes-append u seen (v ∷ []) in ground arith

pub unseen-push :
    (us seen : List ℕ) (v : ℕ)
    → includes v us ≡ true
    → includes v seen ≡ false
    → unseen us (seen ++ v ∷ []) + 1 ≤ unseen us seen
unseen-push [] seen v m f = absurd (ground arith)
unseen-push (u ∷ us) seen v m f = elim (Bool-cases (u == v)) [
  | inl t ↦
      let same : u ≡ v = (==_iff _ _).0 t in
      let rest = unseen-push_le us seen v in
      let more = includes-append u seen (v ∷ []) in ground arith
  | inr n ↦
      let rest = unseen-push us seen v (ground arith) f in
      let more = includes-append u seen (v ∷ []) in ground arith
]

pub unseen-le : (us seen : List ℕ) → unseen us seen ≤ length us
unseen-le [] seen = omega arith
unseen-le (u ∷ us) seen = let rest = unseen-le us seen in ground arith

pub includes-map {ℓ} :
    {A : Type ℓ} (f : A → ℕ) (a : A) (xs : List A) → Memᴰ a xs → includes (f a) (map f xs) ≡ true
includes-map f a [] m = elim m [ ]
includes-map f a (x ∷ xs) (Memᴰ.head e) =
    let same : f x ≡ f a = ap f (sym e) in let k = (==_iff (f x) (f a)).1 same in ground arith
includes-map f a (x ∷ xs) (Memᴰ.tail m) = let rest = includes-map f a xs m in ground arith

pub mapped {ℓ} :
    {A : Type ℓ} (f : A → ℕ) (v : ℕ) (xs : List A)
    → includes v (map f xs) ≡ true
    → (a : A) × Memᴰ a xs × (f a ≡ v)
mapped f v [] m = absurd (ground arith)
mapped f v (x ∷ xs) m = elim (Bool-cases (f x == v)) [
  | inl t ↦ (x, Memᴰ.head refl, (==_iff _ _).0 t)
  | inr n ↦ let (a, k, e) = mapped f v xs (ground arith) in (a, Memᴰ.tail k, e)
]

pub Mem-filter {ℓ} :
    {A : Type ℓ} (p : A → Bool) (a : A) (xs : List A)
    → Memᴰ a xs
    → p a ≡ true
    → Memᴰ a (filter p xs)
Mem-filter p a [] m e = elim m [ ]
Mem-filter p a (x ∷ xs) (Memᴰ.head k) e = let t = subst (λ z. p z ≡ true) k e in rw t (Memᴰ.head k)
Mem-filter p a (x ∷ xs) (Memᴰ.tail m) e = elim (Bool-cases (p x)) [
  | inl t ↦ rw t (Memᴰ.tail (Mem-filter p a xs m e))
  | inr t ↦ rw t (Mem-filter p a xs m e)
]

pub filtered {ℓ} :
    {A : Type ℓ} (p : A → Bool) (a : A) (xs : List A)
    → Memᴰ a (filter p xs)
    → Memᴰ a xs × (p a ≡ true)
filtered p a [] m = elim m [ ]
filtered p a (x ∷ xs) m = elim (Bool-cases (p x)) [
  | inl t ↦
      let both : Memᴰ a (x ∷ filter p xs) =
        subst (λ b. Memᴰ a (if b then x ∷ filter p xs else filter p xs)) t m in
      elim both [
        | Memᴰ.head k ↦ (Memᴰ.head k, subst (λ z. p z ≡ true) (sym k) t)
        | Memᴰ.tail r ↦ let (q, e) = filtered p a xs r in (Memᴰ.tail q, e)
      ]
  | inr t ↦
      let rest : Memᴰ a (filter p xs) =
        subst (λ b. Memᴰ a (if b then x ∷ filter p xs else filter p xs)) t m in
      let (q, e) = filtered p a xs rest in (Memᴰ.tail q, e)
]

pub includes-map_append {ℓ} :
    {A : Type ℓ} (f : A → ℕ) (v : ℕ) (xs ys : List A)
    → includes v (map f (xs ++ ys)) ≡ (includes v (map f xs) || includes v (map f ys))
includes-map_append f v [] ys = ground arith
includes-map_append f v (x ∷ xs) ys = let rest = includes-map_append f v xs ys in ground arith

pub includes-filter :
    (p : ℕ → Bool) (v : ℕ) (xs : List ℕ) → includes v (filter p xs) ≡ (includes v xs && p v)
includes-filter p v [] = refl
includes-filter p v (x ∷ xs) =
    let rest = includes-filter p v xs in
    elim (Bool-cases (x == v)) [
      | inl t ↦ let same = ap p ((==_iff x v).0 t) in ground arith
      | inr f ↦ ground arith
    ]

pub any-found {ℓ} :
    {A : Type ℓ} (p : A → Bool) (xs : List A) → any p xs ≡ true → (a : A) × Memᴰ a xs × (p a ≡ true)
any-found p [] e = absurd (ground arith)
any-found p (x ∷ xs) e = elim (Bool-cases (p x)) [
  | inl t ↦ (x, Memᴰ.head refl, t)
  | inr f ↦ let (a, m, k) = any-found p xs (ground arith) in (a, Memᴰ.tail m, k)
]

pub any-Mem {ℓ} :
    {A : Type ℓ} (p : A → Bool) (a : A) (xs : List A) → Memᴰ a xs → p a ≡ true → any p xs ≡ true
any-Mem p a [] m e = elim m [ ]
any-Mem p a (x ∷ xs) (Memᴰ.head k) e = let t = subst (λ z. p z ≡ true) k e in ground arith
any-Mem p a (x ∷ xs) (Memᴰ.tail m) e = let rest = any-Mem p a xs m e in ground arith

-- `xs.flatMap(f)`
abbrev pub concat_map {ℓ κ} : {A : Type ℓ} {B : Type κ} → (A → List B) → List A → List B
concat_map f [] = []
concat_map f (x ∷ xs) = f x ++ concat_map f xs

pub concat_map-found {ℓ κ} :
    {A : Type ℓ} {B : Type κ} (f : A → List B) (b : B) (xs : List A)
    → Memᴰ b (concat_map f xs)
    → (a : A) × Memᴰ a xs × Memᴰ b (f a)
concat_map-found f b [] m = elim m [ ]
concat_map-found f b (x ∷ xs) m = elim (Memᴰ.append_cases (f x) m) [
  | inl k ↦ (x, Memᴰ.head refl, k)
  | inr k ↦ let (a, j, l) = concat_map-found f b xs k in (a, Memᴰ.tail j, l)
]

pub Mem-concat_map {ℓ κ} :
    {A : Type ℓ} {B : Type κ} (f : A → List B) (a : A) (b : B) (xs : List A)
    → Memᴰ a xs
    → Memᴰ b (f a)
    → Memᴰ b (concat_map f xs)
Mem-concat_map f a b [] m k = elim m [ ]
Mem-concat_map f a b (x ∷ xs) (Memᴰ.head e) k = Memᴰ.append_left _ (subst (λ z. Memᴰ b (f z)) e k)
Mem-concat_map f a b (x ∷ xs) (Memᴰ.tail m) k =
    Memᴰ.append_right (f x) (Mem-concat_map f a b xs m k)

-- The one item of a list with two guards.
pub Mem-guarded {ℓ} :
    {A : Type ℓ} (a b : Bool) (x f : A)
    → Memᴰ f (if not a then [] else if b then [] else x ∷ []) ↔ ((a ≡ true) × (b ≡ false) × (f ≡ x))
Mem-guarded false b x f = (λ m. elim m [ ], λ h. absurd (ground arith))
Mem-guarded true true x f = (λ m. elim m [ ], λ h. absurd (ground arith))
Mem-guarded true false x f =
    (λ m. elim m [ Memᴰ.head e ↦ (refl, refl, e) | Memᴰ.tail k ↦ elim k [ ] ], λ h. Memᴰ.head h.2)

pub includes-empty : (v : ℕ) (xs : List ℕ) → is_empty xs ≡ true → includes v xs ≡ false
includes-empty v [] e = refl
includes-empty v (x ∷ xs) e = absurd (ground arith)
