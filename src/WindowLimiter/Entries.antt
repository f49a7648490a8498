-- ===== src/WindowLimiter/Entries.antt =====
-- The map of apps/server/src/http/windowLimiter.ts and its entries.
use whiteboard_ai.Base.{
  ℕ, ◌+◌, ◌≤◌, ◌<◌, ◌≡◌, refl, sym, ap, subst, ◌∙◌, ◌⊎◌, inl, inr, Bool, true, false, Option, none,
  some, [], ◌∷◌, arith, ◌==◌, ==_iff, ltb, filter, length, Bool-cases, if◌then◌else◌,
}
use whiteboard_ai.WindowLimiter.{Entry, Counts, get, set, forget, next_count}

-- At most one entry for each key, as in a map.
abbrev pub Unique : Counts → Type 0
Unique [] = Unit
Unique (e ∷ es) = (get e.key es ≡ none) × Unique es

abbrev only_if : (Entry → Bool) → Option Entry → Option Entry
only_if p none = none
only_if p (some e) = if p e then some e else none

same_key : (e : Entry) (k : ℕ) → (e.key == k) ≡ true → e.key ≡ k
same_key e k h = (==_iff _ _).0 h

get-filter :
    (p : Entry → Bool) (k : ℕ) (es : Counts)
    → Unique es
    → get k (filter p es) ≡ only_if p (get k es)
get-filter p k [] u = refl
get-filter p k (e ∷ es) u = elim (Bool-cases (e.key == k)) [
  | inl t ↦
      let gone : get k es ≡ none = subst (λ j. get j es ≡ none) (same_key e k t) u.0 in
      let rest : get k (filter p es) ≡ none = get-filter p k es u.1 ∙ ap (only_if p) gone in
      elim (Bool-cases (p e)) [ inl q ↦ rw (q, t, q) refl | inr q ↦ rw (q, t, q) rest ]
  | inr f ↦ elim (Bool-cases (p e)) [
    | inl q ↦ rw (q, f) (get-filter p k es u.1)
    | inr q ↦ rw (q, f) (get-filter p k es u.1)
  ]
]

pub get-set : (x : Entry) (es : Counts) → get x.key (set x es) ≡ some x
get-set x [] = ground arith
get-set x (e ∷ es) =
    let rest = get-set x es in
    elim (Bool-cases (e.key == x.key)) [ inl t ↦ rw t (ground arith) | inr f ↦ rw (f, f) rest ]

pub get-set_other :
    (x : Entry) (k : ℕ) (es : Counts) → (x.key == k) ≡ false → get k (set x es) ≡ get k es
get-set_other x k [] f = rw f refl
get-set_other x k (e ∷ es) f = elim (Bool-cases (e.key == x.key)) [
  | inl t ↦
      let other : (e.key == k) ≡ false =
        subst (λ j. (j == k) ≡ false) (sym (same_key e x.key t)) f in
      rw (t, f, other) refl
  | inr g ↦
      rw g (elim (Bool-cases (e.key == k)) [
        | inl t ↦ rw t refl
        | inr h ↦ rw h (get-set_other x k es f)
      ])
]

pub Unique-filter : (p : Entry → Bool) (es : Counts) → Unique es → Unique (filter p es)
Unique-filter p [] u = tt
Unique-filter p (e ∷ es) u = elim (Bool-cases (p e)) [
  | inl t ↦ rw t (get-filter p e.key es u.1 ∙ ap (only_if p) u.0, Unique-filter p es u.1)
  | inr f ↦ rw f (Unique-filter p es u.1)
]

apart_sym : (e x : Entry) → (e.key == x.key) ≡ false → (x.key == e.key) ≡ false
apart_sym e x f = ground arith

pub Unique-set : (x : Entry) (es : Counts) → Unique es → Unique (set x es)
Unique-set x [] u = (refl, tt)
Unique-set x (e ∷ es) u = elim (Bool-cases (e.key == x.key)) [
  | inl t ↦ rw t (subst (λ j. get j es ≡ none) (same_key e x.key t) u.0, u.1)
  | inr f ↦ rw f (get-set_other x e.key es (apart_sym e x f) ∙ u.0, Unique-set x es u.1)
]

pub Unique-forget : (w : ℕ) (es : Counts) → Unique es → Unique (forget w es)
Unique-forget w es u = elim (Bool-cases (ltb 10000 (length es))) [
  | inl t ↦ rw t (Unique-filter _ es u)
  | inr f ↦ rw f u
]

-- The hits that an entry counts in the window `w`.
abbrev pub used : ℕ → Option Entry → ℕ
used w none = 0
used w (some e) = if e.window == w then e.count else 0

-- An entry is not of a window after `w`.
abbrev pub Past : ℕ → Option Entry → Type 0
Past w none = Unit
Past w (some e) = e.window ≤ w

Past-only_if : (p : Entry → Bool) (w : ℕ) (o : Option Entry) → Past w o → Past w (only_if p o)
Past-only_if p w none h = tt
Past-only_if p w (some e) h = elim (Bool-cases (p e)) [ inl t ↦ rw t h | inr f ↦ rw f tt ]

pub Past-le : (v w : ℕ) (o : Option Entry) → v ≤ w → Past v o → Past w o
Past-le v w none h p = tt
Past-le v w (some e) h p = omega (arith, h, p)

get-forget :
    (w k : ℕ) (es : Counts)
    → Unique es
    → (get k (forget w es) ≡ get k es)
      ⊎ (get k (forget w es) ≡ only_if (λ e. e.window == w) (get k es))
get-forget w k es u = elim (Bool-cases (ltb 10000 (length es))) [
  | inl t ↦ inr (rw t (get-filter _ k es u))
  | inr f ↦ inl (rw f refl)
]

used-only_if : (w : ℕ) (o : Option Entry) → used w (only_if (λ e. e.window == w) o) ≡ used w o
used-only_if w none = refl
used-only_if w (some e) = elim (Bool-cases (e.window == w)) [
  | inl t ↦ rw (t, t) refl
  | inr f ↦ rw f refl
]

pub used-forget :
    (w k : ℕ) (es : Counts) → Unique es → used w (get k (forget w es)) ≡ used w (get k es)
used-forget w k es u = elim (get-forget w k es u) [
  | inl e ↦ ap (used w) e
  | inr e ↦ ap (used w) e ∙ used-only_if w (get k es)
]

pub Past-forget :
    (w v k : ℕ) (es : Counts) → Unique es → Past v (get k es) → Past v (get k (forget w es))
Past-forget w v k es u p = elim (get-forget w k es u) [
  | inl e ↦ subst (Past v) (sym e) p
  | inr e ↦ subst (Past v) (sym e) (Past-only_if _ v (get k es) p)
]

pub next_count-used : (w : ℕ) (o : Option Entry) → next_count w o ≡ used w o + 1
next_count-used w none = refl
next_count-used w (some e) = ground arith

pub used_before : (v w : ℕ) (o : Option Entry) → v < w → Past v o → used w o ≡ 0
used_before v w none h p = refl
used_before v w (some e) h p = ground arith
