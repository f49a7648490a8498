-- ===== src/Graph/Board/ReadShapes.antt =====
-- The first loop keeps every raw shape: among the valid ones, or in a report.
use whiteboard_ai.Base.{
  ◌≡◌, ◌⊎◌, inl, inr, refl, none, some, List, [], ◌∷◌, any, Bool-cases, Option-cases, Memᴰ, Sub,
  Sub-append_right, All, ◌==◌,
}
use whiteboard_ai.Base.Memᴰ
use whiteboard_ai.Graph.{IgnoredShape, duplicate_id, invalid}
use whiteboard_ai.Graph.Board.{Shape, RawShape, Reading, read, read_all, ignore, string_field}

-- What is reported of a raw shape that is none.
abbrev pub invalid_shape : RawShape → IgnoredShape
invalid_shape raw = record {
  shape_id = string_field raw.id_value;
  shape_type = string_field raw.type_value;
  reason = invalid;
}

-- Where a raw shape is after the first loop.
abbrev pub IsRead : Reading → RawShape → Type 0
IsRead r raw = elim raw.parsed [
  | none ↦ Memᴰ (invalid_shape raw) r.ignored
  | some s ↦ Memᴰ s r.valid ⊎ Memᴰ (ignore s duplicate_id) r.ignored
]

abbrev Grows : Reading → Reading → Type 0
Grows r q = Sub r.valid q.valid × Sub r.ignored q.ignored

read-Grows : (r : Reading) (raw : RawShape) → Grows r (read r raw)
unfolding read
read-Grows r raw = elim (Option-cases raw.parsed) [
  | inl e ↦ rw (e, Grows) ((λ a m. m), Sub-append_right _ (λ a m. m))
  | inr (s, e) ↦ elim (Bool-cases (any (λ t. t.id == s.id) r.valid)) [
    | inl t ↦ rw (e, t, Grows) ((λ a m. m), Sub-append_right _ (λ a m. m))
    | inr t ↦ rw (e, t, Grows) (Sub-append_right _ (λ a m. m), (λ a m. m))
  ]
]

none-IsRead :
    (q : Reading) (raw : RawShape)
    → raw.parsed ≡ none
    → Memᴰ (invalid_shape raw) q.ignored
    → IsRead q raw
none-IsRead q raw e m = rw (e, IsRead) m

some-IsRead :
    (q : Reading) (raw : RawShape) (s : Shape)
    → raw.parsed ≡ some s
    → Memᴰ s q.valid ⊎ Memᴰ (ignore s duplicate_id) q.ignored
    → IsRead q raw
some-IsRead q raw s e m = rw (e, IsRead) m

read-IsRead : (r : Reading) (raw : RawShape) → IsRead (read r raw) raw
unfolding read
read-IsRead r raw = elim (Option-cases raw.parsed) [
  | inl e ↦ none-IsRead _ raw e (rw e (Memᴰ.append_right r.ignored (Memᴰ.head refl)))
  | inr (s, e) ↦ some-IsRead _ raw s e (elim (Bool-cases (any (λ t. t.id == s.id) r.valid)) [
    | inl t ↦ inr (rw (e, t) (Memᴰ.append_right r.ignored (Memᴰ.head refl)))
    | inr t ↦ inl (rw (e, t) (Memᴰ.append_right r.valid (Memᴰ.head refl)))
  ])
]

read_all-Grows : (r : Reading) (raws : List RawShape) → Grows r (read_all r raws)
unfolding read_all
read_all-Grows r [] = ((λ a m. m), (λ a m. m))
read_all-Grows r (raw ∷ raws) =
    let (v, i) = read_all-Grows (read r raw) raws in
    let (w, j) = read-Grows r raw in ((λ a m. v a (w a m)), (λ a m. i a (j a m)))

Grows-IsRead : (r q : Reading) (raw : RawShape) → Grows r q → IsRead r raw → IsRead q raw
Grows-IsRead r q raw g = elim (Option-cases raw.parsed) [
  | inl e ↦ rw (e, IsRead) (λ h. g.1 _ h)
  | inr (s, e) ↦ rw (e, IsRead) (λ h. elim h [ inl m ↦ inl (g.0 _ m) | inr m ↦ inr (g.1 _ m) ])
]

pub read_all-IsRead : (r : Reading) (raws : List RawShape) → All (IsRead (read_all r raws)) raws
unfolding read_all
read_all-IsRead r [] = tt
read_all-IsRead r (raw ∷ raws) = (
  Grows-IsRead (read r raw) (read_all (read r raw) raws) raw (read_all-Grows (read r raw) raws)
      (read-IsRead r raw),
  read_all-IsRead (read r raw) raws,
)
