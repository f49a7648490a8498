-- ===== src/Graph/Board.antt =====
-- The shapes of a board that packages/graph/src/extract.ts reads, packages/shared/src/board/shapes.ts,
-- and its first loops. The parser of shapes, zod, is a field of what is read.
pub mod ReadShapes
use whiteboard_ai.Base.{
  ℕ, Bool, true, false, ◌&&◌, Option, none, some, List, [], ◌∷◌, ◌++◌, map, any, filter,
  if◌then◌else◌, ◌==◌, leb,
}
use whiteboard_ai.Graph.{
  ComponentKind, kind_index, EdgeType, Engine, DbRole, QueueMode, IgnoredReason, invalid,
  duplicate_id, IgnoredShape,
}

-- A string that was read: its number and its length.
pub record Text : Type 0 where
  pub text : ℕ
  pub text_length : ℕ

pub data PlainType : Type 0 where
  rectangle ellipse text_shape sticky freehand : PlainType

pub record SystemShape : Type 0 where
  pub kind : ComponentKind
  pub label : ℕ
  pub engine : Option Engine
  pub role : Option DbRole
  pub mode : Option QueueMode

pub record ArrowShape : Type 0 where
  pub from_shape_id : Option ℕ
  pub to_shape_id : Option ℕ
  pub label : ℕ
  pub edge_type : EdgeType

pub data ShapeBody : Type 0 where
  plain : PlainType → ShapeBody
  system : SystemShape → ShapeBody
  arrow : ArrowShape → ShapeBody

pub record Shape : Type 0 where
  pub id : ℕ
  pub group_id : Option ℕ
  pub body : ShapeBody

-- What is read of a raw shape; `parsed` is what the schema makes of it.
pub record RawShape : Type 0 where
  pub parsed : Option Shape
  pub id_value : Option Text
  pub type_value : Option Text

-- The number of a shape's `type`
abbrev plain_name : PlainType → ℕ
plain_name rectangle = 13
plain_name ellipse = 14
plain_name text_shape = 15
plain_name sticky = 16
plain_name freehand = 17

abbrev type_name : ShapeBody → ℕ
type_name (plain t) = plain_name t
type_name (system s) = kind_index s.kind
type_name (arrow a) = 12

abbrev pub string_field : Option Text → Option ℕ
string_field none = none
string_field (some t) = if leb 1 t.text_length && leb t.text_length 200 then some t.text else none

pub record Reading : Type 0 where
  pub valid : List Shape
  pub ignored : List IgnoredShape

abbrev pub ignore : Shape → IgnoredReason → IgnoredShape
ignore s why = record { shape_id = some s.id; shape_type = some (type_name s.body); reason = why }

-- The first loop's body.
unfoldable pub read : Reading → RawShape → Reading
read r raw = elim raw.parsed [
  | none ↦
      let found : IgnoredShape = record {
        shape_id = string_field raw.id_value;
        shape_type = string_field raw.type_value;
        reason = invalid;
      } in
      record r { ignored = r.ignored ++ found ∷ [] }
  | some s ↦
      if any (λ t. t.id == s.id) r.valid
      then record r { ignored = r.ignored ++ ignore s duplicate_id ∷ [] }
      else record r { valid = r.valid ++ s ∷ [] }
]

unfoldable pub read_all : Reading → List RawShape → Reading
read_all r [] = r
read_all r (raw ∷ raws) = read_all (read r raw) raws

abbrev pub is_system : Shape → Bool
is_system s = elim s.body [ system c ↦ true | _ ↦ false ]

unfoldable pub components : List Shape → List Shape
components shapes = filter is_system shapes

-- `componentsByGroup.get(group)`
abbrev in_group : ℕ → Shape → Bool
in_group group s = elim s.group_id [ none ↦ false | some v ↦ v == group ]

unfoldable pub group_members : List Shape → ℕ → List ℕ
group_members shapes group = map (λ s. s.id) (filter (in_group group) (components shapes))
