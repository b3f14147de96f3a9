-- ===== src/Misc/Time/Expr.antt =====
-- include/cxxdes/misc/time.hpp, namespace `ops` and `time_expr`: the trees that the operators
-- build, evaluated against a precision and a model unit.
use libcxxdes.Base.{ℕ, Bool, true, false, Option, none, some}
use libcxxdes.Base.Int.{ℤ, pos, ◌+ℤ◌, ◌-ℤ◌, ◌*ℤ◌, ◌/ℤ◌}
use libcxxdes.Misc.Time.Quantity.{Time, TimeUnitType, count, unitless_count}

-- A node: a quantity, a unitless amount, or an operator applied to nodes and integer scalars.
pub data Node : Type 0 where
  quantity : Time → Node
  unitless : ℤ → Node
  negate : Node → Node
  add : Node → Node → Node
  subtract : Node → Node → Node
  scale_right : Node → ℤ → Node
  scale_left : ℤ → Node → Node
  divide : Node → ℤ → Node

-- `count(precision, unit)` of each kind of node
unfoldable pub node_count : Node → Time → Time → ℤ
node_count (quantity x) precision unit = count x precision
node_count (unitless t) precision unit = unitless_count t precision unit
node_count (negate a) precision unit = pos 0 -ℤ node_count a precision unit
node_count (add a b) precision unit = node_count a precision unit +ℤ node_count b precision unit
node_count (subtract a b) precision unit =
    node_count a precision unit -ℤ node_count b precision unit
node_count (scale_right a b) precision unit = node_count a precision unit *ℤ b
node_count (scale_left a b) precision unit = a *ℤ node_count b precision unit
node_count (divide a b) precision unit = node_count a precision unit /ℤ b

-- `time_expr`: the pointer `impl_`, null after default construction.
pub record TimeExpr : Type 0 where
  pub impl : Option Node

unfoldable pub expr_count : TimeExpr → Time → Time → ℤ
expr_count e precision unit = elim e.impl [ none ↦ pos 0 | some n ↦ node_count n precision unit ]

unfoldable pub valid : TimeExpr → Bool
valid e = elim e.impl [ none ↦ false | some n ↦ true ]

-- The constructor from a node, and from a scalar.
unfoldable pub of_node : Node → TimeExpr
of_node n = record { impl = some n }

unfoldable pub of_scalar : ℤ → TimeExpr
of_scalar t = record { impl = some (unitless t) }

-- `operator=(time_expr const &)`, on a target that holds another object: `impl_.reset(
-- other.impl_->clone())` dereferences a null pointer, here `none`, if `other` is invalid.
unfoldable pub copy_assign : TimeExpr → TimeExpr → Option TimeExpr
copy_assign target other = elim other.impl [
  | none ↦ none
  | some n ↦ some (record { impl = some n })
]

-- `operator=(time_expr &&)`: the target, and the source left null.
unfoldable pub move_assign : TimeExpr → TimeExpr → TimeExpr × TimeExpr
move_assign target other = (record { impl = other.impl }, record { impl = none })

-- The literals `_s`, `_ms`, `_us`, `_ns`, `_ps` and `_x`.
abbrev pub lit_s : ℕ → Node
lit_s x = quantity (record { t = pos x; u = TimeUnitType.seconds })

abbrev pub lit_ms : ℕ → Node
lit_ms x = quantity (record { t = pos x; u = TimeUnitType.milliseconds })

abbrev pub lit_us : ℕ → Node
lit_us x = quantity (record { t = pos x; u = TimeUnitType.microseconds })

abbrev pub lit_ns : ℕ → Node
lit_ns x = quantity (record { t = pos x; u = TimeUnitType.nanoseconds })

abbrev pub lit_ps : ℕ → Node
lit_ps x = quantity (record { t = pos x; u = TimeUnitType.picoseconds })

abbrev pub lit_x : ℕ → Node
lit_x x = unitless (pos x)
