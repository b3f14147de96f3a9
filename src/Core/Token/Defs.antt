-- ===== src/Core/Token/Defs.antt =====
-- include/cxxdes/core/impl/token.ipp, impl/defs.ipp, and `token_comp` of impl/environment.ipp.
use libcxxdes.Base.{
  ℕ, ◌^◌, ◌-◌, Bool, true, false, ◌&&◌, ◌||◌, not, Option, none, some, if◌then◌else◌,
}
use libcxxdes.Base.Int.{ℤ, pos, negsuc, ltb_ℤ, eq_ℤ}

-- The exceptions: the program's own, by a number, and the `std::runtime_error`s of the library.
pub data Exception : Type 0 where
  program : ℕ → Exception
  used_environment bound_elsewhere already_awaited no_return_value : Exception
  invalid_mutex_handle invalid_resource_handle : Exception

-- Pointers are indices into the tables of a `World`.
pub record Token : Type 0 where
  pub time : ℤ
  pub priority : ℤ
  pub coro_data : Option ℕ
  pub handler : Option ℕ
  pub eptr : Option Exception

-- `priority_consts`
abbrev pub highest : ℤ
highest = negsuc (2 ^ 63 - 1)

abbrev pub inherit : ℤ
inherit = pos (2 ^ 63 - 1)

abbrev pub lowest : ℤ
lowest = pos (2 ^ 63 - 2)

abbrev pub zero_priority : ℤ
zero_priority = pos 0

abbrev pub is_none {ℓ} : {A : Type ℓ} → Option A → Bool
is_none none = true
is_none (some a) = false

-- `token_comp::has_priority`
unfoldable pub has_priority : Token → Bool
has_priority a = is_none a.coro_data && is_none a.handler && not (is_none a.eptr)

-- `token_comp::operator()`: whether `b` is to run before `a`.
unfoldable pub token_comp : Token → Token → Bool
token_comp a b =
    has_priority b || ltb_ℤ b.time a.time || (eq_ℤ a.time b.time && ltb_ℤ b.priority a.priority)

-- `if (priority_ == priority_consts::inherit) priority_ = priority;`
unfoldable pub resolve : ℤ → ℤ → ℤ
resolve own inherited = if eq_ℤ own inherit then inherited else own
