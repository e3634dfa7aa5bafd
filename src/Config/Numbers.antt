-- ===== src/Config/Numbers.antt =====
-- The numbers of the configuration: `std::stoll` at base 10 as `integer` of
-- src/poker/config/server_config.cpp calls it, and the tests on its answer.
use poker.Prelude.{
  Bool, Option, Text, [], false, if◌then◌else◌, leb, length, leb_ℤ, ltb_ℤ, negsuc, none, not, pos,
  pos_part, some, suc, true, zero, ℕ, ℤ, ◌&&◌, ◌*◌, ◌+◌, ◌-◌, ◌==◌, ◌^◌, ◌||◌, ◌∷◌,
}

-- A space as `isspace` has it.
abbrev pub is_space : ℕ → Bool
is_space c = c == 32 || leb 9 c && leb c 13

abbrev pub is_digit : ℕ → Bool
is_digit c = leb b'0' c && leb c b'9'

unfoldable pub skip_spaces : Text → Text
skip_spaces [] = []
skip_spaces (c ∷ value) = let rest = skip_spaces value in if is_space c then rest else c ∷ value

-- Whether there is a minus, and what follows the sign.
unfoldable pub read_sign : Text → Bool × Text
read_sign [] = (false, [])
read_sign (c ∷ value) =
    if c == b'-' then (true, value) else if c == b'+' then (false, value) else (false, c ∷ value)

unfoldable pub read_digits : ℕ → Text → ℕ × Text
read_digits n [] = (n, [])
read_digits n (c ∷ value) =
    let rest = read_digits (10 * n + (c - b'0')) value in
    if is_digit c then rest else (n, c ∷ value)

abbrev pub minus : ℕ → ℤ
minus zero = pos zero
minus (suc n) = negsuc n

-- The number and what stands after it; `none` is an exception.
unfoldable pub stoll : Text → Option (ℤ × Text)
stoll value =
    let sign = read_sign (skip_spaces value) in
    let r = read_digits 0 sign.1 in
    if length r.1 == length sign.1
    then none
    else if sign.0
    then if leb r.0 (2 ^ 63) then some (minus r.0, r.1) else none
    else if leb r.0 (2 ^ 63 - 1)
    then some (pos r.0, r.1)
    else none

-- The `try` of `integer`; `none` is what its `catch` handles.
unfoldable pub integer_of : Text → ℕ → ℕ → Option ℕ
integer_of value minimum maximum = elim (stoll value) [
  | none ↦ none
  | some (parsed, rest) ↦
      if leb 1 (length rest) || ltb_ℤ parsed minimum || not (leb_ℤ parsed maximum)
      then none
      else some (pos_part parsed)
]
