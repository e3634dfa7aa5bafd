-- ===== src/Config/Examples.antt =====
-- Three environments, and the theorem on loading applied to one.
use poker.Config.{
  Environment, ServerRole, load_from_environment, poker_io_threads, poker_mysql_password, game,
  lobby, poker_role, role, role_name, standalone, text,
}
use poker.Config.Numbers.{integer_of, read_digits, read_sign, skip_spaces, stoll}
use poker.Config.Valid.{IsLoaded, load_from_environment-IsLoaded}
use poker.Prelude.{[], none, refl, some, text_eq, ◌∷◌, ◌≡◌}

abbrev with_password : Environment
with_password poker_mysql_password = some (b'x' ∷ [])
with_password poker_io_threads = some (b'1' ∷ b'6' ∷ [])
with_password _ = none

integer_of-test : integer_of (b' ' ∷ b'+' ∷ b'1' ∷ b'6' ∷ []) 1 128 ≡ some 16
unfolding integer_of stoll skip_spaces read_sign read_digits
integer_of-test = refl

trailing-test : integer_of (b'1' ∷ b'6' ∷ b'k' ∷ []) 1 128 ≡ none
unfolding integer_of stoll skip_spaces read_sign read_digits
trailing-test = refl

sign-test : integer_of (b'-' ∷ []) 0 128 ≡ none
unfolding integer_of stoll skip_spaces read_sign read_digits
sign-test = refl

negative-test : integer_of (b'-' ∷ b'1' ∷ []) 0 128 ≡ none
unfolding integer_of stoll skip_spaces read_sign read_digits
negative-test = refl

load_from_environment-IsLoaded_example : IsLoaded (load_from_environment with_password)
load_from_environment-IsLoaded_example = load_from_environment-IsLoaded with_password

abbrev named_role : ServerRole → Environment
unfolding role_name
named_role r poker_role = some (role_name r)
named_role r _ = none

-- Each role is read back from its name.
role-role_name : (r : ServerRole) → role (named_role r) [] ≡ (r, [])
unfolding role role_name text text_eq named_role
role-role_name standalone = refl
role-role_name lobby = refl
role-role_name game = refl
