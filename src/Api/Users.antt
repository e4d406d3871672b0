-- ===== src/Api/Users.antt =====
-- packages/shared/src/user/user.ts: who calls the server.
use gachinol.Prelude.{ℕ, ◌≡◌, refl, String, some, List, [], ◌∷◌, get_elem?, Eq, Enum, eq_of_enum}

pub data UserRole : Type 0 where
  reporter center_operator announcer subscriber admin : UserRole

abbrev user_roles : List UserRole
user_roles = reporter ∷ center_operator ∷ announcer ∷ subscriber ∷ admin ∷ []

abbrev role_index : UserRole → ℕ
role_index reporter = 0
role_index center_operator = 1
role_index announcer = 2
role_index subscriber = 3
role_index admin = 4

pub role_index_lem : (r : UserRole) → get_elem? user_roles (role_index r) ≡ some r
role_index_lem reporter = refl
role_index_lem _ = refl

abbrev pub role_enum : Enum UserRole
role_enum = record { values = user_roles; index = role_index; index_lem = role_index_lem }

instance abbrev pub user_role_eq : Eq UserRole
user_role_eq = eq_of_enum role_enum

-- The columns that the modelled code reads.
pub record User : Type 0 where
  pub id : String
  pub role : UserRole
