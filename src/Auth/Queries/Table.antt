-- ===== src/Auth/Queries/Table.antt =====
-- scripts/postgres/schema.sql: the table of the users, with its constraints.
use text.Mathlib.Text.{◌==◌ as str_eq}
use text.Mathlib.TextEquality.{eq_iff}
use pomodoro_backend.Base.{
  refl, inl, inr, Bool-cases, arith, String, ◌≡◌, ◌⊎◌, Option, none, some, List, [], ◌∷◌,
  if◌then◌else◌,
}
use pomodoro_backend.Clock.Time.{Time}
use pomodoro_backend.Auth.Repo.{CreateUserParams}

-- A row of the table `users`.
pub record UserRecord : Type 0 where
  pub id : String
  pub username : String
  pub email : String
  pub password_hash : String
  pub role : String
  pub created_at : Time

-- `SELECT … WHERE column = value`, of its first row.
abbrev pub select : (UserRecord → String) → String → List UserRecord → Option UserRecord
select column value [] = none
select column value (u ∷ users) =
    let rest = select column value users in if str_eq (column u) value then some u else rest

-- The type `user_role`.
abbrev pub IsRole : String → Type 0
IsRole role = (role ≡ "USER") ⊎ (role ≡ "ADMIN")

-- A row has a role, and no row behind it has its id, its name or its email.
abbrev pub IsUsers : List UserRecord → Type 0
IsUsers [] = Unit
IsUsers (u ∷ users) =
    IsRole u.role
    × (select (λ x. x.id) u.id users ≡ none)
    × (select (λ x. x.username) u.username users ≡ none)
    × (select (λ x. x.email) u.email users ≡ none)
    × IsUsers users

-- The row of an insertion has the values that were given.
pub record IsRowOf (p : CreateUserParams) (u : UserRecord) : Type 0 where
  pub username : u.username ≡ p.username
  pub email : u.email ≡ p.email
  pub password_hash : u.password_hash ≡ p.password_hash
  pub role : u.role ≡ p.role

pub select-column :
    (column : UserRecord → String) (value : String) (users : List UserRecord) (u : UserRecord)
    → select column value users ≡ some u
    → column u ≡ value
select-column column value [] u h = ground arith
select-column column value (x ∷ users) u h =
    ground (arith, select-column column value users u, eq_iff (column x) value)

pub select-IsRole :
    (column : UserRecord → String) (value : String) (users : List UserRecord) (u : UserRecord)
    → IsUsers users
    → select column value users ≡ some u
    → IsRole u.role
select-IsRole column value [] u valid h = ground arith
select-IsRole column value (x ∷ users) u valid h = elim (Bool-cases (str_eq (column x) value)) [
  | inl e ↦ ground (arith, valid.0)
  | inr e ↦ select-IsRole column value users u valid.4 (ground arith)
]

-- The first row of a value is found by it.
pub select-here :
    (column : UserRecord → String) (users : List UserRecord) (u : UserRecord)
    → select column (column u) (u ∷ users) ≡ some u
select-here column users u = rw ((eq_iff (column u) (column u)).1 refl) refl
