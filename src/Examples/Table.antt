-- ===== src/Examples/Table.antt =====
-- A table of users in memory, behind the statements of internal/auth/gen, and passwords as their own
-- hashes: they stand for PostgreSQL and bcrypt in the examples.
use text.Mathlib.Text.{◌==◌ as str_eq}
use text.Mathlib.TextEquality.{eq_iff}
use pomodoro_backend.Base.{
  String, ◌≡◌, refl, ap, false, Bool-cases, ◌⊎◌, inl, inr, Option, Option-cases, none, some, List,
  [], ◌∷◌, if◌then◌else◌, append, arith,
}
use pomodoro_backend.Auth.Repo.{CreateUserParams, DbError}
use pomodoro_backend.Auth.Queries.{
  Cell, DbTx, Bcrypt, create_user_sql, get_password_hash_by_username_sql, get_user_by_email_sql,
  get_user_by_username_sql,
}
use pomodoro_backend.Auth.Queries.Table.{UserRecord, select, IsRole, IsUsers, IsRowOf}
use pomodoro_backend.Auth.Queries.Postgres.{
  user_cells, hash_cells, no_rows, duplicate_key, found, IsPostgres, IsBcrypt,
}

-- The rows, which keep the constraints.
abbrev pub Users : Type 0
Users = (users : List UserRecord) × IsUsers users

abbrev no_role : DbError
no_role = record { text = "ERROR: invalid input value for enum user_role"; unique = false }

abbrev Look : Option UserRecord → Type 0
Look o = (o ≡ none) ⊎ ((u : UserRecord) × (o ≡ some u))

pub neither_role :
    (role : String) → str_eq role "USER" ≡ false → str_eq role "ADMIN" ≡ false → ¬ (IsRole role)
neither_role role e f h = ground (arith, e, f, eq_iff role "USER", eq_iff role "ADMIN")

abbrev role_cases : (role : String) → IsRole role ⊎ ¬ (IsRole role)
role_cases role = elim (Bool-cases (str_eq role "USER")) [
  | inl e ↦ inl (inl ((eq_iff role "USER").0 e))
  | inr e ↦ elim (Bool-cases (str_eq role "ADMIN")) [
    | inl f ↦ inl (inr ((eq_iff role "ADMIN").0 f))
    | inr f ↦ inr (neither_role role e f)
  ]
]

module _ (u : UserRecord) (users : List UserRecord) (ok : IsUsers users) where
  -- Whether a row may be put in front: a role, and a name, an email and an id that are not taken.
  abbrev allowed :
      IsRole u.role ⊎ ¬ (IsRole u.role)
      → Look (select (λ x. x.username) u.username users)
      → Look (select (λ x. x.email) u.email users)
      → Look (select (λ x. x.id) u.id users)
      → IsUsers (u ∷ users) ⊎ DbError
  allowed (inr bad) name email id = inr no_role
  allowed (inl role) (inr taken) email id = inr (duplicate_key "users_username_key")
  allowed (inl role) (inl name) (inr taken) id = inr (duplicate_key "users_email_key")
  allowed (inl role) (inl name) (inl email) (inr taken) = inr (duplicate_key "users_pkey")
  allowed (inl role) (inl name) (inl email) (inl id) = inl (role, id, name, email, ok)

  abbrev check : IsUsers (u ∷ users) ⊎ DbError
  check =
      allowed (role_cases u.role) (Option-cases (select (λ x. x.username) u.username users))
        (Option-cases (select (λ x. x.email) u.email users))
        (Option-cases (select (λ x. x.id) u.id users))

  allowed_taken :
      (other : UserRecord) (role : IsRole u.role ⊎ ¬ (IsRole u.role))
      (name : Look (select (λ x. x.username) u.username users))
      (email : Look (select (λ x. x.email) u.email users))
      (id : Look (select (λ x. x.id) u.id users))
      → IsRole u.role
      → (select (λ x. x.username) u.username users ≡ some other)
        ⊎ (select (λ x. x.email) u.email users ≡ some other)
      → (allowed role name email id ≡ inr (duplicate_key "users_username_key"))
        ⊎ (allowed role name email id ≡ inr (duplicate_key "users_email_key"))
  allowed_taken other (inr bad) name email id is_role h = absurd (bad is_role)
  allowed_taken other (inl role) (inr taken) email id is_role h = inl refl
  allowed_taken other (inl role) (inl name) (inr taken) id is_role h = inr refl
  allowed_taken other (inl role) (inl name) (inl email) id is_role (inl h) =
      absurd (ground (arith, name, h))
  allowed_taken other (inl role) (inl name) (inl email) id is_role (inr h) =
      absurd (ground (arith, email, h))

  abbrev put : IsUsers (u ∷ users) ⊎ DbError → Users × (List Cell ⊎ DbError)
  put (inl more) = ((u ∷ users, more), inl (user_cells u))
  put (inr e) = ((users, ok), inr e)

abbrev record_of : String → String → String → String → UserRecord
record_of name email hash role = record {
  id = append "id-" name;
  username = name;
  email = email;
  password_hash = hash;
  role = role;
  created_at = 1000;
}

abbrev insert : Users → List String → Users × (List Cell ⊎ DbError)
insert (users, ok) (name ∷ email ∷ hash ∷ role ∷ []) =
    let u = record_of name email hash role in put u users ok (check u users ok)
insert db _ = (db, inr no_rows)

abbrev look :
    (UserRecord → String) → (UserRecord → List Cell) → Users → List String → List Cell ⊎ DbError
look column cells (users, ok) (value ∷ []) = found cells (select column value users)
look column cells db _ = inr no_rows

abbrev query : Users → String → List String → Users × (List Cell ⊎ DbError)
query db sql args =
    if str_eq sql create_user_sql
    then insert db args
    else if str_eq sql get_user_by_username_sql
    then (db, look (λ u. u.username) user_cells db args)
    else if str_eq sql get_user_by_email_sql
    then (db, look (λ u. u.email) user_cells db args)
    else if str_eq sql get_password_hash_by_username_sql
    then (db, look (λ u. u.username) hash_cells db args)
    else (db, inr no_rows)

abbrev pub table : DbTx
table = record {
  Store = Users;
  query_row = query;
  mismatch = record { text = "can't scan into dest"; unique = false };
}

insert-cases :
    (u : UserRecord) (p : CreateUserParams) (users : List UserRecord) (ok : IsUsers users)
    (res : IsUsers (u ∷ users) ⊎ DbError)
    → IsRowOf p u
    → let (db, row) = put u users ok res in
      ((u : UserRecord) × IsRowOf p u × (row ≡ inl (user_cells u)) × (db.0 ≡ u ∷ users))
      ⊎ ((e : DbError) × (row ≡ inr e) × (db.0 ≡ users))
insert-cases u p users ok (inl more) made = inl (u, made, refl, refl)
insert-cases u p users ok (inr e) made = inr (e, refl, refl)

put-error :
    (u : UserRecord) (users : List UserRecord) (ok : IsUsers users)
    (res : IsUsers (u ∷ users) ⊎ DbError) (e : DbError)
    → res ≡ inr e
    → (put u users ok res).1 ≡ inr e
put-error u users ok res e h = ap (λ x. (put u users ok x).1) h

abbrev row_for : CreateUserParams → UserRecord
row_for p = record_of p.username p.email p.password_hash p.role

row_for-IsRowOf : (p : CreateUserParams) → IsRowOf p (row_for p)
row_for-IsRowOf p = record { username = refl; email = refl; password_hash = refl; role = refl }

pub table-IsPostgres : IsPostgres table
table-IsPostgres = record {
  rows = λ db. db.0;
  users = λ db. db.1;
  by_username = λ db name. refl;
  by_email = λ db email. refl;
  hash_by_username = λ db name. refl;
  inserted = λ db p.
      insert-cases (row_for p) p db.0 db.1 (check (row_for p) db.0 db.1) (row_for-IsRowOf p);
  taken = λ db p u role h.
      elim (allowed_taken (row_for p) db.0 db.1 u (role_cases p.role)
        (Option-cases (select (λ x. x.username) p.username db.0))
        (Option-cases (select (λ x. x.email) p.email db.0))
        (Option-cases (select (λ x. x.id) (row_for p).id db.0)) role h) [
          | inl e ↦ inl (put-error (row_for p) db.0 db.1 (check (row_for p) db.0 db.1) _ e)
          | inr e ↦ inr (put-error (row_for p) db.0 db.1 (check (row_for p) db.0 db.1) _ e)
        ];
}

pub table_rows : (db : Users) → table-IsPostgres.rows db ≡ db.0
unfolding table-IsPostgres
table_rows db = refl

abbrev pub plain : Bcrypt
plain = record { generate_from_password = λ p. inl p; fits_hash = λ hash p. str_eq hash p }

pub plain-IsBcrypt : IsBcrypt plain
plain-IsBcrypt = record {
  fits-generate = λ password hash h.
      let same : password ≡ hash = ground arith in rw same ((eq_iff hash hash).1 refl);
}
