-- ===== src/Examples/Members.antt =====
-- A database of users in memory, with the behaviour that internal/auth/pg_repo.go relies on:
-- passwords are their own hashes, and a row has a role of the type user_role.
use text.Mathlib.Text.{◌==◌ as str_eq}
use text.Mathlib.TextEquality.{eq_iff}
use pomodoro_backend.Base.{
  String, ◌≡◌, refl, ap, sym, Bool, true, false, ◌||◌, ◌⊎◌, inl, inr, List, [], ◌∷◌, if◌then◌else◌,
  arith,
}
use pomodoro_backend.Auth.Repo.{Database, UserRow, CreateUserParams, DbError}
use pomodoro_backend.Auth.Laws.{IsDatabase}

-- The rows with their hashes.
abbrev pub Rows : Type 0
Rows = List (UserRow × String)

abbrev no_rows : DbError
no_rows = record { text = "no rows in result set"; unique = false }

abbrev no_role : DbError
no_role = record { text = "invalid input value for enum user_role"; unique = false }

abbrev is_role : String → Bool
is_role role = str_eq role "USER" || str_eq role "ADMIN"

abbrev find : (UserRow → String) → String → Rows → (UserRow × String) ⊎ DbError
find f s [] = inr no_rows
find f s ((row, hash) ∷ rows) =
    let rest = find f s rows in
    if str_eq (f row) s then (if is_role row.role then inl (row, hash) else inr no_role) else rest

abbrev row_of : (UserRow × String) ⊎ DbError → UserRow ⊎ DbError
row_of (inl (row, hash)) = inl row
row_of (inr e) = inr e

abbrev hash_of : (UserRow × String) ⊎ DbError → String ⊎ DbError
hash_of (inl (row, hash)) = inl hash
hash_of (inr e) = inr e

abbrev new_row : CreateUserParams → UserRow
new_row p = record {
  id = "7";
  username = p.username;
  email = p.email;
  role = p.role;
  created_at = 1000;
}

abbrev insert : Rows → CreateUserParams → Rows × (UserRow ⊎ DbError)
insert db p =
    if is_role p.role
    then ((new_row p, p.password_hash) ∷ db, inl (new_row p))
    else (db, inr no_role)

abbrev pub members : Database
members = record {
  Store = Rows;
  get_user_by_username = λ db s. row_of (find (λ row. row.username) s db);
  get_user_by_email = λ db s. row_of (find (λ row. row.email) s db);
  get_password_hash = λ db s. hash_of (find (λ row. row.username) s db);
  insert_user = insert;
  hash_password = λ p. inl p;
  fits_hash = λ hash p. str_eq hash p;
}

IsFound : String → UserRow → Type 0
IsFound s row = (row.username ≡ s) × ((row.role ≡ "USER") ⊎ (row.role ≡ "ADMIN"))

find_lem :
    (s : String) (db : Rows) (row : UserRow)
    → row_of (find (λ row. row.username) s db) ≡ inl row
    → IsFound s row
unfolding IsFound
find_lem s [] row h = ground arith
find_lem s ((first, hash) ∷ rows) row h = ground (
  arith,
  find_lem s rows row,
  eq_iff first.username s,
  eq_iff first.role "USER",
  eq_iff first.role "ADMIN",
)

inserted :
    (db db' : Rows) (p : CreateUserParams) (row : UserRow)
    → insert db p ≡ (db', inl row)
    → (is_role p.role ≡ true) × (new_row p ≡ row) × ((new_row p, p.password_hash) ∷ db ≡ db')
inserted db db' p row h = ground arith

pub members-IsDatabase : IsDatabase members
unfolding IsFound
members-IsDatabase = record {
  inserted_name = λ db db' p row h. ground (arith, inserted db db' p row h);
  inserted_role = λ db db' p row h. ground (arith, inserted db db' p row h);
  by_username-insert = λ db db' p row h.
      let (ok, made, kept) = inserted db db' p row h in
      rw (sym kept, ok, (eq_iff p.username p.username).1 refl) (ap inl made);
  hash-insert = λ db db' p row h.
      let (ok, made, kept) = inserted db db' p row h in
      rw (sym kept, ok, (eq_iff p.username p.username).1 refl) refl;
  found_name = λ db name row h. (find_lem name db row h).0;
  found_role = λ db name row h. (find_lem name db row h).1;
  fits-hash = λ password hash h.
      let same : password ≡ hash = ground arith in rw same ((eq_iff hash hash).1 refl);
}
