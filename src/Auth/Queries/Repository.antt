-- ===== src/Auth/Queries/Repository.antt =====
-- internal/auth/pg_repo.go and internal/auth/gen: the repository over a database that answers.
use mathlib.Core.Path.{subst}
use pomodoro_backend.Base.{
  String, ◌≡◌, refl, sym, ap, ◌∙◌, ◌⊎◌, inl, inr, Option, Option-cases, none, some, List, ◌∷◌,
  arith,
}
use pomodoro_backend.Auth.Repo.{UserRow, CreateUserParams, DbError}
use pomodoro_backend.Auth.Laws.{IsDatabase}
use pomodoro_backend.Auth.Queries.{
  scan_columns, scan_column, scanned, converted, DbTx, Bcrypt, repository, insert_user,
  get_password_hash_by_username, get_user_by_email, get_user_by_username,
}
use pomodoro_backend.Auth.Queries.Table.{
  UserRecord, select, IsRowOf, select-column, select-IsRole, select-here,
}
use pomodoro_backend.Auth.Queries.Postgres.{
  user_cells, hash_cells, found, insertion, IsPostgres, IsBcrypt, user_row, answered,
}

module _ (tx : DbTx) (pg : IsPostgres tx) (b : Bcrypt) where
  open pg use {rows}

  cells_lookup :
      (o : Option UserRecord)
      → converted (scanned tx scan_columns (found user_cells o)) ≡ answered user_row o
  cells_lookup none = refl
  cells_lookup (some u) = refl

  hash_lookup_cells :
      (o : Option UserRecord)
      → scanned tx scan_column (found hash_cells o) ≡ answered (λ u. u.password_hash) o
  hash_lookup_cells none = refl
  hash_lookup_cells (some u) = refl

  pub username_lookup :
      (db : tx.Store) (name : String)
      → (repository tx b).get_user_by_username db name
        ≡ answered user_row (select (λ u. u.username) name (rows db))
  unfolding get_user_by_username
  username_lookup db name =
      ap (λ x. converted (scanned tx scan_columns x)) (pg.by_username db name) ∙ cells_lookup _

  email_lookup :
      (db : tx.Store) (email : String)
      → (repository tx b).get_user_by_email db email
        ≡ answered user_row (select (λ u. u.email) email (rows db))
  unfolding get_user_by_email
  email_lookup db email =
      ap (λ x. converted (scanned tx scan_columns x)) (pg.by_email db email) ∙ cells_lookup _

  hash_lookup :
      (db : tx.Store) (name : String)
      → (repository tx b).get_password_hash db name
        ≡ answered (λ u. u.password_hash) (select (λ u. u.username) name (rows db))
  unfolding get_password_hash_by_username
  hash_lookup db name =
      ap (λ x. scanned tx scan_column x) (pg.hash_by_username db name) ∙ hash_lookup_cells _

  -- What an insertion of the repository does to the table.
  pub insertion_lem :
      (db : tx.Store) (p : CreateUserParams)
      → let (db', res) = (repository tx b).insert_user db p in
        ((u : UserRecord) × IsRowOf p u × (res ≡ inl (user_row u)) × (rows db' ≡ u ∷ rows db))
        ⊎ ((e : DbError) × (res ≡ inr e) × (rows db' ≡ rows db))
  unfolding insert_user
  insertion_lem db p = elim (pg.inserted db p) [
    | inl (u, made, cells, put) ↦
        inl (u, made, ap (λ x. converted (scanned tx scan_columns x)) cells, put)
    | inr (e, failed, same) ↦ inr (e, ap (λ x. converted (scanned tx scan_columns x)) failed, same)
  ]

  -- An insertion with an error leaves the table.
  pub insertion_refused :
      (db : tx.Store) (p : CreateUserParams) (e : DbError)
      → (insertion tx db p).1 ≡ inr e
      → let (db', res) = (repository tx b).insert_user db p in (res ≡ inr e) × (rows db' ≡ rows db)
  unfolding insert_user
  insertion_refused db p e at = (
    ap (λ x. converted (scanned tx scan_columns x)) at,
    elim (pg.inserted db p) [
      | inl (u, made, cells, put) ↦
          let other : inr e ≡ inl (user_cells u) = sym at ∙ cells in absurd (cc other)
      | inr (x, failed, same) ↦ same
    ],
  )

  inserted_row :
      (db db' : tx.Store) (p : CreateUserParams) (row : UserRow)
      → (repository tx b).insert_user db p ≡ (db', inl row)
      → (u : UserRecord) × IsRowOf p u × (row ≡ user_row u) × (rows db' ≡ u ∷ rows db)
  inserted_row db db' p row h = elim (insertion_lem db p) [
    | inl (u, made, res, put) ↦
        let same : inl (user_row u) ≡ inl row = sym res ∙ ap (λ x. x.1) h in
        (u, made, cc same, subst (λ x. rows x ≡ u ∷ rows db) (ap (λ x. x.0) h) put)
    | inr (e, failed, same) ↦
        let other : inr e ≡ inl row = sym failed ∙ ap (λ x. x.1) h in absurd (cc other)
  ]

  answered_user :
      (name : String) (users : List UserRecord) (row : UserRow)
      → answered user_row (select (λ u. u.username) name users) ≡ inl row
      → (u : UserRecord) × (select (λ u. u.username) name users ≡ some u) × (row ≡ user_row u)
  answered_user name users row h = elim (Option-cases (select (λ u. u.username) name users)) [
    | inl e ↦ ground arith
    | inr (u, e) ↦ (u, e, ground arith)
  ]

  pub looked_up :
      (db : tx.Store) (name : String) (row : UserRow)
      → (repository tx b).get_user_by_username db name ≡ inl row
      → (u : UserRecord) × (select (λ u. u.username) name (rows db) ≡ some u) × (row ≡ user_row u)
  looked_up db name row h = answered_user name (rows db) row (sym (username_lookup db name) ∙ h)

  -- A row that was just inserted is found by its name.
  here :
      (db db' : tx.Store) (p : CreateUserParams) (u : UserRecord)
      → IsRowOf p u
      → rows db' ≡ u ∷ rows db
      → select (λ x. x.username) p.username (rows db') ≡ some u
  here db db' p u made put = rw put (
      subst (λ n. select (λ x. x.username) n (u ∷ rows db) ≡ some u) made.username
        (select-here (λ x. x.username) (rows db) u))

  -- With the documented behaviour of bcrypt, the repository over a database that answers keeps all
  -- that the guards and the logins rely on: rows that were inserted are found by their name, with
  -- their role and their hash, every row that is found has the name that was asked for and a role
  -- of the type user_role, and passwords fit their hashes.
  pub repository-IsDatabase : IsBcrypt b → IsDatabase (repository tx b)
  repository-IsDatabase bcrypt = record {
    inserted_name = λ db db' p row h.
        let (u, made, same, put) = inserted_row db db' p row h in rw same made.username;
    inserted_role = λ db db' p row h.
        let (u, made, same, put) = inserted_row db db' p row h in rw same made.role;
    by_username-insert = λ db db' p row h.
        let (u, made, same, put) = inserted_row db db' p row h in
        username_lookup db' p.username
        ∙ ap (answered user_row) (here db db' p u made put)
        ∙ ap inl (sym same);
    hash-insert = λ db db' p row h.
        let (u, made, same, put) = inserted_row db db' p row h in
        hash_lookup db' p.username
        ∙ ap (answered (λ x. x.password_hash)) (here db db' p u made put)
        ∙ ap inl made.password_hash;
    found_name = λ db name row h.
        let (u, at, same) = looked_up db name row h in
        rw same (select-column (λ x. x.username) name (rows db) u at);
    found_role = λ db name row h.
        let (u, at, same) = looked_up db name row h in
        rw same (select-IsRole (λ x. x.username) name (rows db) u (pg.users db) at);
    fits-hash = bcrypt.fits-generate;
  }
