-- ===== src/Auth/Accounts.antt =====
-- The accounts of common/src/auth/authenticator.cpp: authentication and the administration of users
-- and domains, one function for each function there. SQLite runs the statements, so each statement
-- is an operation of an interface, over a database of any type. A statement that cannot be
-- prepared counts as one that is not done, or that finds no row. The mutex and `last_error_`, which
-- is only printed, are left out.
use email_server.Auth.Password.{SignedInt, Derive, generate_salt, hash_password, verify_password}
use email_server.Auth.{parse_email}
use email_server.Base.{
  ℕ, Bool, true, false, not, ◌&&◌, List, [], Option, none, some, map, is_empty, ltb, ◌==◌,
  if◌then◌else◌, take,
}
use email_server.Text.{Text}
pub mod Laws

-- The columns of a row of `users` that `get_user` selects; `none` is NULL.
pub record UserRow : Type 0 where
  pub row_id : SignedInt
  pub row_username : Text
  pub row_domain : Text
  pub row_quota : SignedInt
  pub row_used : SignedInt
  pub row_active : SignedInt
  pub row_created : Option Text

pub record DomainRow : Type 0 where
  pub domain_id : SignedInt
  pub domain_name : Text
  pub domain_active : SignedInt

pub record User : Type 0 where
  pub user_id : SignedInt
  pub username : Text
  pub domain : Text
  pub quota_bytes : SignedInt
  pub used_bytes : SignedInt
  pub active : Bool
  pub created_at : Text

pub record Domain : Type 0 where
  pub id : SignedInt
  pub domain : Text
  pub active : Bool

-- Whether a statement is done, how many rows it changed, and the database behind it.
pub record Outcome {ℓ} (D : Type ℓ) : Type ℓ where
  pub done : Bool
  pub changes : ℕ
  pub database : D

-- The statements of the source; those of `select` are queries.
pub record Statements {ℓ} (D : Type ℓ) : Type ℓ where
  -- `SELECT password_hash, active`, and `SELECT password_hash` with `active = 1`
  pub select_credentials : Text → Text → D → Option (Text × SignedInt)
  pub select_active_hash : Text → Text → D → Option Text
  pub select_user : Text → Text → D → Option UserRow
  pub select_users : D → List UserRow
  pub select_users_of : Text → D → List UserRow
  pub insert_user : Text → Text → Text → SignedInt → D → Outcome D
  pub remove_user : Text → Text → D → Outcome D
  pub update_hash : Text → Text → Text → D → Outcome D
  pub update_active : SignedInt → Text → Text → D → Outcome D
  pub update_quota_bytes : SignedInt → Text → Text → D → Outcome D
  pub update_used_bytes : SignedInt → Text → Text → D → Outcome D
  pub select_local : Text → D → Bool
  pub select_domain : Text → D → Option DomainRow
  pub select_domains : D → List DomainRow
  pub insert_or_ignore_domain : Text → D → Outcome D
  pub insert_domain : Text → D → Outcome D
  pub remove_domain : Text → D → Outcome D
  pub update_domain_active : SignedInt → Text → D → Outcome D

-- An `int` as a truth value, and a truth value as an `int`.
unfoldable pub is_nonzero : SignedInt → Bool
is_nonzero (negative, magnitude) = not (magnitude == 0)

unfoldable pub flag_value : Bool → SignedInt
flag_value true = (false, 1)
flag_value false = (false, 0)

unfoldable pub user_of : UserRow → User
unfolding is_nonzero
user_of row = record {
  user_id = row.row_id;
  username = row.row_username;
  domain = row.row_domain;
  quota_bytes = row.row_quota;
  used_bytes = row.row_used;
  active = is_nonzero row.row_active;
  created_at = elim row.row_created [ none ↦ [] | some written ↦ written ];
}

unfoldable pub domain_of : DomainRow → Domain
unfolding is_nonzero
domain_of row = record {
  id = row.domain_id;
  domain = row.domain_name;
  active = is_nonzero row.domain_active;
}

-- A row of credentials against a password.
unfoldable pub accepts : Derive → Text → Option (Text × SignedInt) → Option Bool
unfolding is_nonzero
accepts derive password none = some false
accepts derive password (some (stored_hash, active)) =
    if is_nonzero active then verify_password derive password stored_hash else some false

-- Whether a statement is done and has changed a row.
unfoldable pub has_changed {ℓ} : {D : Type ℓ} → Outcome D → Bool
has_changed outcome = outcome.done && ltb 0 outcome.changes

module _ {ℓ} {D : Type ℓ} (sql : Statements D) (derive : Derive) where
  -- `none` is the exception of `verify_password`.
  unfoldable pub authenticate_plain : Text → Text → D → Option Bool
  unfolding accepts parse_email
  authenticate_plain username password d =
      let (user, domain) = parse_email username in
      accepts derive password (sql.select_credentials user domain d)

  unfoldable pub authenticate : Text → Text → D → Option Bool
  unfolding authenticate_plain
  authenticate username password d = authenticate_plain username password d

  unfoldable pub authenticate_login : Text → Text → D → Option Bool
  unfolding authenticate_plain
  authenticate_login username password d = authenticate_plain username password d

  -- The row is found, and nothing is made of it.
  unfoldable pub authenticate_cram_md5 : Text → Text → Text → D → Bool
  unfolding parse_email
  authenticate_cram_md5 username challenge response d =
      let (user, domain) = parse_email username in
      elim (sql.select_active_hash user domain d) [ none ↦ false | some hash ↦ false ]

  unfoldable pub is_local_domain : Text → D → Bool
  is_local_domain domain d = sql.select_local domain d

  -- The domain is there behind it, whether or not it is active.
  unfoldable pub ensure_domain : Text → D → D
  unfolding is_local_domain
  ensure_domain domain d =
      if is_local_domain domain d then d else (sql.insert_or_ignore_domain domain d).database

  -- The draws are those of the salt.
  unfoldable pub create_user : List ℕ → Text → Text → Text → SignedInt → D → Bool × D
  unfolding ensure_domain
  create_user draws username password domain quota d =
      let hash = hash_password derive password (generate_salt (take 16 draws)) in
      let outcome = sql.insert_user username domain hash quota (ensure_domain domain d) in
      (outcome.done, outcome.database)

  unfoldable pub delete_user : Text → D → Bool × D
  unfolding parse_email has_changed
  delete_user username d =
      let (user, domain) = parse_email username in
      let outcome = sql.remove_user user domain d in (has_changed outcome, outcome.database)

  unfoldable pub change_password : List ℕ → Text → Text → D → Bool × D
  unfolding parse_email has_changed
  change_password draws username new_password d =
      let (user, domain) = parse_email username in
      let hash = hash_password derive new_password (generate_salt (take 16 draws)) in
      let outcome = sql.update_hash hash user domain d in (has_changed outcome, outcome.database)

  unfoldable pub set_user_active : Text → Bool → D → Bool × D
  unfolding parse_email flag_value
  set_user_active username active d =
      let (user, domain) = parse_email username in
      let outcome = sql.update_active (flag_value active) user domain d in
      (outcome.done, outcome.database)

  unfoldable pub update_quota : Text → SignedInt → D → Bool × D
  unfolding parse_email
  update_quota username quota d =
      let (user, domain) = parse_email username in
      let outcome = sql.update_quota_bytes quota user domain d in (outcome.done, outcome.database)

  unfoldable pub update_used_space : Text → SignedInt → D → Bool × D
  unfolding parse_email
  update_used_space username used d =
      let (user, domain) = parse_email username in
      let outcome = sql.update_used_bytes used user domain d in (outcome.done, outcome.database)

  unfoldable pub get_user : Text → D → Option User
  unfolding parse_email user_of
  get_user username d =
      let (user, domain) = parse_email username in
      elim (sql.select_user user domain d) [ none ↦ none | some row ↦ some (user_of row) ]

  unfoldable pub list_users : Text → D → List User
  unfolding user_of
  list_users domain d =
      map user_of (if is_empty domain then sql.select_users d else sql.select_users_of domain d)

  unfoldable pub create_domain : Text → D → Bool × D
  create_domain domain d =
      let outcome = sql.insert_domain domain d in (outcome.done, outcome.database)

  unfoldable pub delete_domain : Text → D → Bool × D
  unfolding has_changed
  delete_domain domain d =
      let outcome = sql.remove_domain domain d in (has_changed outcome, outcome.database)

  unfoldable pub set_domain_active : Text → Bool → D → Bool × D
  unfolding flag_value
  set_domain_active domain active d =
      let outcome = sql.update_domain_active (flag_value active) domain d in
      (outcome.done, outcome.database)

  unfoldable pub get_domain : Text → D → Option Domain
  unfolding domain_of
  get_domain domain d = elim (sql.select_domain domain d) [
    | none ↦ none
    | some row ↦ some (domain_of row)
  ]

  unfoldable pub list_domains : D → List Domain
  unfolding domain_of
  list_domains d = map domain_of (sql.select_domains d)
