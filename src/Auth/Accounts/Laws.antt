-- ===== src/Auth/Accounts/Laws.antt =====
-- Who is authenticated after `create_user` and after `set_user_active`, over any database that keeps
-- what the statements write.
use email_server.Auth.Accounts.{
  Statements, authenticate, authenticate_plain, accepts, create_user, ensure_domain,
  set_user_active, flag_value, is_nonzero,
}
use email_server.Auth.Password.Laws.{Bytes, verify_password-hash_password}
use email_server.Auth.Password.{SignedInt, Derive, generate_salt, hash_password}
use email_server.Auth.{parse_email}
use email_server.Base.{
  ℕ, suc, ◌≡◌, refl, ap, ◌∙◌, true, false, List, [], ◌∷◌, ◌++◌, Option, none, some, arith, All,
  length, take, drop, ◌==◌, take-append_length,
}
use mathlib.Core.Option
use email_server.Text.{Text, text_eq, find_if, find_char}

abbrev pub NoAt : Text → Type 0
NoAt = All (λ c. (c == b'@') ≡ false)

find_at-append :
    (user domain : Text) → NoAt user → find_char b'@' (user ++ (b'@' ∷ domain)) ≡ some (length user)
unfolding find_if
find_at-append [] domain h = ground arith
find_at-append (c ∷ user) domain h = ground (arith, find_at-append user domain h.1)

drop-at : (user domain : Text) → drop (suc (length user)) (user ++ (b'@' ∷ domain)) ≡ domain
drop-at [] domain = refl
drop-at (c ∷ user) domain = drop-at user domain

parse_email-append :
    (user domain : Text) → NoAt user → parse_email (user ++ (b'@' ∷ domain)) ≡ (user, domain)
unfolding parse_email
parse_email-append user domain h =
    rw
      (
        find_at-append user domain h,
        take-append_length user (b'@' ∷ domain),
        drop-at user domain,
        parse_email,
      )
      refl

module _ {ℓ} {D : Type ℓ} (sql : Statements D) (derive : Derive) where
  authenticate-row :
      (username password : Text) (d : D) (row : Option (Text × SignedInt))
      → (let (user, domain) = parse_email username in sql.select_credentials user domain d) ≡ row
      → authenticate sql derive username password d ≡ accepts derive password row
  unfolding authenticate authenticate_plain
  authenticate-row username password d row e = ap (accepts derive password) e

  accepts-hash :
      (password other : Text) (draws : List ℕ)
      → ((word salt : Text) (rounds : SignedInt) → Bytes (derive word salt rounds))
      → let salt = generate_salt draws in
        accepts derive other (some (hash_password derive password salt, (false, 1)))
        ≡ some (text_eq (derive other salt (false, 100000)) (derive password salt (false, 100000)))
  unfolding accepts is_nonzero
  accepts-hash password other draws bytes =
      verify_password-hash_password derive password other draws bytes

  -- Where keys are derived as bytes, and an insertion that is done leaves a row with the hash and
  -- the value 1 of `active` to be found: once `create_user` has succeeded for a name without an @,
  -- this name at this domain is authenticated with a password exactly where the key derived from it
  -- is the one derived from the password given, whatever salt was drawn.
  pub create_user-authenticate :
      (draws : List ℕ) (username password other domain : Text) (quota : SignedInt) (d : D)
      → ((word salt : Text) (rounds : SignedInt) → Bytes (derive word salt rounds))
      → ((user host hash : Text) (bytes : SignedInt) (e : D)
          → (sql.insert_user user host hash bytes e).done ≡ true
          → sql.select_credentials user host (sql.insert_user user host hash bytes e).database
            ≡ some (hash, (false, 1)))
      → NoAt username
      → (create_user sql derive draws username password domain quota d).0 ≡ true
      → let salt = generate_salt (take 16 draws) in
        authenticate sql derive
          (username ++ (b'@' ∷ domain))
          other
          (create_user sql derive draws username password domain quota d).1
        ≡ some (text_eq (derive other salt (false, 100000)) (derive password salt (false, 100000)))
  unfolding create_user
  create_user-authenticate draws username password other domain quota d bytes inserted no_at made =
      let hash = hash_password derive password (generate_salt (take 16 draws)) in
      let behind = (create_user sql derive draws username password domain quota d).1 in
      let found = inserted username domain hash quota (ensure_domain sql derive domain d) made in
      authenticate-row (username ++ (b'@' ∷ domain)) other behind (some (hash, (false, 1))) (
        ap (λ p. sql.select_credentials p.0 p.1 behind) (parse_email-append username domain no_at)
        ∙ found)
      ∙ accepts-hash password other (take 16 draws) bytes

  accepts-off :
      (password : Text) (row : Option (Text × SignedInt))
      → accepts derive password (Option.map (λ r. (r.0, (false, 0))) row) ≡ some false
  unfolding accepts is_nonzero
  accepts-off password none = refl
  accepts-off password (some row) = refl

  -- Where an update of `active` that is done keeps the hash of the row with the name, if there is
  -- one, and sets its `active`: once `set_user_active` has succeeded in switching a user off, no
  -- password is accepted for him, and none makes `authenticate` throw.
  pub set_user_active-authenticate :
      (username password : Text) (d : D)
      → ((value : SignedInt) (user domain : Text) (e : D)
          → (sql.update_active value user domain e).done ≡ true
          → sql.select_credentials user domain (sql.update_active value user domain e).database
            ≡ Option.map (λ row. (row.0, value)) (sql.select_credentials user domain e))
      → (set_user_active sql derive username false d).0 ≡ true
      → authenticate sql derive username password (set_user_active sql derive username false d).1
        ≡ some false
  unfolding set_user_active flag_value accepts is_nonzero
  set_user_active-authenticate username password d updated done =
      let user = (parse_email username).0 in
      let domain = (parse_email username).1 in
      let old = sql.select_credentials user domain d in
      let switched = updated (false, 0) user domain d done in
      authenticate-row username password (set_user_active sql derive username false d).1
        (Option.map (λ row. (row.0, (false, 0))) old) switched
      ∙ accepts-off password old
