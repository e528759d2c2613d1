-- ===== src/Auth.antt =====
-- common/include/auth/authenticator.hpp and common/src/auth/authenticator.cpp: `parse_email`, and
-- the queries that the sessions make. SQLite and OpenSSL answer the queries, so they are operations
-- of an interface that the sessions take as a parameter.
pub mod Accounts
pub mod Password
mod Tests
use email_server.Base.{suc, ◌≡◌, refl, Bool, none, some, [], take, drop}
use email_server.Text.{Text, codes, find_if, find_char}

-- What the sessions ask, of a database whose stored hashes `verify_password` can read; the exception for
-- any other hash is modelled in Auth/Accounts. `authenticate`, whether `get_user` finds a row, and `is_local_domain`.
pub record Authenticator : Type 0 where
  pub authenticate : Text → Text → Bool
  pub has_user : Text → Bool
  pub is_local_domain : Text → Bool

-- The text in front of the first `@`, and the text behind it.
unfoldable pub parse_email : Text → Text × Text
unfolding find_if
parse_email email = elim (find_char b'@' email) [
  | none ↦ (email, [])
  | some at ↦ (take at email, drop (suc at) email)
]

parse_email_test : parse_email (codes "ann@b.org") ≡ (codes "ann", codes "b.org")
unfolding parse_email codes
parse_email_test = refl
