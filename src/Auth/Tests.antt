-- ===== src/Auth/Tests.antt =====
-- Accounts over a small table, and a key that is the password and the salt themselves.
use email_server.Auth.Accounts.{Statements, Outcome, create_user, set_user_active, authenticate}
use email_server.Auth.Accounts.Laws.{create_user-authenticate, set_user_active-authenticate}
use email_server.Auth.Password.Laws.{Bytes}
use email_server.Auth.Password.{SignedInt, Derive, generate_salt}
use email_server.Base.{
  ◌%◌, ◌≡◌, refl, inl, inr, Bool-cases, true, false, ◌&&◌, if◌then◌else◌, List, [], ◌∷◌, ◌++◌, map,
  Option, none, some, arith,
}
use email_server.Text.Laws.{text_eq_refl}
use email_server.Text.{Text, codes, text_eq}
use mathlib.Core.Option

abbrev joined : Derive
joined = λ word salt rounds. map (λ c. c % 256) (word ++ salt)

map-Bytes : (s : Text) → Bytes (map (λ c. c % 256) s)
map-Bytes [] = tt
map-Bytes (c ∷ s) = (omega arith, map-Bytes s)

joined-Bytes : (word salt : Text) (rounds : SignedInt) → Bytes (joined word salt rounds)
joined-Bytes word salt rounds = map-Bytes (word ++ salt)

abbrev Entry : Type 0
Entry = Text × Text × Text × SignedInt

-- The first row of a name at a domain.
unfoldable credentials : Text → Text → List Entry → Option (Text × SignedInt)
credentials user domain [] = none
credentials user domain ((name, host, hash, active) ∷ d) =
    let rest = credentials user domain d in
    if text_eq name user && text_eq host domain then some (hash, active) else rest

unfoldable switch : SignedInt → Text → Text → List Entry → List Entry
switch value user domain [] = []
switch value user domain ((name, host, hash, active) ∷ d) =
    let rest = switch value user domain d in
    if text_eq name user && text_eq host domain
    then (name, host, hash, value) ∷ rest
    else (name, host, hash, active) ∷ rest

credentials-switch :
    (value : SignedInt) (user domain : Text) (d : List Entry)
    → credentials user domain (switch value user domain d)
      ≡ Option.map (λ row. (row.0, value)) (credentials user domain d)
unfolding credentials switch
credentials-switch value user domain [] = refl
credentials-switch value user domain ((name, host, hash, active) ∷ d) =
    let rest = credentials-switch value user domain d in
    elim (Bool-cases (text_eq name user && text_eq host domain)) [
      | inl e ↦ ground (arith, e, rest)
      | inr e ↦ ground (arith, e, rest)
    ]

abbrev unchanged : List Entry → Outcome (List Entry)
unchanged = λ d. record { done = true; changes = 1; database = d }

abbrev table : Statements (List Entry)
table = record {
  select_credentials = credentials;
  select_active_hash = λ user domain d. none;
  select_user = λ user domain d. none;
  select_users = λ d. [];
  select_users_of = λ domain d. [];
  insert_user = λ user domain hash quota d. unchanged ((user, domain, hash, (false, 1)) ∷ d);
  remove_user = λ user domain d. unchanged d;
  update_hash = λ hash user domain d. unchanged d;
  update_active = λ value user domain d. unchanged (switch value user domain d);
  update_quota_bytes = λ quota user domain d. unchanged d;
  update_used_bytes = λ used user domain d. unchanged d;
  select_local = λ domain d. true;
  select_domain = λ domain d. none;
  select_domains = λ d. [];
  insert_or_ignore_domain = λ domain d. unchanged d;
  insert_domain = λ domain d. unchanged d;
  remove_domain = λ domain d. unchanged d;
  update_domain_active = λ value domain d. unchanged d;
}

table-inserted :
    (user domain hash : Text) (quota : SignedInt) (d : List Entry)
    → (table.insert_user user domain hash quota d).done ≡ true
    → table.select_credentials user domain (table.insert_user user domain hash quota d).database
      ≡ some (hash, (false, 1))
unfolding credentials
table-inserted user domain hash quota d done = rw (text_eq_refl user, text_eq_refl domain) refl

create_user-authenticate_example :
    authenticate table joined
      (codes "ann@b.org")
      (codes "word")
      (create_user table joined
        (7 ∷ 9 ∷ [])
        (codes "ann")
        (codes "secret")
        (codes "b.org")
        (false, 5)
        []).1
    ≡ some false
unfolding codes text_eq generate_salt create_user
create_user-authenticate_example =
    create_user-authenticate table joined (7 ∷ 9 ∷ []) (codes "ann") (codes "secret") (codes "word")
      (codes "b.org") (false, 5) [] joined-Bytes table-inserted (refl, (refl, (refl, tt))) refl

set_user_active-authenticate_example :
    authenticate table joined
      (codes "ann@b.org")
      (codes "secret")
      (set_user_active table joined
        (codes "ann@b.org")
        false
        ((codes "ann", codes "b.org", codes "$pbkdf2-sha256$x", (false, 1)) ∷ [])).1
    ≡ some false
unfolding set_user_active
set_user_active-authenticate_example =
    set_user_active-authenticate table joined (codes "ann@b.org") (codes "secret")
      ((codes "ann", codes "b.org", codes "$pbkdf2-sha256$x", (false, 1)) ∷ [])
      (λ value user domain e done. credentials-switch value user domain e) refl
