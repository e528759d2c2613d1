-- ===== src/Auth/Password.antt =====
-- `generate_salt`, `hash_password` and `verify_password` of common/src/auth/authenticator.cpp. The
-- derivation of a key from a password, a salt and a number of rounds is OpenSSL's
-- `PKCS5_PBKDF2_HMAC`, here a parameter; so are the random draws for a salt.
use email_server.Base.{
  ℕ, suc, ◌+◌, ◌-◌, ◌/◌, ◌%◌, ◌^◌, Bool, true, false, not, ◌&&◌, List, [], ◌∷◌, ◌++◌, Option, none,
  some, ltb, leb, ◌==◌, if◌then◌else◌, get_elem?, take, drop,
}
use email_server.Text.Numbers.{scan_digits, is_digit}
use email_server.Text.Stream.{drop_while, skip_ws}
use email_server.Text.{Text, codes, text_eq, is_space, byte_at_is, find_if, find_from, substr}
pub mod Laws

-- A number of an `int`: whether it is negative, and its magnitude.
abbrev pub SignedInt : Type 0
SignedInt = Bool × ℕ

abbrev pub Derive : Type 0
Derive = Text → Text → SignedInt → List ℕ

abbrev pub charset : Text
charset = codes "0123456789ABCDEFGHIJKLMNOPQRSTUVWXYZabcdefghijklmnopqrstuvwxyz./"

-- `Authenticator::generate_salt`, from the draws that the distribution gives.
unfoldable pub generate_salt : List ℕ → Text
generate_salt [] = []
generate_salt (draw ∷ draws) = elim (get_elem? charset draw) [
  | none ↦ generate_salt draws
  | some c ↦ c ∷ generate_salt draws
]

-- A digit of a lower-case hexadecimal number.
unfoldable pub hex_digit : ℕ → ℕ
hex_digit n = if ltb n 10 then b'0' + n else b'a' + (n - 10)

-- `std::hex << std::setw(2) << std::setfill('0')` for each byte.
unfoldable pub hexes : List ℕ → Text
unfolding hex_digit
hexes [] = []
hexes (byte ∷ bytes) = hex_digit (byte / 16) ∷ hex_digit (byte % 16) ∷ hexes bytes

abbrev pub scheme : Text
scheme = codes "$pbkdf2-sha256"

-- `Authenticator::hash_password` with a salt.
unfoldable pub hash_password : Derive → Text → Text → Text
unfolding hexes
hash_password derive password salt =
    scheme
    ++ (b'$'
        ∷ (codes "100000"
            ++ (b'$' ∷ (salt ++ (b'$' ∷ hexes (derive password salt (false, 100000)))))))

-- `std::stoi` behind white space; `none` is its exception.
unfoldable pub int_value : Bool → Text → Option SignedInt
unfolding scan_digits
int_value negative [] = none
int_value negative (c ∷ s) =
    let n = scan_digits 0 (c ∷ s) in
    if is_digit c && leb n (if negative then 2 ^ 31 else 2 ^ 31 - 1)
    then some (negative, n)
    else none

unfoldable pub signed_int : Text → Option SignedInt
unfolding int_value
signed_int [] = none
signed_int (c ∷ s) =
    if c == b'-'
    then int_value true s
    else if c == b'+'
    then int_value false s
    else int_value false (c ∷ s)

-- The end of `verify_password`: the key derived again, and compared.
unfoldable pub compare_key : Derive → Text → Text → Text → Option SignedInt → Option Bool
unfolding hexes
compare_key derive password salt stored_hash none = none
compare_key derive password salt stored_hash (some iterations) =
    some (text_eq (hexes (derive password salt iterations)) stored_hash)

-- What is left of the hash behind the rounds, from the dollar at `pos2`.
unfoldable pub verify_rounds : Derive → Text → Text → ℕ → Option Bool
unfolding compare_key signed_int drop_while is_space find_from
verify_rounds derive password hash pos2 =
    let iterations = signed_int (skip_ws (substr hash 15 (pos2 - 15))) in
    elim iterations [
      | none ↦ none
      | some rounds ↦ elim (find_from b'$' hash (pos2 + 1)) [
        | none ↦ some false
        | some pos3 ↦
            compare_key derive password (substr hash (pos2 + 1) (pos3 - pos2 - 1))
              (drop (pos3 + 1) hash) (some rounds)
      ]
    ]

-- `Authenticator::verify_password`; `none` is the exception of `std::stoi`.
unfoldable pub verify_password : Derive → Text → Text → Option Bool
unfolding verify_rounds byte_at_is find_from
verify_password derive password hash =
    if not (text_eq (take 14 hash) scheme)
    then some false
    else if not (byte_at_is b'$' hash 14)
    then some false
    else elim (find_from b'$' hash 15) [
      | none ↦ some false
      | some pos2 ↦ verify_rounds derive password hash pos2
    ]
