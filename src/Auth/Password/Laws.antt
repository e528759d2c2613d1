-- ===== src/Auth/Password/Laws.antt =====
-- What `verify_password` says of a hash that `hash_password` has made.
use email_server.Auth.Password.{
  SignedInt, Derive, charset, generate_salt, hex_digit, hexes, scheme, hash_password, compare_key,
  verify_rounds, verify_password,
}
use email_server.Base.{
  ℕ, zero, suc, ◌+◌, ◌-◌, ◌/◌, ◌%◌, ◌<◌, ◌≡◌, refl, ap, ◌∙◌, sym, get_elem?, inl, inr, Option-cases,
  false, List, [], ◌∷◌, ◌++◌, some, arith, All, length, take, drop, ◌==◌, take-append_length,
}
use email_server.Text.Numbers.{scan_digits}
use email_server.Text.{Text, codes, text_eq, find_if, substr}

abbrev pub NoDollar : Text → Type 0
NoDollar = All (λ c. (c == b'$') ≡ false)

abbrev pub Bytes : List ℕ → Type 0
Bytes = All (λ b. b < 256)

hex_digit-injective : (m n : ℕ) → m < 16 → n < 16 → (hex_digit m == hex_digit n) ≡ (m == n)
unfolding hex_digit
hex_digit-injective m n h k = ground arith

text_eq-hexes : (a b : List ℕ) → Bytes a → Bytes b → text_eq (hexes a) (hexes b) ≡ text_eq a b
unfolding text_eq hexes
text_eq-hexes [] [] h k = refl
text_eq-hexes [] (y ∷ b) h k = refl
text_eq-hexes (x ∷ a) [] h k = refl
text_eq-hexes (x ∷ a) (y ∷ b) h k =
    let high = hex_digit-injective (x / 16) (y / 16) (omega (arith, h.0)) (omega (arith, k.0)) in
    let low = hex_digit-injective (x % 16) (y % 16) (omega arith) (omega arith) in
    ground (arith, high, low, text_eq-hexes a b h.1 k.1)

find_dollar-append :
    (s rest : Text) → NoDollar s → find_if (λ d. d == b'$') (s ++ (b'$' ∷ rest)) ≡ some (length s)
unfolding find_if
find_dollar-append [] rest h = ground arith
find_dollar-append (c ∷ s) rest h = ground (arith, find_dollar-append s rest h.1)

drop_nil : (n : ℕ) → drop {A = ℕ} n [] ≡ []
drop_nil zero = refl
drop_nil (suc n) = refl

drop_add : (m n : ℕ) (s : Text) → drop (m + n) s ≡ drop n (drop m s)
drop_add zero n s = ap (λ k. drop k s) (omega arith)
drop_add (suc m) n [] = drop_nil (suc m + n) ∙ sym (drop_nil n)
drop_add (suc m) n (c ∷ s) =
    let step : suc m + n ≡ suc (m + n) = omega arith in
    ap (λ k. drop k (c ∷ s)) step ∙ drop_add m n s

drop-behind : (s rest : Text) → drop (suc (length s)) (s ++ (b'$' ∷ rest)) ≡ rest
drop-behind [] rest = refl
drop-behind (c ∷ s) rest = drop-behind s rest

compare_key_lem :
    (derive : Derive) (password salt stored : Text)
    → compare_key derive password salt stored (some (false, 100000))
      ≡ some (text_eq (hexes (derive password salt (false, 100000))) stored)
unfolding compare_key
compare_key_lem derive password salt stored = refl

verify_rounds-hash :
    (derive : Derive) (password salt stored : Text)
    → NoDollar salt
    → verify_rounds derive password
        (scheme ++ (b'$' ∷ (codes "100000" ++ (b'$' ∷ (salt ++ (b'$' ∷ stored))))))
        21
      ≡ some (text_eq (hexes (derive password salt (false, 100000))) stored)
unfolding verify_rounds codes scan_digits
verify_rounds-hash derive password salt stored h =
    let hash : Text = scheme ++ (b'$' ∷ (codes "100000" ++ (b'$' ∷ (salt ++ (b'$' ∷ stored))))) in
    let found = find_dollar-append salt stored h in
    let inner : 21 + 1 + length salt - 21 - 1 ≡ length salt = omega arith in
    let middle : substr hash (21 + 1) (21 + 1 + length salt - 21 - 1) ≡ salt =
      ap (λ n. take n (salt ++ (b'$' ∷ stored))) inner ∙ take-append_length salt (b'$' ∷ stored) in
    let outer : 21 + 1 + length salt + 1 ≡ 22 + suc (length salt) = omega arith in
    let last : drop (21 + 1 + length salt + 1) hash ≡ stored =
      ap (λ n. drop n hash) outer
      ∙ (drop_add 22 (suc (length salt)) hash ∙ drop-behind salt stored) in
    let keyed = compare_key_lem derive password salt stored in
    ground (arith, found, middle, last, keyed)

get_elem?-NoDollar :
    (s : Text) (i c : ℕ) → NoDollar s → get_elem? s i ≡ some c → (c == b'$') ≡ false
get_elem?-NoDollar [] i c h e = cc
get_elem?-NoDollar (d ∷ s) zero c h e = ground arith
get_elem?-NoDollar (d ∷ s) (suc i) c h e = get_elem?-NoDollar s i c h.1 e

charset-NoDollar : NoDollar charset
unfolding codes
charset-NoDollar = ground arith

generate_salt-NoDollar : (draws : List ℕ) → NoDollar (generate_salt draws)
unfolding generate_salt
generate_salt-NoDollar [] = tt
generate_salt-NoDollar (draw ∷ draws) =
    let rest = generate_salt-NoDollar draws in
    elim (Option-cases (get_elem? charset draw)) [
      | inl e ↦ rw (e, generate_salt) rest
      | inr (c, e) ↦
          rw (e, generate_salt) (get_elem?-NoDollar charset draw c charset-NoDollar e, rest)
    ]

-- Where keys are derived as bytes, `verify_password` accepts a password for the hash that was made of
-- another, or the same, exactly where the keys derived from both with the hash's salt are the same,
-- whatever salt was drawn; it does not throw.
pub verify_password-hash_password :
    (derive : Derive) (password other : Text) (draws : List ℕ)
    → ((word salt : Text) (rounds : SignedInt) → Bytes (derive word salt rounds))
    → let salt = generate_salt draws in
      verify_password derive other (hash_password derive password salt)
      ≡ some (text_eq (derive other salt (false, 100000)) (derive password salt (false, 100000)))
unfolding verify_password hash_password codes text_eq
verify_password-hash_password derive password other draws bytes =
    let salt = generate_salt draws in
    let key = derive password salt (false, 100000) in
    let again = derive other salt (false, 100000) in
    verify_rounds-hash derive other salt (hexes key) (generate_salt-NoDollar draws)
    ∙ ap some (
        text_eq-hexes again key (bytes other salt (false, 100000))
          (bytes password salt (false, 100000)))
