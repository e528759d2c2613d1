-- ===== src/Text/Decimal.antt =====
-- `std::stoul` on what `std::to_string` writes.
use email_server.Base.{ℕ, ◌≡◌, ◌<◌, ◌^◌, true, ◌∷◌, some, arith, All, sym, ◌∙◌, ap, subst}
use email_server.Text.Numbers.{
  to_string, to_string-All, to_string-cons, scan_digits-to_string, scan_digits, magnitude, signed,
  is_digit,
}
use email_server.Text.Stream.{stoul, drop_while}
use email_server.Text.{Text, is_space}

stoul-cons :
    (c : ℕ) (s : Text)
    → is_digit c ≡ true
    → scan_digits 0 (c ∷ s) < 2 ^ 64
    → stoul (c ∷ s) ≡ some (scan_digits 0 (c ∷ s))
unfolding stoul drop_while is_space signed magnitude
stoul-cons c s h bound = ground arith

-- A number of 64 bits is read again as it was written.
pub stoul-to_string : (n : ℕ) → n < 2 ^ 64 → stoul (to_string n) ≡ some n
stoul-to_string n bound =
    let (c, s, e) = to_string-cons n in
    let value = scan_digits-to_string n in
    let digits = subst (All (λ d. is_digit d ≡ true)) e (to_string-All n) in
    let read : scan_digits 0 (c ∷ s) ≡ n = ap (scan_digits 0) (sym e) ∙ value in
    ap stoul e ∙ (stoul-cons c s digits.0 (omega (arith, read, bound)) ∙ ap some read)
