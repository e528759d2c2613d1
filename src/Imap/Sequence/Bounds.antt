-- ===== src/Imap/Sequence/Bounds.antt =====
-- The numbers of a sequence set.
use email_server.Base.{
  ℕ, ◌≡◌, ◌≤◌, ◌%◌, ◌^◌, inl, inr, List, [], ◌∷◌, Option, none, some, arith, All, Option-cases, suc,
  take, drop,
}
use email_server.Imap.Sequence.{
  Range, u32_max, last_of, number_or, normalize, range_from, single, parse_range, cons_range,
  ranges, parse, tokens,
}
use email_server.Text.Stream.{stoul}
use email_server.Text.{Text, find_char}

-- A range goes upwards and ends within 32 bits.
abbrev pub InBounds : Range → Type 0
InBounds r = (r.start ≤ last_of r) × (last_of r ≤ u32_max)

-- A result that is there has the property.
abbrev Holds {ℓ} : {A : Type ℓ} → (A → Type 0) → Option A → Type 0
Holds P none = Unit
Holds P (some a) = P a

number_or-below :
    (star : ℕ) (s : Text) → star ≤ u32_max → Holds (λ n. n ≤ u32_max) (number_or star s)
unfolding number_or
number_or-below star s h = elim (Option-cases (stoul s)) [
  | inl e ↦ ground (arith, e)
  | inr (n, e) ↦ let cut : n % 2 ^ 32 ≤ u32_max = omega arith in ground (arith, e, cut)
]

range_from-InBounds :
    (start end : Option ℕ)
    → Holds (λ n. n ≤ u32_max) start
    → Holds (λ n. n ≤ u32_max) end
    → Holds InBounds (range_from start end)
unfolding range_from normalize
range_from-InBounds none none h k = tt
range_from-InBounds none (some n) h k = tt
range_from-InBounds (some m) none h k = tt
range_from-InBounds (some m) (some n) h k = ground arith

single-InBounds : (token : Text) → Holds InBounds (single token)
unfolding single
single-InBounds token = elim (Option-cases (stoul token)) [
  | inl e ↦ ground (arith, e)
  | inr (n, e) ↦ let cut : n % 2 ^ 32 ≤ u32_max = omega arith in ground (arith, e, cut)
]

parse_range-InBounds : (token : Text) → Holds InBounds (parse_range token)
unfolding parse_range
parse_range-InBounds token = elim (Option-cases (find_char b':' token)) [
  | inl e ↦ ground (arith, e, single-InBounds token)
  | inr (colon, e) ↦
      let start = number_or-below u32_max (take colon token) (omega arith) in
      let end = number_or-below 0 (drop (suc colon) token) (omega arith) in
      ground (
        arith,
        e,
        range_from-InBounds (number_or u32_max (take colon token))
            (number_or 0 (drop (suc colon) token)) start end,
      )
]

ranges-InBounds : (ts : List Text) → Holds (All InBounds) (ranges ts)
unfolding ranges cons_range
ranges-InBounds [] = tt
ranges-InBounds (token ∷ rest) = ground (arith, parse_range-InBounds token, ranges-InBounds rest)

-- Every range that `SequenceSet::parse` returns goes upwards and ends within 32 bits, also where the
-- text has its ends in the other order or a number of more than 32 bits.
pub parse-InBounds : (s : Text) (set : List Range) → parse s ≡ some set → All InBounds set
unfolding parse
parse-InBounds s set e = ground (arith, ranges-InBounds (tokens s))
