-- ===== src/Text/Sets.antt =====
-- `std::set` as a list in ascending order, by the test that orders its elements: bytes, and texts
-- byte by byte.
pub mod Laws
use email_server.Base.{
  ℕ, ◌≡◌, refl, Bool, true, false, not, ◌&&◌, ◌||◌, List, [], ◌∷◌, ltb, ◌==◌, if◌then◌else◌, arith,
}
use email_server.Text.{Text}

-- `operator<` of `std::string`.
unfoldable pub text_less : Text → Text → Bool
text_less [] [] = false
text_less [] (d ∷ t) = true
text_less (c ∷ s) [] = false
text_less (c ∷ s) (d ∷ t) = ltb c d || (c == d && text_less s t)

module _ {ℓ} {A : Type ℓ} (less : A → A → Bool) where
  -- `count`, by the equivalence that the order gives.
  unfoldable pub member : A → List A → Bool
  member x [] = false
  member x (y ∷ ys) = (not (less x y) && not (less y x)) || member x ys

  -- `insert` of one element.
  unfoldable pub insert : A → List A → List A
  insert x [] = x ∷ []
  insert x (y ∷ ys) =
      let rest = insert x ys in
      if less x y then x ∷ y ∷ ys else if less y x then y ∷ rest else y ∷ ys

  -- `insert` of a range.
  unfoldable pub insert_all : List A → List A → List A
  unfolding insert
  insert_all [] ys = ys
  insert_all (x ∷ xs) ys = insert_all xs (insert x ys)

  -- `erase` of one element.
  unfoldable pub erase : A → List A → List A
  erase x [] = []
  erase x (y ∷ ys) =
      let rest = erase x ys in if not (less x y) && not (less y x) then ys else y ∷ rest

  -- `erase` of every element of a range.
  unfoldable pub erase_all : List A → List A → List A
  unfolding erase
  erase_all [] ys = ys
  erase_all (x ∷ xs) ys = erase_all xs (erase x ys)
