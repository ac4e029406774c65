-- ===== src/Texts.antt =====
-- The operations of the standard library on texts and lists that examples/fingerprint_check.rs and
-- src/testserver.rs use.
use grindr_rs.Prelude.{
  ℕ, suc, Bool, true, false, ◌&&◌, Option, none, some, List, [], ◌∷◌, ◌++◌, Text, text_eq,
  starts_with, map_option, if◌then◌else◌, ltb, ◌==◌,
}

push_front : ℕ → List Text → List Text
push_front b [] = (b ∷ []) ∷ []
push_front b (piece ∷ pieces) = (b ∷ piece) ∷ pieces

-- `str::split` at an ASCII character.
unfoldable pub split : Text → ℕ → List Text
unfolding push_front
split [] c = [] ∷ []
split (b ∷ s) c = let rest = split s c in if b == c then [] ∷ rest else push_front b rest

-- The first piece of `str::split` at a text.
unfoldable pub before : Text → Text → Text
unfolding starts_with
before [] needle = []
before (b ∷ s) needle =
    let rest = before s needle in if starts_with needle (b ∷ s) then [] else b ∷ rest

-- `str::find` of a text that is not empty.
unfoldable pub find : Text → Text → Option ℕ
unfolding starts_with
find [] needle = none
find (b ∷ s) needle = if starts_with needle (b ∷ s) then some 0 else map_option suc (find s needle)

-- `[&str]::join`.
unfoldable pub join : List Text → Text → Text
join [] separator = []
join (piece ∷ []) separator = piece
join (piece ∷ p ∷ pieces) separator = piece ++ (separator ++ join (p ∷ pieces) separator)

-- The order of texts, byte by byte.
unfoldable pub text_le : Text → Text → Bool
text_le [] t = true
text_le (a ∷ s) [] = false
text_le (a ∷ s) (b ∷ t) = if a == b then text_le s t else ltb a b

unfoldable pub strip_prefix : Text → Text → Option Text
strip_prefix s [] = some s
strip_prefix [] (p ∷ ps) = none
strip_prefix (b ∷ s) (p ∷ ps) = if b == p then strip_prefix s ps else none

module _ {ℓ} {A : Type ℓ} where
  module _ (le : A → A → Bool) where
    unfoldable pub insert : A → List A → List A
    insert x [] = x ∷ []
    insert x (y ∷ ys) = let rest = insert x ys in if le x y then x ∷ y ∷ ys else y ∷ rest

    -- `[T]::sort`, of values that are equal when neither is less.
    unfoldable pub sort : List A → List A
    unfolding insert
    sort [] = []
    sort (x ∷ xs) = insert x (sort xs)

  module _ (p : A → Bool) where
    -- `Iterator::position`, `find` and `take_while`.
    unfoldable pub position : List A → Option ℕ
    position [] = none
    position (x ∷ xs) = if p x then some 0 else map_option suc (position xs)

    unfoldable pub find_first : List A → Option A
    find_first [] = none
    find_first (x ∷ xs) = if p x then some x else find_first xs

    unfoldable pub take_while : List A → List A
    take_while [] = []
    take_while (x ∷ xs) = if p x then x ∷ take_while xs else []

  abbrev pub push_some : Option A → List A → List A
  push_some none xs = xs
  push_some (some x) xs = x ∷ xs

  unfoldable pub filter_map {κ} : {B : Type κ} → (B → Option A) → List B → List A
  filter_map f [] = []
  filter_map f (y ∷ ys) = push_some (f y) (filter_map f ys)

unfoldable pub texts_eq : List Text → List Text → Bool
unfolding text_eq
texts_eq [] [] = true
texts_eq [] (t ∷ ts) = false
texts_eq (s ∷ ss) [] = false
texts_eq (s ∷ ss) (t ∷ ts) = text_eq s t && texts_eq ss ts
