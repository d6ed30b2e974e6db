-- ===== src/Json/Equal.antt =====
-- Python's `==` on JSON values, but that it compares objects in the order of their keys, and a Boolean
-- only with Booleans: for the logs of two receipts, of which an executed one has none.
use mini_chain.Base.{
  ℕ, ◌∙◌, ◌==◌, ◌&&◌, ◌≡◌, refl, ap, not, String, Bool, true, false, str_eq, and_true, arith,
}
use mini_chain.Base.Int.{pos, negsuc}
use mini_chain.Json.{Json, null, bool, num, str, arr, obj, Items, nil, cons, Fields, end, field}

abbrev same_bool : Bool → Bool → Bool
same_bool true b = b
same_bool false b = not b

unfoldable mutual
  pub json_eq : Json → Json → Bool
  json_eq null null = true
  json_eq (bool a) (bool b) = same_bool a b
  json_eq (num (pos a)) (num (pos b)) = a == b
  json_eq (num (negsuc a)) (num (negsuc b)) = a == b
  json_eq (str s) (str t) = str_eq s t
  json_eq (arr xs) (arr ys) = items_eq xs ys
  json_eq (obj fs) (obj gs) = fields_eq fs gs
  json_eq _ _ = false

  pub items_eq : Items → Items → Bool
  items_eq nil nil = true
  items_eq (cons x xs) (cons y ys) = json_eq x y && items_eq xs ys
  items_eq _ _ = false

  pub fields_eq : Fields → Fields → Bool
  fields_eq end end = true
  fields_eq (field k v fs) (field j w gs) = str_eq k j && (json_eq v w && fields_eq fs gs)
  fields_eq _ _ = false

==→≡ : (a b : ℕ) → (a == b) ≡ true → a ≡ b
==→≡ a b h = ground arith

same_bool→≡ : (a b : Bool) → same_bool a b ≡ true → a ≡ b
same_bool→≡ true true h = refl
same_bool→≡ true false h = cc
same_bool→≡ false true h = cc
same_bool→≡ false false h = refl

str_eq→≡ : (s t : String) → str_eq s t ≡ true → s ≡ t
str_eq→≡ s t h = ground arith

mutual
  unfolding json_eq items_eq fields_eq

  json_eq→eq : (x y : Json) → json_eq x y ≡ true → x ≡ y
  json_eq→eq null null h = refl
  json_eq→eq (bool a) (bool b) h = ap bool (same_bool→≡ a b h)
  json_eq→eq (num (pos a)) (num (pos b)) h = ap (λ n. num (pos n)) (==→≡ a b h)
  json_eq→eq (num (negsuc a)) (num (negsuc b)) h = ap (λ n. num (negsuc n)) (==→≡ a b h)
  json_eq→eq (str s) (str t) h = ap str (str_eq→≡ s t h)
  json_eq→eq (arr xs) (arr ys) h = ap arr (items_eq→eq xs ys h)
  json_eq→eq (obj fs) (obj gs) h = ap obj (fields_eq→eq fs gs h)
  json_eq→eq x y h = cc

  pub items_eq→eq : (xs ys : Items) → items_eq xs ys ≡ true → xs ≡ ys
  items_eq→eq nil nil h = refl
  items_eq→eq (cons x xs) (cons y ys) h =
      let (here, there) = and_true (json_eq x y) (items_eq xs ys) h in
      ap (λ z. cons z xs) (json_eq→eq x y here) ∙ ap (cons y) (items_eq→eq xs ys there)
  items_eq→eq xs ys h = cc

  fields_eq→eq : (fs gs : Fields) → fields_eq fs gs ≡ true → fs ≡ gs
  fields_eq→eq end end h = refl
  fields_eq→eq (field k v fs) (field j w gs) h =
      let (key, rest) = and_true (str_eq k j) (json_eq v w && fields_eq fs gs) h in
      let (here, there) = and_true (json_eq v w) (fields_eq fs gs) rest in
      ap (λ i. field i v fs) (str_eq→≡ k j key)
      ∙ ap (λ z. field j z fs) (json_eq→eq v w here)
      ∙ ap (field j w) (fields_eq→eq fs gs there)
  fields_eq→eq fs gs h = cc
