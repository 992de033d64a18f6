-- ===== src/Prelude/Assoc.antt =====
-- Go maps with text keys, as association lists; a range over a map takes the entries in list order.
use Prim.Native.String.{String}
use mathlib.Core.Path.{◌≡◌, refl}
use mathlib.Core.Option.{Option, none, some}
use mathlib.Core.List.{List, [], ◌∷◌, ◌++◌}
use native.Mathlib.Omega.{arith}
use text.Mathlib.Text.{◌==◌ as str_eq}
use text.Mathlib.TextEquality.{eq_iff}
use Prim.Native.Nat.{ℕ, ◌+◌}
use mathlib.Core.Logic.{inl, inr}
use mathlib.Core.Bool.{Bool, true, ◌&&◌}
use triovexa.Prelude.Tests.{if◌then◌else◌, Bool-cases}

abbrev pub Map {ℓ} : Type ℓ → Type ℓ
Map V = List (String × V)

module _ {ℓ} {V : Type ℓ} where
  unfoldable pub get : String → Map V → Option V
  get k [] = none
  get k ((j, v) ∷ m) = if str_eq j k then some v else get k m

  unfoldable pub put : String → V → Map V → Map V
  put k v [] = (k, v) ∷ []
  put k v ((j, w) ∷ m) = if str_eq j k then (j, v) ∷ m else (j, w) ∷ put k v m

  unfoldable pub delete : String → Map V → Map V
  delete k [] = []
  delete k ((j, w) ∷ m) = let rest = delete k m in if str_eq j k then rest else (j, w) ∷ rest

  -- A write is read back at its key and changes no other key.
  pub get-put :
      (k j : String) (v : V) (m : Map V)
      → get j (put k v m) ≡ (if str_eq k j then some v else get j m)
  unfolding get put
  get-put k j v [] = refl
  get-put k j v ((i, w) ∷ m) = ground (arith, eq_iff k j, eq_iff i k, eq_iff i j, get-put k j v m)

  pub get-put_self : (k : String) (v : V) (m : Map V) → get k (put k v m) ≡ some v
  get-put_self k v m = ground (arith, eq_iff k k, get-put k k v m)

  pub get-delete :
      (k j : String) (m : Map V) → get j (delete k m) ≡ (if str_eq k j then none else get j m)
  unfolding get delete
  get-delete k j [] = ground arith
  get-delete k j ((i, w) ∷ m) = ground (arith, eq_iff k j, eq_iff i k, eq_iff i j, get-delete k j m)

module _ {ℓ} {A : Type ℓ} where
  -- The value of a slice-valued map: a missing key reads as the nil slice.
  abbrev pub get_list : String → Map (List A) → List A
  get_list k m = elim (get k m) [ none ↦ [] | some xs ↦ xs ]

  -- All the elements, key after key.
  abbrev pub values : Map (List A) → List A
  values [] = []
  values ((k, xs) ∷ m) = xs ++ values m

  pub get_list-put :
      (k j : String) (xs : List A) (m : Map (List A))
      → get_list j (put k xs m) ≡ (if str_eq k j then xs else get_list j m)
  get_list-put k j xs m = ground (arith, get-put k j xs m)

module _ {ℓ} {A : Type ℓ} (f : String → List A → ℕ) where
  -- A sum over the entries of a slice-valued map.
  abbrev pub total : Map (List A) → ℕ
  total [] = 0
  total ((k, xs) ∷ m) = f k xs + total m

  -- A write replaces the entry's share of the sum, where a missing key has none.
  pub total-put :
      (k : String) (xs : List A) (m : Map (List A))
      → f k [] ≡ 0
      → total (put k xs m) + f k (get_list k m) ≡ total m + f k xs
  unfolding get put
  total-put k xs [] h = omega arith
  total-put k xs ((j, ys) ∷ m) h = elim (Bool-cases (str_eq j k)) [
    | inl e ↦ let same : j ≡ k = (eq_iff j k).0 e in ground arith
    | inr e ↦ ground (arith, total-put k xs m h)
  ]

module _ {ℓ} {A : Type ℓ} where
  pub total_congr :
      (f g : String → List A → ℕ) (m : Map (List A))
      → ((k : String) (xs : List A) → f k xs ≡ g k xs)
      → total f m ≡ total g m
  total_congr f g [] h = refl
  total_congr f g ((k, xs) ∷ m) h = omega (arith, h k xs, total_congr f g m h)

module _ {ℓ} {V : Type ℓ} where
  -- A test of every value of a map.
  abbrev pub every : (V → Bool) → Map V → Bool
  every p [] = true
  every p ((k, v) ∷ m) = p v && every p m

  pub every-get :
      (p : V → Bool) (k : String) (m : Map V) (v : V)
      → every p m ≡ true
      → get k m ≡ some v
      → p v ≡ true
  unfolding get
  every-get p k [] v h e = cc
  every-get p k ((j, w) ∷ m) v h e = ground (arith, every-get p k m v)
