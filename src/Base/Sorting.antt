-- ===== src/Base/Sorting.antt =====
-- Insertion sort by a Boolean order, as ORDER BY lists rows, and what is left after a LIMIT.
use Prim.Native.Nat.{ℕ, zero, suc, ◌+◌, ◌-◌, ◌≤◌}
use mathlib.Core.Path.{◌≡◌, refl}
use mathlib.Core.Bool.{Bool, ◌&&◌, not}
use mathlib.Core.List.{List, [], ◌∷◌}
use native.Mathlib.Omega.{arith}
use irl_notifs.Base.Tests.{if◌then◌else◌}
use irl_notifs.Base.Lists.{length, any, count_if, keep_if, count_if-le-length}

module _ {ℓ} {A : Type ℓ} where
  unfoldable pub insert_by : (A → A → Bool) → A → List A → List A
  insert_by earlier x [] = x ∷ []
  insert_by earlier x (y ∷ ys) =
      let rest = insert_by earlier x ys in if earlier y x then y ∷ rest else x ∷ y ∷ ys

  unfoldable pub sort_by : (A → A → Bool) → List A → List A
  unfolding insert_by
  sort_by earlier [] = []
  sort_by earlier (x ∷ xs) = insert_by earlier x (sort_by earlier xs)

  abbrev pub drop : ℕ → List A → List A
  drop zero xs = xs
  drop (suc n) [] = []
  drop (suc n) (x ∷ xs) = drop n xs

  count_if-insert_by :
      (p : A → Bool) (earlier : A → A → Bool) (x : A) (xs : List A)
      → count_if p (insert_by earlier x xs) ≡ count_if p (x ∷ xs)
  unfolding insert_by
  count_if-insert_by p earlier x [] = refl
  count_if-insert_by p earlier x (y ∷ ys) = ground (arith, count_if-insert_by p earlier x ys)

  pub count_if-sort_by :
      (p : A → Bool) (earlier : A → A → Bool) (xs : List A)
      → count_if p (sort_by earlier xs) ≡ count_if p xs
  unfolding sort_by
  count_if-sort_by p earlier [] = refl
  count_if-sort_by p earlier (x ∷ xs) =
      ground
        (arith, count_if-insert_by p earlier x (sort_by earlier xs), count_if-sort_by p earlier xs)

  pub count_if-drop : (p : A → Bool) (n : ℕ) (xs : List A) → count_if p (drop n xs) ≤ count_if p xs
  count_if-drop p zero xs = omega arith
  count_if-drop p (suc n) [] = omega arith
  count_if-drop p (suc n) (x ∷ xs) = ground (arith, count_if-drop p n xs)

  pub count_if-drop_all :
      (p : A → Bool) (n : ℕ) (xs : List A)
      → count_if p xs ≡ length xs
      → count_if p (drop n xs) ≡ length xs - n
  count_if-drop_all p zero xs h = omega arith
  count_if-drop_all p (suc n) [] h = omega arith
  count_if-drop_all p (suc n) (x ∷ xs) h =
      ground (arith, count_if-drop_all p n xs, count_if-le-length p xs)

  pub count_if-keep_if :
      (q p : A → Bool) (xs : List A) → count_if q (keep_if p xs) ≡ count_if (λ x. p x && q x) xs
  count_if-keep_if q p [] = refl
  count_if-keep_if q p (x ∷ xs) = ground (arith, count_if-keep_if q p xs)

  pub count_if_split :
      (q p : A → Bool) (xs : List A)
      → count_if (λ x. p x && q x) xs + count_if (λ x. not (p x) && q x) xs ≡ count_if q xs
  count_if_split q p [] = refl
  count_if_split q p (x ∷ xs) = ground (arith, count_if_split q p xs)

  length-insert_by :
      (earlier : A → A → Bool) (x : A) (xs : List A)
      → length (insert_by earlier x xs) ≡ suc (length xs)
  unfolding insert_by
  length-insert_by earlier x [] = refl
  length-insert_by earlier x (y ∷ ys) = ground (arith, length-insert_by earlier x ys)

  pub length-sort_by :
      (earlier : A → A → Bool) (xs : List A) → length (sort_by earlier xs) ≡ length xs
  unfolding sort_by
  length-sort_by earlier [] = refl
  length-sort_by earlier (x ∷ xs) =
      ground (arith, length-insert_by earlier x (sort_by earlier xs), length-sort_by earlier xs)

  any-insert_by :
      (p : A → Bool) (earlier : A → A → Bool) (x : A) (xs : List A)
      → any p (insert_by earlier x xs) ≡ any p (x ∷ xs)
  unfolding insert_by
  any-insert_by p earlier x [] = refl
  any-insert_by p earlier x (y ∷ ys) = ground (arith, any-insert_by p earlier x ys)

  pub any-sort_by :
      (p : A → Bool) (earlier : A → A → Bool) (xs : List A) → any p (sort_by earlier xs) ≡ any p xs
  unfolding sort_by
  any-sort_by p earlier [] = refl
  any-sort_by p earlier (x ∷ xs) =
      ground (arith, any-insert_by p earlier x (sort_by earlier xs), any-sort_by p earlier xs)

  pub any-keep_if : (p q : A → Bool) (xs : List A) → any p (keep_if q xs) ≡ any (λ x. q x && p x) xs
  any-keep_if p q [] = refl
  any-keep_if p q (x ∷ xs) = ground (arith, any-keep_if p q xs)
