-- ===== src/Heartbeat/Patch/Statuses.antt =====
-- NormalizeStatuses and slices.Equal of heartbeat/types.go. A nil slice and an empty one are the
-- same list: no comparison here tells them apart. slices.Sort is an insertion sort here.
use mathlib.Core.List.{Perm, Permᴰ}
use mathlib.Core.Logic.{∥∥₁_elim}
use mathlib.Core.Path.{ap₂}
use mathlib.Core.HLevel.{hedberg}
use native.Mathlib.Decide.{ℕ_discrete}
use irl_notifs.Base.{
  ℤ, leb_ℤ, eqb_ℤ, ◌≡◌, refl, ap, ◌∙◌, Bool, true, false, ◌&&◌, List, [], ◌∷◌, arith, if◌then◌else◌,
}

insert : ℤ → List ℤ → List ℤ
insert a [] = a ∷ []
insert a (b ∷ bs) = if leb_ℤ a b then a ∷ b ∷ bs else b ∷ insert a bs

pub normalize_statuses : List ℤ → List ℤ
normalize_statuses [] = []
normalize_statuses (a ∷ xs) = insert a (normalize_statuses xs)

pub statuses_eq : List ℤ → List ℤ → Bool
statuses_eq [] [] = true
statuses_eq (a ∷ xs) (b ∷ bs) = eqb_ℤ a b && statuses_eq xs bs
statuses_eq _ _ = false

pub statuses_eq_refl : (xs : List ℤ) → statuses_eq xs xs ≡ true
unfolding statuses_eq
statuses_eq_refl [] = refl
statuses_eq_refl (a ∷ xs) = ground (arith, statuses_eq_refl xs)

leb_antisymm : (a b : ℤ) → leb_ℤ a b ≡ true → leb_ℤ b a ≡ true → a ≡ b
leb_antisymm a b h k = ground arith

insert_comm : (a b : ℤ) (cs : List ℤ) → insert a (insert b cs) ≡ insert b (insert a cs)
unfolding insert
insert_comm a b [] = ground (arith, leb_antisymm a b)
insert_comm a b (c ∷ cs) = ground (arith, leb_antisymm a b, insert_comm a b cs)

normalize-insert :
    (a : ℤ) (xs : List ℤ) → normalize_statuses (insert a xs) ≡ insert a (normalize_statuses xs)
unfolding insert normalize_statuses
normalize-insert a [] = refl
normalize-insert a (b ∷ xs) =
    ground (arith, normalize-insert a xs, insert_comm a b (normalize_statuses xs))

pub normalize-normalize :
    (xs : List ℤ) → normalize_statuses (normalize_statuses xs) ≡ normalize_statuses xs
unfolding normalize_statuses
normalize-normalize [] = refl
normalize-normalize (a ∷ xs) =
    normalize-insert a (normalize_statuses xs) ∙ ap (insert a) (normalize-normalize xs)

normalize-permᴰ : {xs ys : List ℤ} → Permᴰ xs ys → normalize_statuses xs ≡ normalize_statuses ys
unfolding normalize_statuses
normalize-permᴰ Permᴰ.nil = refl
normalize-permᴰ (Permᴰ.cons e p) = ap₂ insert e (normalize-permᴰ p)
normalize-permᴰ (Permᴰ.swap {a = a} {b = b} {l = l} e f) =
    insert_comm a b (normalize_statuses l)
    ∙ ap₂ (λ x y. insert x (insert y (normalize_statuses l))) f e
normalize-permᴰ (Permᴰ.trans p q) = normalize-permᴰ p ∙ normalize-permᴰ q

ints_discrete : Discrete (List ℤ)
ints_discrete = hlevel ℕ_discrete

ints_set : IsSet (List ℤ)
ints_set = hedberg ints_discrete

-- Two status sets that are rearrangements of one another have the same normal form.
pub normalize-perm : (xs ys : List ℤ) → Perm xs ys → normalize_statuses xs ≡ normalize_statuses ys
normalize-perm xs ys p = ∥∥₁_elim p (ints_set _ _) normalize-permᴰ
