-- ===== src/Registry/Match/Patterns.antt =====
-- What a pattern matches, and who may use a destination.
use irl_notifs.Base.{
  ℕ, ◌≡◌, ◌≢◌, ◌↔◌, refl, sym, ◌∙◌, ◌⊎◌, inr, Text, codes, text_eq, text_eq_iff, text_eq_refl, true,
  false, Option, none, some, [], ◌∷◌, ◌++◌, arith,
}
use irl_notifs.Registry.Match.{cut_star, has_prefix, match_pattern, destination_usable_by}

cut_star-append : (prefix : Text) → cut_star (prefix ++ codes "*") ≡ some prefix
unfolding cut_star
cut_star-append [] = refl
cut_star-append (b ∷ []) = refl
cut_star-append (b ∷ c ∷ bs) = rw (cut_star-append (c ∷ bs))

has_prefix-append : (prefix tail : Text) → has_prefix (prefix ++ tail) prefix ≡ true
unfolding has_prefix
has_prefix-append [] tail = refl
has_prefix-append (b ∷ bs) tail = ground (arith, has_prefix-append bs tail)

has_prefix-tail :
    (value prefix : Text)
    → has_prefix value prefix ≡ true
    → (tail : Text) × (value ≡ prefix ++ tail)
unfolding has_prefix
has_prefix-tail value [] h = (value, refl)
has_prefix-tail [] (p ∷ ps) h = absurd (ground arith)
has_prefix-tail (b ∷ bs) (p ∷ ps) h =
    let (tail, e) = has_prefix-tail bs ps (ground arith) in (tail, ground arith)

-- Only the empty text gives the star alone.
longer_than_star : (b : ℕ) (bs : Text) → text_eq ((b ∷ bs) ++ codes "*") (codes "*") ≡ false
unfolding text_eq
longer_than_star b [] = ground arith
longer_than_star b (c ∷ bs) = ground arith

match_star :
    (prefix value : Text) → match_pattern (prefix ++ codes "*") value ≡ has_prefix value prefix
unfolding match_pattern has_prefix
match_star [] value = rw (text_eq_refl (codes "*"))
match_star (b ∷ bs) value = rw (longer_than_star b bs, cut_star-append (b ∷ bs))

-- A pattern that ends in a star matches exactly the values that begin with what stands before it
-- (all values, if nothing does).
pub match_star_iff :
    (prefix value : Text)
    → (match_pattern (prefix ++ codes "*") value ≡ true)
      ↔ ((tail : Text) × (value ≡ prefix ++ tail))
match_star_iff prefix value = (
  λ h. has_prefix-tail value prefix (sym (match_star prefix value) ∙ h),
  λ (tail, e). rw (e, match_star prefix (prefix ++ tail)) (has_prefix-append prefix tail),
)

no_star : (pattern : Text) → cut_star pattern ≡ none → text_eq pattern (codes "*") ≡ false
unfolding cut_star text_eq
no_star [] h = refl
no_star (b ∷ []) h = ground arith
no_star (b ∷ c ∷ bs) h = ground arith

-- A pattern with no trailing star matches itself alone.
pub match_exact_iff :
    (pattern value : Text)
    → cut_star pattern ≡ none
    → (match_pattern pattern value ≡ true) ↔ (pattern ≡ value)
unfolding match_pattern
match_exact_iff pattern value h = rw (no_star pattern h, h) (text_eq_iff pattern value)

operator_is_not_app : text_eq (codes "app") (codes "operator") ≡ false
unfolding text_eq
operator_is_not_app = refl

owned :
    (kind o app_id : Text)
    → destination_usable_by kind (some o) app_id ≡ true
    → ((kind ≡ codes "operator") × (some o ≡ none))
      ⊎ ((kind ≡ codes "app") × (some o ≡ some app_id) × (app_id ≢ []))
unfolding destination_usable_by
owned kind o app_id h = inr (
  ground (arith, text_eq_iff kind (codes "app")),
  ground (arith, text_eq_iff o app_id),
  λ e. ground (arith, text_eq_iff o app_id, text_eq_iff o []),
)

-- A destination may carry an app's traffic exactly if it is operator-owned with no owner id, or
-- owned by that very app, whose id is not empty.
pub usable_iff :
    (kind : Text) (owner : Option Text) (app_id : Text)
    → (destination_usable_by kind owner app_id ≡ true) ↔ (
        ((kind ≡ codes "operator") × (owner ≡ none))
        ⊎ ((kind ≡ codes "app") × (owner ≡ some app_id) × (app_id ≢ [])))
unfolding destination_usable_by
usable_iff kind none app_id = (
  λ h. ground (arith, text_eq_iff kind (codes "operator"), text_eq_iff kind (codes "app")),
  λ h. ground (arith, text_eq_iff kind (codes "operator"), text_eq_iff kind (codes "app")),
)
usable_iff kind (some o) app_id = (
  λ h. owned kind o app_id h,
  λ h. ground (
    arith,
    text_eq_iff kind (codes "operator"),
    text_eq_iff kind (codes "app"),
    text_eq_iff o [],
    text_eq_iff o app_id,
    operator_is_not_app,
  ),
)
