-- ===== src/Message/Equality/Laws.antt =====
-- A document is the same as what jsonb makes of it, and an envelope as its stored form.
use irl_notifs.Base.{
  ℕ, ℤ, Text, text_eq, text_eq_refl, text_eq_iff, ◌≡◌, refl, ◌∙◌, suc, Bool, true, false, ◌&&◌, not,
  Option, none, some, ◌==◌, is_some, arith, if◌then◌else◌,
}
use irl_notifs.Base.Time.{Instant}
use irl_notifs.Message.Types.{Display, Envelope}
use irl_notifs.Message.Columns.{Columns, kept_instant, kept_envelope}
use irl_notifs.Message.Equality.{
  JsonValue, json_null, json_bool, json_string, json_number, json_array, json_object, JsonItems,
  no_items, item, JsonMembers, no_members, member, item_count, member_count, find_member, bool_eq,
  same_json_number, same_json_value, same_members, same_items, same_payload,
  truncate_to_microsecond, same_deliver_at, same_display, same_content,
}

-- No object has a key twice, as in a Go map.
unfoldable mutual
  pub has_unique_keys : JsonValue → Bool
  has_unique_keys (json_array vs) = items_unique vs
  has_unique_keys (json_object ms) = members_unique ms
  has_unique_keys _ = true

  pub items_unique : JsonItems → Bool
  items_unique no_items = true
  items_unique (item v vs) = has_unique_keys v && items_unique vs

  pub members_unique : JsonMembers → Bool
  members_unique no_members = true
  members_unique (member k v ms) =
      has_unique_keys v && not (is_some (find_member k ms)) && members_unique ms

-- Every member of the first list is found in the second.
abbrev FoundIn : JsonMembers → JsonMembers → Type 0
FoundIn ls rs =
    (key : Text) (v : JsonValue) → find_member key ls ≡ some v → find_member key rs ≡ some v

found_rest :
    (k : Text) (v : JsonValue) (ls rs : JsonMembers)
    → is_some (find_member k ls) ≡ false
    → FoundIn (member k v ls) rs
    → FoundIn ls rs
found_rest k v ls rs fresh found key w h = ground (arith, text_eq_iff k key, fresh, h, found key w)

same_size : (n : ℕ) (b : Bool) → b ≡ true → (if not (n == n) then false else b) ≡ true
same_size n b h = ground (arith, h)

found_here : (k : Text) (v : JsonValue) (ms : JsonMembers) → find_member k (member k v ms) ≡ some v
found_here k v ms = ground (arith, text_eq_refl k)

both_parts : (a b : Bool) → (a && b) ≡ true → (a ≡ true) × (b ≡ true)
both_parts a b h = ground (arith, h)

three_parts : (a b c : Bool) → (a && not b && c) ≡ true → (a ≡ true) × (b ≡ false) × (c ≡ true)
three_parts a b c h = ground (arith, h)

-- The parts of a member list in which no key stands twice.
unique_parts :
    (k : Text) (v : JsonValue) (ms : JsonMembers)
    → members_unique (member k v ms) ≡ true
    → (has_unique_keys v ≡ true) × (is_some (find_member k ms) ≡ false) × (members_unique ms ≡ true)
unfolding has_unique_keys
unique_parts k v ms h =
    three_parts (has_unique_keys v) (is_some (find_member k ms)) (members_unique ms) h

both_hold : (a b : Bool) → a ≡ true → b ≡ true → (a && b) ≡ true
both_hold a b h k = ground (arith, h, k)

-- What jsonb makes of a decoded document: number literals are spelled anew, and the members of an object
-- come in an order of its own.
module _ (respell : Text → Text) (earlier : Text → Text → Bool) where
  abbrev pub insert_member : Text → JsonValue → JsonMembers → JsonMembers
  insert_member k v no_members = member k v no_members
  insert_member k v (member l w ms) =
      let rest = insert_member k v ms in
      if earlier l k then member l w rest else member k v (member l w ms)

  unfoldable mutual
    pub rewritten : JsonValue → JsonValue
    rewritten (json_number s) = json_number (respell s)
    rewritten (json_array vs) = json_array (rewritten_items vs)
    rewritten (json_object ms) = json_object (rewritten_members ms)
    rewritten v = v

    pub rewritten_items : JsonItems → JsonItems
    rewritten_items no_items = no_items
    rewritten_items (item v vs) = item (rewritten v) (rewritten_items vs)

    pub rewritten_members : JsonMembers → JsonMembers
    rewritten_members no_members = no_members
    rewritten_members (member k v ms) = insert_member k (rewritten v) (rewritten_members ms)

  count-insert_member :
      (k : Text) (v : JsonValue) (ms : JsonMembers)
      → member_count (insert_member k v ms) ≡ suc (member_count ms)
  count-insert_member k v no_members = refl
  count-insert_member k v (member l w ms) = ground (arith, count-insert_member k v ms)

  count-rewritten_members :
      (ms : JsonMembers) → member_count (rewritten_members ms) ≡ member_count ms
  unfolding rewritten
  count-rewritten_members no_members = refl
  count-rewritten_members (member k v ms) = omega (
    arith,
    count-insert_member k (rewritten v) (rewritten_members ms),
    count-rewritten_members ms,
  )

  count-rewritten_items : (vs : JsonItems) → item_count (rewritten_items vs) ≡ item_count vs
  unfolding rewritten
  count-rewritten_items no_items = refl
  count-rewritten_items (item v vs) = omega (arith, count-rewritten_items vs)

  module _ {Rational : Type 0} (set_string : Text → Option Rational)
      (cmp : Rational → Rational → ℤ) where
    same-insert_member :
        (k : Text) (v : JsonValue) (ls rs : JsonMembers)
        → same_members set_string cmp (insert_member k v ls) rs
          ≡ same_members set_string cmp (member k v ls) rs
    unfolding same_json_value
    same-insert_member k v no_members rs = refl
    same-insert_member k v (member l w ls) rs = ground (arith, same-insert_member k v ls rs)

    -- Where the new spelling of a literal has its value, a rewritten document is the same as the document.
    module _
        (same_literal : (s : Text) → same_json_number set_string cmp (respell s) s ≡ true) where
      mutual
        unfolding same_json_value has_unique_keys rewritten

        same_rewritten :
            (v : JsonValue)
            → has_unique_keys v ≡ true
            → same_json_value set_string cmp (rewritten v) v ≡ true
        same_rewritten json_null h = refl
        same_rewritten (json_bool b) h = ground arith
        same_rewritten (json_string s) h = text_eq_refl s
        same_rewritten (json_number s) h = same_literal s
        same_rewritten (json_array vs) h = rw (count-rewritten_items vs) (
            same_size (item_count vs) (same_items set_string cmp (rewritten_items vs) vs)
              (same_rewritten_items vs h))
        same_rewritten (json_object ms) h = rw (count-rewritten_members ms) (
            same_size (member_count ms) (same_members set_string cmp (rewritten_members ms) ms)
              (same_rewritten_members ms ms h (λ key v e. e)))

        same_rewritten_items :
            (vs : JsonItems)
            → items_unique vs ≡ true
            → same_items set_string cmp (rewritten_items vs) vs ≡ true
        same_rewritten_items no_items h = refl
        same_rewritten_items (item v vs) h =
            let parts = both_parts (has_unique_keys v) (items_unique vs) h in
            both_hold (same_json_value set_string cmp (rewritten v) v)
              (same_items set_string cmp (rewritten_items vs) vs) (same_rewritten v parts.0)
              (same_rewritten_items vs parts.1)

        same_rewritten_members :
            (ls rs : JsonMembers)
            → members_unique ls ≡ true
            → FoundIn ls rs
            → same_members set_string cmp (rewritten_members ls) rs ≡ true
        same_rewritten_members no_members rs h found = refl
        same_rewritten_members (member k v ls) rs h found =
            let parts = unique_parts k v ls h in
            same-insert_member k (rewritten v) (rewritten_members ls) rs
            ∙ both_hold
                (elim (find_member k rs) [
                  | none ↦ false
                  | some w ↦ same_json_value set_string cmp (rewritten v) w
                ])
                (same_members set_string cmp (rewritten_members ls) rs)
                (rw (found k v (found_here k v ls)) (same_rewritten v parts.0))
                (same_rewritten_members ls rs parts.2 (found_rest k v ls rs parts.1 found))

display_eq_refl : (d : Option Display) → same_display d d ≡ true
unfolding same_display text_eq
display_eq_refl none = refl
display_eq_refl (some d) =
    ground (
      arith,
      text_eq_refl d.title,
      text_eq_refl d.body,
      text_eq_refl d.url,
      text_eq_refl d.priority,
    )

bool_eq_refl : (b : Bool) → bool_eq b b ≡ true
bool_eq_refl b = ground arith

-- What the columns do, over a way to spell numbers and an order of keys: jsonb keeps a document's value
-- and a number's value, and a timestamptz keeps an instant to the microsecond.
pub record IsFaithful {Rational : Type 0} (set_string : Text → Option Rational)
    (cmp : Rational → Rational → ℤ) (decode : Text → Option JsonValue) (columns : Columns)
    : Type 0 where
  pub respell : Text → Text
  pub earlier : Text → Text → Bool
  pub same_literal : (s : Text) → same_json_number set_string cmp (respell s) s ≡ true
  pub document :
      (text : Text) (v : JsonValue)
      → decode text ≡ some v
      → decode (columns.payload text) ≡ some (rewritten respell earlier v)
  pub instant_kept :
      (t : Instant) → truncate_to_microsecond (columns.instant t) ≡ truncate_to_microsecond t

same-kept_payload :
    {Rational : Type 0} (set_string : Text → Option Rational) (cmp : Rational → Rational → ℤ)
    (decode : Text → Option JsonValue) (columns : Columns) (text : Text) (v : JsonValue)
    → IsFaithful set_string cmp decode columns
    → decode text ≡ some v
    → has_unique_keys v ≡ true
    → same_payload set_string cmp decode (columns.payload text) text ≡ true
unfolding same_payload
same-kept_payload set_string cmp decode columns text v laws decoded unique =
    rw (laws.document text v decoded, decoded, same_payload)
      (same_rewritten laws.respell laws.earlier set_string cmp laws.same_literal v unique)

same-kept_instant :
    {Rational : Type 0} (set_string : Text → Option Rational) (cmp : Rational → Rational → ℤ)
    (decode : Text → Option JsonValue) (columns : Columns) (t : Option Instant)
    → IsFaithful set_string cmp decode columns
    → same_deliver_at (kept_instant columns t) t ≡ true
unfolding same_deliver_at
same-kept_instant set_string cmp decode columns none laws = refl
same-kept_instant set_string cmp decode columns (some t) laws =
    rw (laws.instant_kept t) (ground arith)

-- The envelope that is read back from its columns carries the content of the one that was stored, if its
-- payload decodes, with no key twice in one object.
pub stored_envelope_same :
    {Rational : Type 0} (set_string : Text → Option Rational) (cmp : Rational → Rational → ℤ)
    (decode : Text → Option JsonValue) (columns : Columns) (e : Envelope) (v : JsonValue)
    → IsFaithful set_string cmp decode columns
    → decode e.payload ≡ some v
    → has_unique_keys v ≡ true
    → same_content (same_payload set_string cmp decode) (kept_envelope columns e) e ≡ true
unfolding same_content
stored_envelope_same set_string cmp decode columns e v laws decoded unique = ground (
  arith,
  text_eq_refl e.channel,
  text_eq_refl e.to_destination,
  text_eq_refl e.to_recipient,
  bool_eq_refl e.critical,
  same-kept_instant set_string cmp decode columns e.deliver_at laws,
  same-kept_payload set_string cmp decode columns e.payload v laws decoded unique,
  display_eq_refl e.display,
)
