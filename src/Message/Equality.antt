-- ===== src/Message/Equality.antt =====
-- message/equality.go: whether a submitted envelope carries the content of the stored one. Decoding a
-- document with json.Decoder and the exact values of number literals (big.Rat) are parameters. A decoded
-- object is the list of its members, each key once.
pub mod Laws
use irl_notifs.Base.{
  ℕ, suc, ◌+◌, ◌-◌, ◌*◌, ◌/◌, ◌%◌, ℤ, pos, negsuc, eqb_ℤ, Text, text_eq, Bool, true, false, ◌&&◌,
  ◌||◌, not, Option, none, some, List, [], ◌∷◌, ◌==◌, length, or_else, if◌then◌else◌,
}
use irl_notifs.Base.Time.{Instant}
use irl_notifs.Message.Types.{Display, Envelope}

mutual
  pub data JsonValue : Type 0 where
    json_null : JsonValue
    json_bool : Bool → JsonValue
    json_string : Text → JsonValue
    json_number : Text → JsonValue
    json_array : JsonItems → JsonValue
    json_object : JsonMembers → JsonValue

  pub data JsonItems : Type 0 where
    no_items : JsonItems
    item : JsonValue → JsonItems → JsonItems

  pub data JsonMembers : Type 0 where
    no_members : JsonMembers
    member : Text → JsonValue → JsonMembers → JsonMembers

abbrev pub item_count : JsonItems → ℕ
item_count no_items = 0
item_count (item v vs) = suc (item_count vs)

abbrev pub member_count : JsonMembers → ℕ
member_count no_members = 0
member_count (member k v ms) = suc (member_count ms)

-- rightValue[key].
abbrev pub find_member : Text → JsonMembers → Option JsonValue
find_member key no_members = none
find_member key (member k v ms) =
    let rest = find_member key ms in if text_eq k key then some v else rest

abbrev pub bool_eq : Bool → Bool → Bool
bool_eq true b = b
bool_eq false b = not b

module _ {Rational : Type 0} (set_string : Text → Option Rational)
    (cmp : Rational → Rational → ℤ) where
  unfoldable pub same_json_number : Text → Text → Bool
  same_json_number left right = if text_eq left right then true else elim (set_string left) [
    | none ↦ false
    | some l ↦ elim (set_string right) [ none ↦ false | some r ↦ eqb_ℤ (cmp l r) (pos 0) ]
  ]

  unfoldable mutual
    unfolding same_json_number

    pub same_json_value : JsonValue → JsonValue → Bool
    same_json_value (json_object ls) (json_object rs) =
        if not (member_count ls == member_count rs) then false else same_members ls rs
    same_json_value (json_array ls) (json_array rs) =
        if not (item_count ls == item_count rs) then false else same_items ls rs
    same_json_value (json_number l) (json_number r) = same_json_number l r
    same_json_value (json_string l) (json_string r) = text_eq l r
    same_json_value (json_bool l) (json_bool r) = bool_eq l r
    same_json_value json_null json_null = true
    same_json_value _ _ = false

    pub same_members : JsonMembers → JsonMembers → Bool
    same_members no_members rs = true
    same_members (member k v ls) rs =
        elim (find_member k rs) [ none ↦ false | some w ↦ same_json_value v w ]
        && same_members ls rs

    pub same_items : JsonItems → JsonItems → Bool
    same_items (item l ls) (item r rs) = same_json_value l r && same_items ls rs
    same_items no_items _ = true
    same_items _ no_items = true

  unfoldable pub same_payload : (Text → Option JsonValue) → Text → Text → Bool
  same_payload decode stored submitted = elim (decode stored) [
    | none ↦ false
    | some l ↦ elim (decode submitted) [ none ↦ false | some r ↦ same_json_value l r ]
  ]

-- t.Truncate(time.Microsecond), which rounds down.
unfoldable pub truncate_to_microsecond : Instant → Instant
truncate_to_microsecond (pos n) = pos (n / 1000 * 1000)
truncate_to_microsecond (negsuc n) = negsuc (n / 1000 * 1000 + 999)

unfoldable pub same_deliver_at : Option Instant → Option Instant → Bool
unfolding truncate_to_microsecond
same_deliver_at none none = true
same_deliver_at (some t) (some u) = eqb_ℤ (truncate_to_microsecond t) (truncate_to_microsecond u)
same_deliver_at _ _ = false

abbrev pub zero_display : Display
zero_display = record { title = []; body = []; url = []; priority = [] }

-- The comparison of two structs.
abbrev pub display_eq : Display → Display → Bool
display_eq d e =
    text_eq d.title e.title
    && text_eq d.body e.body
    && text_eq d.url e.url
    && text_eq d.priority e.priority

unfoldable pub same_display : Option Display → Option Display → Bool
same_display stored submitted =
    display_eq (or_else stored zero_display) (or_else submitted zero_display)

-- sameContent over the comparison of payloads.
unfoldable pub same_content : (Text → Text → Bool) → Envelope → Envelope → Bool
unfolding same_deliver_at same_display
same_content payload_eq stored submitted =
    text_eq stored.channel submitted.channel
    && text_eq stored.to_destination submitted.to_destination
    && text_eq stored.to_recipient submitted.to_recipient
    && bool_eq stored.critical submitted.critical
    && same_deliver_at stored.deliver_at submitted.deliver_at
    && payload_eq stored.payload submitted.payload
    && same_display stored.display submitted.display
