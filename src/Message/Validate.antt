-- ===== src/Message/Validate.antt =====
-- message/validate.go and message/email.go. Unicode, JSON and URL parsing are the standard library's and
-- come as TextTests; the error is the message of a ValidationError.
pub mod Payload
use irl_notifs.Base.{
  ℕ, suc, ltb, leb, ◌==◌, ℤ, pos, ltb_ℤ, Text, codes, text_eq, Bool, true, false, ◌&&◌, ◌||◌, not,
  Option, none, some, List, [], ◌∷◌, any, all, length, count_if, if◌then◌else◌,
}
use irl_notifs.Base.Time.{Instant, is_zero}
use irl_notifs.Heartbeat.Validate.{Verdict, valid, err, ◌then_check◌, require, is_slug}
use irl_notifs.Message.Types.{Display, Envelope}
use irl_notifs.Message.Validate.Payload.{number_literals_storable, unicode_escapes_storable}

-- What url.Parse finds.
pub record ParsedUrl : Type 0 where
  pub scheme : Text
  pub hostname : Text
  pub has_user : Bool

-- utf8.Valid, json.Valid, TrimSpace, ToLower, the runes of a string, unicode.IsControl and IsSpace of a
-- rune, and url.Parse.
pub record TextTests : Type 0 where
  pub utf8_valid : Text → Bool
  pub json_valid : Text → Bool
  pub trim_space : Text → Text
  pub to_lower : Text → Text
  pub runes : Text → List ℕ
  pub is_control : ℕ → Bool
  pub is_space : ℕ → Bool
  pub parse_url : Text → Option ParsedUrl

abbrev pub is_absent : Text → Bool
is_absent [] = true
is_absent (_ ∷ _) = false

is_lower_or_digit : ℕ → Bool
is_lower_or_digit c = leb 97 c && leb c 122 || leb 48 c && leb c 57

-- ^[a-z0-9][a-z0-9_]{0,31}$
unfoldable pub is_channel : Text → Bool
unfolding is_lower_or_digit
is_channel [] = false
is_channel (c ∷ cs) =
    is_lower_or_digit c && all (λ d. is_lower_or_digit d || d == 95) cs && leb (length cs) 31

-- ^[\x21-\x7e]{1,200}$
unfoldable pub is_idempotency_key : Text → Bool
is_idempotency_key key =
    not (is_absent key) && all (λ c. leb 33 c && leb c 126) key && leb (length key) 200

-- ^[a-z2-7]{16}$, IsHash of personhash.
unfoldable pub is_hash : Text → Bool
is_hash text = all (λ c. leb 97 c && leb c 122 || leb 50 c && leb c 55) text && length text == 16

abbrev pub validate_app_id : Text → Verdict
validate_app_id app_id = require (is_slug app_id) (codes "invalid app_id")

abbrev pub validate_channel : Text → Verdict
validate_channel channel = require (is_channel channel) (codes "invalid channel")

abbrev pub validate_idempotency_key : Text → Verdict
validate_idempotency_key key = require (is_idempotency_key key) (codes "invalid idempotency_key")

-- 9999-12-31T23:59:59Z.
abbrev pub max_deliver_at : Instant
max_deliver_at = pos 315537897599000000000

-- An instant before year 1 is negative.
unfoldable pub validate_deliver_at : Option Instant → Verdict
validate_deliver_at none = valid
validate_deliver_at (some t) =
    require (not (is_zero t || ltb_ℤ t (pos 0) || ltb_ℤ max_deliver_at t))
      (codes "invalid deliver_at")

-- strings.Cut at a byte, without the byte.
abbrev pub cut : ℕ → Text → Text × Text
cut c [] = ([], [])
cut c (d ∷ ds) = let rest = cut c ds in if d == c then ([], ds) else (d ∷ rest.0, rest.1)

max_payload_bytes : ℕ
max_payload_bytes = 131072

abbrev pub display_priorities : List Text
display_priorities =
    codes "min" ∷ codes "low" ∷ codes "default" ∷ codes "high" ∷ codes "urgent" ∷ []

module _ (tests : TextTests) where
  unfoldable pub is_valid_email : Text → Bool
  is_valid_email email =
      let normalized = tests.to_lower (tests.trim_space email) in
      if is_absent normalized || ltb 254 (length normalized)
      then false
      else if any tests.is_space (tests.runes normalized)
      then false
      else if not (count_if (λ c. c == 64) normalized == 1)
      then false
      else not (is_absent (cut 64 normalized).0) && not (is_absent (cut 64 normalized).1)

  unfoldable pub validate_to : Text → Text → Verdict
  unfolding is_valid_email
  validate_to to_destination to_recipient =
      if not (is_absent to_destination) && not (is_absent to_recipient)
      then err (codes "to.destination and to.recipient cannot both be set")
      else if not (is_absent to_recipient)
      then require (is_hash to_recipient || is_valid_email to_recipient)
          (codes "to.recipient must be an email or person_hash")
      else require (is_absent to_destination || is_slug to_destination)
          (codes "invalid to.destination")

  starts_object : Text → Bool
  starts_object [] = false
  starts_object (c ∷ cs) = c == 123

  unfoldable pub validate_payload : Text → Verdict
  unfolding max_payload_bytes starts_object
  validate_payload payload =
      let trimmed = tests.trim_space payload in
      if ltb max_payload_bytes (length payload)
      then err (codes "payload too large")
      else require
          (starts_object trimmed
            && tests.json_valid trimmed
            && tests.utf8_valid trimmed
            && unicode_escapes_storable trimmed
            && number_literals_storable trimmed)
          (codes "invalid payload")

  valid_display_text : Text → Bool → Bool
  valid_display_text text allow_line_breaks =
      tests.utf8_valid text
      && all
          (λ c. not (tests.is_control c) || (allow_line_breaks && (c == 9 || c == 10 || c == 13)))
          (tests.runes text)

  valid_display_url : Text → Bool
  valid_display_url raw = if ltb 2048 (length raw) then false else elim (tests.parse_url raw) [
    | none ↦ false
    | some url ↦
        text_eq url.scheme (codes "https") && not (is_absent url.hostname) && not url.has_user
  ]

  unfoldable pub validate_display : Option Display → Verdict
  unfolding valid_display_text valid_display_url
  validate_display none = valid
  validate_display (some display) =
      require (leb (length display.title) 250 && valid_display_text display.title false)
        (codes "invalid display.title")
      then_check require (leb (length display.body) 4096 && valid_display_text display.body true)
          (codes "invalid display.body")
      then_check require (is_absent display.url || valid_display_url display.url)
          (codes "invalid display.url")
      then_check require
          (is_absent display.priority || any (text_eq display.priority) display_priorities)
          (codes "invalid display.priority")

  unfoldable pub validate_envelope : Envelope → Verdict
  validate_envelope envelope =
      validate_app_id envelope.app_id
      then_check validate_channel envelope.channel
      then_check validate_idempotency_key envelope.idempotency_key
      then_check validate_to envelope.to_destination envelope.to_recipient
      then_check validate_deliver_at envelope.deliver_at
      then_check validate_payload envelope.payload
      then_check validate_display envelope.display
