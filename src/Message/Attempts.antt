-- ===== src/Message/Attempts.antt =====
-- RecordAttempt and Replay of message/pgstore.go, on the delivery row that they lock.
pub mod Log
use irl_notifs.Base.{
  ℤ, pos, inc64, Text, codes, Bool, true, false, ◌&&◌, ◌||◌, not, Option, none, some, List, [], ◌∷◌,
  is_some, ◌≡◌, refl, ◌⊎◌, inl, inr, if◌then◌else◌,
}
use irl_notifs.Base.Time.{Instant, is_zero}
use irl_notifs.Message.Types.{
  DeliveryState, state_pending, state_delivered, state_dead, state_scheduled, state_cancelled,
  state_other, DeadReason, dead_reason_other, Outcome, outcome_success, Delivery, AttemptRecord,
  AttemptResult,
}

pub data StoreError : Type 0 where
  delivery_not_found delivery_not_dead message_not_found : StoreError
  too_many_scheduled scheduled_capacity_reached too_many_held held_capacity_reached : StoreError
  invalid : Text → StoreError

pub data Result {ℓ} (A : Type ℓ) : Type ℓ where
  ok : A → Result A
  err : StoreError → Result A

pub Result-cases {ℓ} :
    {A : Type ℓ} (r : Result A) → ((e : StoreError) × (r ≡ err e)) ⊎ ((a : A) × (r ≡ ok a))
Result-cases (err e) = inl (e, refl)
Result-cases (ok a) = inr (a, refl)

abbrev pub is_success : Outcome → Bool
is_success outcome_success = true
is_success _ = false

abbrev pub is_delivered : DeliveryState → Bool
is_delivered state_delivered = true
is_delivered _ = false

abbrev pub is_pending : DeliveryState → Bool
is_pending state_pending = true
is_pending _ = false

abbrev pub is_dead : DeliveryState → Bool
is_dead state_dead = true
is_dead _ = false

-- A nil reason or the empty string.
unfoldable pub lacks_reason : Option DeadReason → Bool
lacks_reason none = true
lacks_reason (some (dead_reason_other [])) = true
lacks_reason (some _) = false

-- The switch of validateAttemptResult on the next state; `none` accepts. The text of an unknown state
-- goes without the quoted state.
refuse_transition : DeliveryState → AttemptResult → Option StoreError
unfolding lacks_reason
refuse_transition state_pending result =
    if is_zero result.next_attempt_at
    then some (invalid (codes "record attempt: pending result needs next_attempt_at"))
    else if is_some result.dead_reason
    then some (invalid (codes "record attempt: dead_reason set on a non-dead result"))
    else none
refuse_transition state_delivered result =
    if is_some result.dead_reason
    then some (invalid (codes "record attempt: dead_reason set on a non-dead result"))
    else none
refuse_transition state_dead result =
    if lacks_reason result.dead_reason
    then some (invalid (codes "record attempt: dead result needs dead_reason"))
    else none
refuse_transition _ result = some (invalid (codes "record attempt: unknown next state"))

abbrev pub xor : Bool → Bool → Bool
xor true b = not b
xor false b = b

unfoldable pub validate_attempt_result : AttemptResult → Option StoreError
unfolding refuse_transition
validate_attempt_result result =
    if xor (is_success result.attempt.outcome) (is_delivered result.next_state)
    then some (
        invalid (
          codes
            "record attempt: outcome success must pair with state delivered, and no other outcome may"))
    else refuse_transition result.next_state result

-- A row of delivery_attempts: the attempt under its number.
pub record LoggedAttempt : Type 0 where
  pub attempt_number : ℤ
  pub attempt : AttemptRecord

-- The UPDATE of RecordAttempt; `clock` is the transaction's now().
record_transition : Delivery → AttemptResult → Instant → Delivery
record_transition current result clock = record current {
  state = result.next_state;
  dead_reason = result.dead_reason;
  attempt_count = inc64 current.attempt_count;
  budget_attempts = inc64 current.budget_attempts;
  next_attempt_at =
      if is_pending result.next_state then result.next_attempt_at else current.next_attempt_at;
  last_status_code = result.attempt.status_code;
  delivered_at = if is_delivered result.next_state then some clock else current.delivered_at;
  updated_at = clock;
}

-- The delivery row and its log, as one transaction leaves them. Cleaning the texts of the record for
-- storage is `clean`.
unfoldable pub record_attempt :
    (AttemptRecord → AttemptRecord)
    → Delivery × List LoggedAttempt
    → AttemptResult
    → Instant
    → Result (Delivery × List LoggedAttempt)
unfolding record_transition
record_attempt clean (current, log) result clock = elim (validate_attempt_result result) [
  | some e ↦ err e
  | none ↦
      if not (is_pending current.state)
      then ok (current, log)
      else ok (
        record_transition current result clock,
        record { attempt_number = inc64 current.attempt_count; attempt = clean result.attempt }
            ∷ log,
      )
]

unfoldable pub replay : Delivery → Instant → Instant → Result Delivery
replay current now clock =
    if is_zero now
    then err (invalid (codes "replay delivery: now must be set"))
    else if not (is_dead current.state)
    then err delivery_not_dead
    else ok (record current {
      state = state_pending;
      dead_reason = none;
      budget_attempts = pos 0;
      budget_started_at = now;
      next_attempt_at = now;
      updated_at = clock;
    })
