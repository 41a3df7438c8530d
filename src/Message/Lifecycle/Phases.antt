-- ===== src/Message/Lifecycle/Phases.antt =====
-- The phases of a stored message, as a state machine of four states that the operations on the rows
-- follow. A message is scheduled, cancelled or live as a whole.
use irl_notifs.Base.{
  ℤ, leb_ℤ, eqb_ℤ, ◌≡◌, Bool, true, false, ◌||◌, Option, none, some, List, [], ◌∷◌, map, all,
  is_some, if◌then◌else◌,
}
use irl_notifs.Base.Time.{Instant, Duration, after, is_zero}
use irl_notifs.Message.Columns.{Columns}
use irl_notifs.Message.Types.{
  state_pending, state_delivered, state_dead, state_scheduled, state_cancelled, Envelope,
  DeliveryTarget, Delivery, StoredMessage, AttemptRecord, AttemptResult,
}
use irl_notifs.Message.Attempts.{Result, ok, err, record_attempt, replay}
use irl_notifs.Message.Lifecycle.{
  no_targets, replace_scheduled_message, cancel, release_due, claim_due,
}

pub data Phase : Type 0 where
  held : Phase
  scheduled_for : Instant → Phase
  cancelled live : Phase

-- The states that a delivery can be in, in each phase.
abbrev pub fits : Phase → Delivery → Bool
fits held d = false
fits (scheduled_for t) d = elim d.state [ state_scheduled ↦ eqb_ℤ d.next_attempt_at t | _ ↦ false ]
fits cancelled d = elim d.state [ state_cancelled ↦ true | _ ↦ false ]
fits live d = elim d.state [
  | state_pending ↦ true
  | state_delivered ↦ true
  | state_dead ↦ true
  | _ ↦ false
]

abbrev pub is_empty : List Delivery → Bool
is_empty [] = true
is_empty (_ ∷ _) = false

abbrev pub is_held : Phase → Bool
is_held held = true
is_held _ = false

abbrev pub is_cancelled : Phase → Bool
is_cancelled cancelled = true
is_cancelled _ = false

-- The message is in the phase, as a whole. Only a cancelled message may have lost its held_at and
-- have no delivery.
pub record InPhase (phase : Phase) (stored : StoredMessage) : Type 0 where
  pub deliveries_fit : all (fits phase) stored.deliveries ≡ true
  pub held_marked : is_some stored.held_at ≡ is_held phase
  pub cancelled_marked : is_some stored.cancelled_at ≡ is_cancelled phase
  pub not_failed : stored.release_failed_at ≡ none
  pub has_deliveries :
      is_held phase || is_cancelled phase ≡ false → is_empty stored.deliveries ≡ false

pub data MessageEvent : Type 0 where
  cancel_called : Instant → MessageEvent
  release_ran : Instant → MessageEvent
  replace_called : Envelope → List (ℤ × DeliveryTarget) → Instant → Instant → MessageEvent
  attempted : ℤ → AttemptResult → Instant → MessageEvent
  replayed : ℤ → Instant → Instant → MessageEvent
  claimed : ℤ → Instant → Duration → Instant → MessageEvent

-- The delivery of the id, if it is of this message.
abbrev pub on_delivery : ℤ → (Delivery → Delivery) → StoredMessage → StoredMessage
on_delivery id f stored = record stored {
  deliveries = map (λ d. if eqb_ℤ d.id id then f d else d) stored.deliveries;
}

abbrev pub or_same {ℓ} : {A : Type ℓ} → A → Result A → A
or_same a (ok b) = b
or_same a (err e) = a

module _ (clean : AttemptRecord → AttemptRecord) where
  -- RecordAttempt on a delivery, without its log.
  unfoldable pub attempt_delivery : AttemptResult → Instant → Delivery → Delivery
  attempt_delivery result clock d = elim (record_attempt clean (d, []) result clock) [
    | ok (next, log) ↦ next
    | err e ↦ d
  ]

  -- What an event does to the message; a refused one does nothing.
  unfoldable pub apply_event : ⦃columns : Columns⦄ → StoredMessage → MessageEvent → StoredMessage
  apply_event stored (cancel_called now) = elim (cancel stored now) [
    | ok (next, outcome) ↦ next
    | err e ↦ stored
  ]
  apply_event stored (release_ran now) = release_due stored now
  apply_event stored (replace_called envelope targets now clock) =
      elim (replace_scheduled_message envelope targets now clock stored) [
        | ok (next, replaced) ↦ next
        | err e ↦ stored
      ]
  apply_event stored (attempted id result clock) =
      on_delivery id (attempt_delivery result clock) stored
  apply_event stored (replayed id now clock) =
      on_delivery id (λ d. or_same d (replay d now clock)) stored
  apply_event stored (claimed id now lease clock) =
      on_delivery id (λ d. or_same d (claim_due d now lease clock)) stored

  unfoldable pub apply_events :
      ⦃columns : Columns⦄ → StoredMessage → List MessageEvent → StoredMessage
  apply_events stored [] = stored
  apply_events stored (e ∷ es) = apply_events (apply_event stored e) es

-- When a replaced message is due: in the future, or at once.
abbrev pub replaced_phase : Option Instant → Instant → Phase
replaced_phase none now = live
replaced_phase (some t) now = if after t now then scheduled_for t else live

abbrev pub cancel_phase : Phase → Instant → Phase
cancel_phase held now = if is_zero now then held else cancelled
cancel_phase (scheduled_for t) now = if is_zero now then scheduled_for t else cancelled
cancel_phase cancelled now = cancelled
cancel_phase live now = live

abbrev pub release_phase : Phase → Instant → Phase
release_phase held now = held
release_phase (scheduled_for t) now = if leb_ℤ t now then live else scheduled_for t
release_phase cancelled now = cancelled
release_phase live now = live

abbrev pub replace_phase : Phase → Envelope → List (ℤ × DeliveryTarget) → Instant → Phase
replace_phase held envelope targets now = held
replace_phase (scheduled_for t) envelope targets now =
    if no_targets targets || is_zero now
    then scheduled_for t
    else replaced_phase envelope.deliver_at now
replace_phase cancelled envelope targets now = cancelled
replace_phase live envelope targets now = live

-- The machine: what each event makes of the phase.
abbrev pub next_phase : Phase → MessageEvent → Phase
next_phase p (cancel_called now) = cancel_phase p now
next_phase p (release_ran now) = release_phase p now
next_phase p (replace_called envelope targets now clock) = replace_phase p envelope targets now
next_phase p (attempted id result clock) = p
next_phase p (replayed id now clock) = p
next_phase p (claimed id now lease clock) = p

abbrev pub last_phase : Phase → List MessageEvent → Phase
last_phase phase [] = phase
last_phase phase (e ∷ es) = last_phase (next_phase phase e) es
