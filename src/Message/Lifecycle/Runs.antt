-- ===== src/Message/Lifecycle/Runs.antt =====
-- Any history of one message follows the machine of its phases.
use irl_notifs.Base.{
  ℤ, Text, ◌≡◌, refl, sym, ap, ◌∙◌, inl, inr, Bool, true, false, Option, none, some, List, [], ◌∷◌,
  all, arith, Bool-cases, if◌then◌else◌,
}
use irl_notifs.Base.Time.{Instant, is_zero}
use irl_notifs.Message.Columns.{Columns}
use irl_notifs.Message.Types.{Envelope, DeliveryTarget, StoredMessage, message_state, AttemptRecord}
use irl_notifs.Message.Status.{derive_status}
use irl_notifs.Message.Attempts.{ok, err}
use irl_notifs.Message.Lifecycle.{
  DeliverySchedule, insert_deliveries, new_delivery, replacement_schedule, replace_content,
  no_targets, replace_scheduled_message, is_scheduled_status, cancel_delivery, cancel_deliveries,
  cancel_locked, cancel,
}
use irl_notifs.Message.Lifecycle.Phases.{
  Phase, held, scheduled_for, cancelled, live, fits, is_empty, is_held, is_cancelled, InPhase,
  MessageEvent, cancel_called, release_ran, replace_called, attempted, replayed, claimed,
  attempt_delivery, apply_event, apply_events, replaced_phase, next_phase, last_phase,
}
use irl_notifs.Message.Lifecycle.Refinement.{
  on_delivery-InPhase, claim-fits, replay-fits, attempt-fits, cancel-fits, map-fits,
  scheduled_status, live_status, cancelled_status, held_status, release-InPhase, cancel_held,
}

cancel_scheduled :
    (t now : Instant) (stored : StoredMessage)
    → InPhase (scheduled_for t) stored
    → (InPhase cancelled (cancel_locked stored now).0)
      × ((cancel_locked stored now).1.cancelled ≡ true)
unfolding cancel_locked cancel_deliveries is_scheduled_status
cancel_scheduled t now stored h = ground (
  arith,
  h.held_marked,
  h.cancelled_marked,
  h.not_failed,
  scheduled_status t stored h,
  map-fits (scheduled_for t) cancelled (cancel_delivery now) stored.deliveries (cancel-fits t now)
      h.deliveries_fit,
)

cancel_live :
    (now : Instant) (stored : StoredMessage)
    → InPhase live stored
    → ((cancel_locked stored now).0 ≡ stored) × ((cancel_locked stored now).1.cancelled ≡ false)
unfolding cancel_locked cancel_deliveries
cancel_live now stored h =
    ground (arith, h.held_marked, h.cancelled_marked, h.not_failed, live_status stored h)

cancel_again :
    (now : Instant) (stored : StoredMessage)
    → InPhase cancelled stored
    → ((cancel_locked stored now).0 ≡ stored) × ((cancel_locked stored now).1.cancelled ≡ true)
unfolding cancel_locked
cancel_again now stored h = ground (arith, h.cancelled_marked)

insert-fits :
    (p : Phase) (id : Text) (schedule : DeliverySchedule) (clock : Instant)
    (targets : List (ℤ × DeliveryTarget))
    → ((target : ℤ × DeliveryTarget) → fits p (new_delivery id schedule clock target) ≡ true)
    → all (fits p) (insert_deliveries id schedule clock targets) ≡ true
unfolding insert_deliveries
insert-fits p id schedule clock [] h = refl
insert-fits p id schedule clock (target ∷ targets) h =
    ground (arith, h target, insert-fits p id schedule clock targets h)

replacement-fits :
    (id : Text) (deliver_at : Option Instant) (now clock : Instant) (target : ℤ × DeliveryTarget)
    → fits
        (replaced_phase deliver_at now)
        (new_delivery id (replacement_schedule deliver_at now).0 clock target)
      ≡ true
unfolding replacement_schedule
replacement-fits id none now clock target = refl
replacement-fits id (some t) now clock target = ground arith

is_empty-insert :
    (id : Text) (schedule : DeliverySchedule) (clock : Instant)
    (targets : List (ℤ × DeliveryTarget))
    → is_empty (insert_deliveries id schedule clock targets) ≡ no_targets targets
unfolding insert_deliveries no_targets
is_empty-insert id schedule clock [] = refl
is_empty-insert id schedule clock (target ∷ targets) = refl

content-InPhase :
    ⦃columns : Columns⦄ (t : Instant) (envelope : Envelope) (targets : List (ℤ × DeliveryTarget))
    (now clock : Instant) (stored : StoredMessage)
    → no_targets targets ≡ false
    → InPhase (scheduled_for t) stored
    → InPhase (replaced_phase envelope.deliver_at now) (
        replace_content envelope
          (replacement_schedule envelope.deliver_at now)
          targets
          clock
          stored)
unfolding replace_content
content-InPhase t envelope targets now clock stored some_target h = record {
  deliveries_fit =
      insert-fits (replaced_phase envelope.deliver_at now) stored.id
        (replacement_schedule envelope.deliver_at now).0 clock targets
        (replacement-fits stored.id envelope.deliver_at now clock);
  held_marked = h.held_marked ∙ sym (plain envelope.deliver_at).0;
  cancelled_marked = h.cancelled_marked ∙ sym (plain envelope.deliver_at).1;
  not_failed = h.not_failed;
  has_deliveries = λ e.
      is_empty-insert stored.id (replacement_schedule envelope.deliver_at now).0 clock targets
      ∙ some_target;
}
  where
    plain :
        (o : Option Instant)
        → (is_held (replaced_phase o now) ≡ false) × (is_cancelled (replaced_phase o now) ≡ false)
    plain none = (refl, refl)
    plain (some u) = (ground arith, ground arith)

replace_untouched :
    ⦃columns : Columns⦄ (envelope : Envelope) (targets : List (ℤ × DeliveryTarget))
    (now clock : Instant) (stored : StoredMessage)
    → is_scheduled_status (derive_status stored.deliveries (message_state stored)) ≡ false
    → elim (replace_scheduled_message envelope targets now clock stored) [
      | ok (next, replaced) ↦ next
      | err e ↦ stored
    ]
      ≡ stored
unfolding replace_scheduled_message
replace_untouched envelope targets now clock stored h = ground arith

replace_scheduled :
    ⦃columns : Columns⦄ (t : Instant) (envelope : Envelope) (targets : List (ℤ × DeliveryTarget))
    (now clock : Instant) (stored : StoredMessage)
    → InPhase (scheduled_for t) stored
    → InPhase
        (next_phase (scheduled_for t) (replace_called envelope targets now clock))
        (elim (replace_scheduled_message envelope targets now clock stored) [
          | ok (next, replaced) ↦ next
          | err e ↦ stored
        ])
unfolding replace_scheduled_message is_scheduled_status
replace_scheduled t envelope targets now clock stored h = elim (Bool-cases (no_targets targets)) [
  | inl e ↦ rw e h
  | inr e ↦ elim (Bool-cases (is_zero now)) [
    | inl f ↦ rw (e, f) h
    | inr f ↦
        rw (e, f, scheduled_status t stored h)
          (content-InPhase t envelope targets now clock stored e h)
  ]
]

-- A cancel with a zero time is refused; any other is the transaction.
cancelled-InPhase :
    (p q : Phase) (now : Instant) (stored : StoredMessage)
    → InPhase p stored
    → InPhase q (cancel_locked stored now).0
    → InPhase
        (if is_zero now then p else q)
        (elim (cancel stored now) [ ok (next, outcome) ↦ next | err e ↦ stored ])
unfolding cancel
cancelled-InPhase p q now stored h cut = elim (Bool-cases (is_zero now)) [
  | inl e ↦ rw e h
  | inr e ↦ rw e cut
]

same_either_way :
    (p : Phase) (b : Bool) (stored : StoredMessage)
    → InPhase (if b then p else p) stored
    → InPhase p stored
same_either_way p true stored h = h
same_either_way p false stored h = h

cancel-InPhase :
    (p : Phase) (now : Instant) (stored : StoredMessage)
    → InPhase p stored
    → InPhase
        (next_phase p (cancel_called now))
        (elim (cancel stored now) [ ok (next, outcome) ↦ next | err e ↦ stored ])
cancel-InPhase held now stored h =
    cancelled-InPhase held cancelled now stored h (cancel_held now stored h)
cancel-InPhase (scheduled_for t) now stored h =
    cancelled-InPhase (scheduled_for t) cancelled now stored h (cancel_scheduled t now stored h).0
cancel-InPhase live now stored h =
    same_either_way live (is_zero now) _
      (cancelled-InPhase live live now stored h (rw (cancel_live now stored h).0 h))
cancel-InPhase cancelled now stored h =
    same_either_way cancelled (is_zero now) _
      (cancelled-InPhase cancelled cancelled now stored h (rw (cancel_again now stored h).0 h))

replace-InPhase :
    ⦃columns : Columns⦄ (p : Phase) (envelope : Envelope) (targets : List (ℤ × DeliveryTarget))
    (now clock : Instant) (stored : StoredMessage)
    → InPhase p stored
    → InPhase
        (next_phase p (replace_called envelope targets now clock))
        (elim (replace_scheduled_message envelope targets now clock stored) [
          | ok (next, replaced) ↦ next
          | err e ↦ stored
        ])
unfolding is_scheduled_status
replace-InPhase (scheduled_for t) envelope targets now clock stored h =
    replace_scheduled t envelope targets now clock stored h
replace-InPhase held envelope targets now clock stored h =
    rw (replace_untouched envelope targets now clock stored (held_status stored h)) h
replace-InPhase live envelope targets now clock stored h =
    rw (replace_untouched envelope targets now clock stored (live_status stored h).0) h
replace-InPhase cancelled envelope targets now clock stored h =
    rw
      (replace_untouched envelope targets now clock stored
        (ap is_scheduled_status (cancelled_status stored h)))
      h

module _ (clean : AttemptRecord → AttemptRecord) where
  event-InPhase :
      ⦃columns : Columns⦄ (p : Phase) (stored : StoredMessage) (event : MessageEvent)
      → InPhase p stored
      → InPhase (next_phase p event) (apply_event clean stored event)
  unfolding apply_event
  event-InPhase p stored (cancel_called now) h = cancel-InPhase p now stored h
  event-InPhase p stored (release_ran now) h = release-InPhase p now stored h
  event-InPhase p stored (replace_called envelope targets now clock) h =
      replace-InPhase p envelope targets now clock stored h
  event-InPhase p stored (attempted id result clock) h =
      on_delivery-InPhase p id (attempt_delivery clean result clock) stored
        (λ d. attempt-fits clean p d result clock) h
  event-InPhase p stored (replayed id now clock) h =
      on_delivery-InPhase p id _ stored (λ d. replay-fits p d now clock) h
  event-InPhase p stored (claimed id now lease clock) h =
      on_delivery-InPhase p id _ stored (λ d. claim-fits p d now lease clock) h

  -- Any history of cancels, releases, replacements, recorded attempts, replays and claims, refused
  -- ones included, takes a message that is in a phase through the phases of the machine: all its deliveries are
  -- scheduled for the same instant, all cancelled, or all pending, delivered or dead (a held message
  -- has none), and held_at and cancelled_at say which.
  pub events-InPhase :
      ⦃columns : Columns⦄ (p : Phase) (stored : StoredMessage) (events : List MessageEvent)
      → InPhase p stored
      → InPhase (last_phase p events) (apply_events clean stored events)
  unfolding apply_events
  events-InPhase p stored [] h = h
  events-InPhase p stored (e ∷ es) h =
      events-InPhase (next_phase p e) (apply_event clean stored e) es (event-InPhase p stored e h)

  stays_cancelled : (events : List MessageEvent) → last_phase cancelled events ≡ cancelled
  stays_cancelled [] = refl
  stays_cancelled (cancel_called now ∷ es) = stays_cancelled es
  stays_cancelled (release_ran now ∷ es) = stays_cancelled es
  stays_cancelled (replace_called envelope targets now clock ∷ es) = stays_cancelled es
  stays_cancelled (attempted id result clock ∷ es) = stays_cancelled es
  stays_cancelled (replayed id now clock ∷ es) = stays_cancelled es
  stays_cancelled (claimed id now lease clock ∷ es) = stays_cancelled es

  -- If a cancel of a message in one of the phases reports it cancelled, then after any further
  -- history of cancels, releases, replacements, recorded attempts, replays and claims the message is
  -- cancelled and all its deliveries are.
  pub cancel_is_final :
      ⦃columns : Columns⦄ (p : Phase) (stored : StoredMessage) (now : Instant)
      (events : List MessageEvent)
      → InPhase p stored
      → (cancel_locked stored now).1.cancelled ≡ true
      → InPhase cancelled (apply_events clean (cancel_locked stored now).0 events)
  cancel_is_final p stored now events h reported =
      rw (← stays_cancelled events)
        (events-InPhase cancelled (cancel_locked stored now).0 events (after_cancel p h))
    where
      after_cancel : (p : Phase) → InPhase p stored → InPhase cancelled (cancel_locked stored now).0
      after_cancel held h = cancel_held now stored h
      after_cancel (scheduled_for t) h = (cancel_scheduled t now stored h).0
      after_cancel cancelled h = rw (cancel_again now stored h).0 h
      after_cancel live h = absurd (ground (arith, (cancel_live now stored h).1))
