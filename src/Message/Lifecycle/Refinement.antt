-- ===== src/Message/Lifecycle/Refinement.antt =====
-- The operations on the rows of a message against the machine of its phases.
use irl_notifs.Base.{
  ℤ, leb_ℤ, eqb_ℤ, ◌≡◌, refl, sym, ap, ◌∙◌, Bool, true, false, List, [], ◌∷◌, map, all, arith,
  if◌then◌else◌,
}
use irl_notifs.Base.Time.{Instant, Duration}
use irl_notifs.Message.Types.{
  status_scheduled, status_cancelled, Delivery, StoredMessage, message_state, AttemptRecord,
  AttemptResult,
}
use irl_notifs.Message.Status.{derive_status}
use irl_notifs.Message.Status.Laws.{derive_status-eq, scheduled}
use irl_notifs.Message.Attempts.{record_attempt, replay, validate_attempt_result}
use irl_notifs.Message.Lifecycle.{
  is_scheduled_status, is_cancelled_status, cancel_delivery, cancel_locked, release_delivery,
  release_due, claim_due,
}
use irl_notifs.Message.Lifecycle.Phases.{
  Phase, held, scheduled_for, cancelled, live, fits, is_empty, is_held, is_cancelled, InPhase,
  release_ran, on_delivery, or_same, attempt_delivery, next_phase,
}

pub map-fits :
    (p q : Phase) (f : Delivery → Delivery) (ds : List Delivery)
    → ((d : Delivery) → fits p d ≡ true → fits q (f d) ≡ true)
    → all (fits p) ds ≡ true
    → all (fits q) (map f ds) ≡ true
map-fits p q f [] step h = refl
map-fits p q f (d ∷ ds) step h = ground (arith, step d, map-fits p q f ds step)

pub is_empty-map :
    (f : Delivery → Delivery) (ds : List Delivery) → is_empty (map f ds) ≡ is_empty ds
is_empty-map f [] = refl
is_empty-map f (d ∷ ds) = refl

pub claim-fits :
    (p : Phase) (d : Delivery) (now : Instant) (lease : Duration) (clock : Instant)
    → fits p d ≡ true
    → fits p (or_same d (claim_due d now lease clock)) ≡ true
unfolding claim_due
claim-fits p d now lease clock h = ground arith

pub replay-fits :
    (p : Phase) (d : Delivery) (now clock : Instant)
    → fits p d ≡ true
    → fits p (or_same d (replay d now clock)) ≡ true
unfolding replay
replay-fits p d now clock h = ground arith

pub attempt-fits :
    (clean : AttemptRecord → AttemptRecord) (p : Phase) (d : Delivery) (result : AttemptResult)
    (clock : Instant)
    → fits p d ≡ true
    → fits p (attempt_delivery clean result clock d) ≡ true
unfolding attempt_delivery record_attempt validate_attempt_result
attempt-fits clean p d result clock h = ground arith

pub cancel-fits :
    (t now : Instant) (d : Delivery)
    → fits (scheduled_for t) d ≡ true
    → fits cancelled (cancel_delivery now d) ≡ true
unfolding cancel_delivery
cancel-fits t now d h = ground arith

release-fits :
    (t now : Instant) (d : Delivery)
    → fits (scheduled_for t) d ≡ true
    → fits (if leb_ℤ t now then live else scheduled_for t) (release_delivery now d) ≡ true
unfolding release_delivery
release-fits t now d h = ground arith

abbrev is_timed : Phase → Bool
is_timed (scheduled_for t) = true
is_timed _ = false

release-keeps :
    (p : Phase) (now : Instant) (d : Delivery)
    → is_timed p ≡ false
    → fits p d ≡ true
    → fits p (release_delivery now d) ≡ true
unfolding release_delivery
release-keeps p now d untimed h = ground arith

pub map_deliveries-InPhase :
    (p q : Phase) (f : Delivery → Delivery) (stored : StoredMessage)
    → is_held q ≡ is_held p
    → is_cancelled q ≡ is_cancelled p
    → ((d : Delivery) → fits p d ≡ true → fits q (f d) ≡ true)
    → InPhase p stored
    → InPhase q (record stored { deliveries = map f stored.deliveries })
map_deliveries-InPhase p q f stored same_held same_cancelled step h = record {
  deliveries_fit = map-fits p q f stored.deliveries step h.deliveries_fit;
  held_marked = h.held_marked ∙ sym same_held;
  cancelled_marked = h.cancelled_marked ∙ sym same_cancelled;
  not_failed = h.not_failed;
  has_deliveries = λ e.
      is_empty-map f stored.deliveries ∙ h.has_deliveries (rw (← same_held, ← same_cancelled) e);
}

-- Changing one delivery keeps the phase, if the change does.
pub on_delivery-InPhase :
    (p : Phase) (id : ℤ) (f : Delivery → Delivery) (stored : StoredMessage)
    → ((d : Delivery) → fits p d ≡ true → fits p (f d) ≡ true)
    → InPhase p stored
    → InPhase p (on_delivery id f stored)
on_delivery-InPhase p id f stored step h =
    map_deliveries-InPhase p p (λ d. if eqb_ℤ d.id id then f d else d) stored refl refl
      (λ d fit. ground (arith, step d)) h

-- The derived status tells the phase.
scheduled-all :
    (t : Instant) (ds : List Delivery)
    → all (fits (scheduled_for t)) ds ≡ true
    → all scheduled ds ≡ true
scheduled-all t [] h = refl
scheduled-all t (d ∷ ds) h = ground (arith, scheduled-all t ds)

pub scheduled_status :
    (t : Instant) (stored : StoredMessage)
    → InPhase (scheduled_for t) stored
    → derive_status stored.deliveries (message_state stored) ≡ status_scheduled
scheduled_status t stored h = go stored.deliveries refl
  where
    go :
        (ds : List Delivery)
        → stored.deliveries ≡ ds
        → derive_status ds (message_state stored) ≡ status_scheduled
    go [] e = absurd (ground (arith, h.has_deliveries refl))
    go (d ∷ ds) e = ground (
      arith,
      h.held_marked,
      h.cancelled_marked,
      h.not_failed,
      derive_status-eq d ds (message_state stored),
      scheduled-all t (d ∷ ds),
      ap (all (fits (scheduled_for t))) e,
      h.deliveries_fit,
    )

pub live_status :
    (stored : StoredMessage)
    → InPhase live stored
    → (is_scheduled_status (derive_status stored.deliveries (message_state stored)) ≡ false)
      × (is_cancelled_status (derive_status stored.deliveries (message_state stored)) ≡ false)
unfolding is_scheduled_status is_cancelled_status
live_status stored h = go stored.deliveries refl
  where
    go :
        (ds : List Delivery)
        → stored.deliveries ≡ ds
        → (is_scheduled_status (derive_status ds (message_state stored)) ≡ false)
          × (is_cancelled_status (derive_status ds (message_state stored)) ≡ false)
    go [] e = absurd (ground (arith, h.has_deliveries refl))
    go (d ∷ ds) e = rw (derive_status-eq d ds (message_state stored)) (
        ground (
          arith,
          h.held_marked,
          h.cancelled_marked,
          h.not_failed,
          ap (all (fits live)) e,
          h.deliveries_fit,
        ))

pub cancelled_status :
    (stored : StoredMessage)
    → InPhase cancelled stored
    → derive_status stored.deliveries (message_state stored) ≡ status_cancelled
unfolding derive_status
cancelled_status stored h = ground (arith, h.cancelled_marked)

pub held_status :
    (stored : StoredMessage)
    → InPhase held stored
    → is_scheduled_status (derive_status stored.deliveries (message_state stored)) ≡ false
unfolding derive_status is_scheduled_status
held_status stored h = ground (arith, h.cancelled_marked, h.held_marked)

pub release-InPhase :
    (p : Phase) (now : Instant) (stored : StoredMessage)
    → InPhase p stored
    → InPhase (next_phase p (release_ran now)) (release_due stored now)
unfolding release_due
release-InPhase held now stored h =
    map_deliveries-InPhase held held (release_delivery now) stored refl refl
      (λ d. release-keeps held now d refl) h
release-InPhase live now stored h =
    map_deliveries-InPhase live live (release_delivery now) stored refl refl
      (λ d. release-keeps live now d refl) h
release-InPhase cancelled now stored h =
    map_deliveries-InPhase cancelled cancelled (release_delivery now) stored refl refl
      (λ d. release-keeps cancelled now d refl) h
release-InPhase (scheduled_for t) now stored h =
    map_deliveries-InPhase (scheduled_for t) (if leb_ℤ t now then live else scheduled_for t)
      (release_delivery now) stored (ground arith) (ground arith) (release-fits t now) h

-- What a cancel does to a message in a phase.
pub cancel_held :
    (now : Instant) (stored : StoredMessage)
    → InPhase held stored
    → InPhase cancelled (cancel_locked stored now).0
unfolding cancel_locked
cancel_held now stored h = ground (
  arith,
  h.cancelled_marked,
  h.held_marked,
  h.not_failed,
  no_deliveries stored.deliveries h.deliveries_fit,
)
  where
    no_deliveries :
        (ds : List Delivery) → all (fits held) ds ≡ true → all (fits cancelled) ds ≡ true
    no_deliveries [] e = refl
    no_deliveries (d ∷ ds) e = absurd (ground arith)
