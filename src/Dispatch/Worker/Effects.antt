-- ===== src/Dispatch/Worker/Effects.antt =====
-- What processing a claim does, and to whom.
use irl_notifs.Base.{
  ℕ, ◌≤◌, ℤ, pos, Text, Bool, true, eqb_ℤ-sound, text_eq_iff, ◌≡◌, ◌≢◌, ◌↔◌, refl, false, ◌&&◌, not,
  Option, none, some, List, [], ◌∷◌, arith, length,
}
use irl_notifs.Base.Time.{Instant}
use irl_notifs.Message.Types.{
  DeadReason, outcome_gone, Claim, AttemptResult, dead_reason_budget_exhausted,
  dead_reason_unsupported_type,
}
use irl_notifs.Message.Attempts.{validate_attempt_result, lacks_reason}
use irl_notifs.Registry.Types.{
  ResolvedDestination, Resolution, resolved, unknown_destination, destination_disabled,
  resolve_failed, recipient_destination_name,
}
use irl_notifs.Dispatch.Policy.{Floats, SinkOutcome}
use irl_notifs.Dispatch.Policy.Decisions.{decide-accepted}
use irl_notifs.Dispatch.Worker.{
  Services, Target, send_to, give_up, unresolved, Effect, sent, recorded, lost, disabled, Sink,
  is_recipient, of_resolution, resolve, never_sent, deliver, measured, after_send, process,
  start_is_ancient, is_gone, record_writes, record_result,
}

of_resolution-send :
    (id : Option ℤ) (r : Resolution) (destination : ResolvedDestination)
    → of_resolution id r ≡ send_to destination
    → (r ≡ resolved (destination ∷ [])) × (id ≡ some destination.id)
unfolding of_resolution
of_resolution-send none r destination h = absurd (ground arith)
of_resolution-send (some i) unknown_destination destination h = absurd (ground arith)
of_resolution-send (some i) destination_disabled destination h = absurd (ground arith)
of_resolution-send (some i) (resolve_failed e) destination h = absurd (ground arith)
of_resolution-send (some i) (resolved []) destination h = absurd (ground arith)
of_resolution-send (some i) (resolved (d ∷ [])) destination h =
    (ground arith, ground (arith, eqb_ℤ-sound i d.id))
of_resolution-send (some i) (resolved (d ∷ e ∷ rest)) destination h = absurd (ground arith)

module _ (services : Services) where
  -- A delivery that names a destination is sent only to what the registry resolves that name to, alone,
  -- for the message's app, and only if it is still the destination that the delivery was created
  -- for: one deleted and created again under its name gets nothing.
  pub send_to_addressee :
      (claim : Claim) (destination : ResolvedDestination)
      → claim.delivery.destination_name ≢ recipient_destination_name
      → resolve services claim ≡ send_to destination
      → (services.resolve_named claim.message.envelope.app_id claim.delivery.destination_name
            claim.message.envelope.channel
          ≡ resolved (destination ∷ []))
        × (claim.delivery.destination_id ≡ some destination.id)
  unfolding resolve
  send_to_addressee claim destination named h =
      of_resolution-send claim.delivery.destination_id _ destination
        (ground (arith, text_eq_iff claim.delivery.destination_name recipient_destination_name))

-- The results handed to the store, in order, whether it keeps them or they are lost.
abbrev pub recordings : List Effect → List AttemptResult
recordings [] = []
recordings (recorded result ∷ es) = result ∷ recordings es
recordings (lost result ∷ es) = result ∷ recordings es
recordings (_ ∷ es) = recordings es

abbrev pub AllAccepted : List AttemptResult → Type 0
AllAccepted [] = Unit {0}
AllAccepted (result ∷ results) = (validate_attempt_result result ≡ none) × AllAccepted results

-- At most one result is handed to the store, and its validation takes it.
abbrev pub AcceptedOnce : List Effect → Type 0
AcceptedOnce es = AllAccepted (recordings es) × (length (recordings es) ≤ 1)

-- A disabling of the destination that was sent to, behind a gone outcome.
abbrev pub DisablesGone : Claim → ResolvedDestination → AttemptResult → Text → ℤ → Type 0
DisablesGone claim d result name id =
    (result.attempt.outcome ≡ outcome_gone)
    × (name ≡ claim.delivery.destination_name)
    × (name ≢ recipient_destination_name)
    × (id ≡ d.id)

abbrev pub disables : Claim → AttemptResult → Bool
disables claim result = is_gone result.attempt.outcome && not (is_recipient claim)

-- The effects of one claim, in order: none; one recording; or a send and then its recording, and
-- behind that a disabling exactly if the outcome was gone and the delivery names a destination, of
-- that name and of the identity that was sent to. A recording is kept or lost as the test says.
abbrev pub Orderly : Bool → Claim → List Effect → Type 0
Orderly kept claim [] = Unit {0}
Orderly kept claim (recorded result ∷ []) = kept ≡ true
Orderly kept claim (lost result ∷ []) = kept ≡ false
Orderly kept claim (sent d ∷ recorded result ∷ []) = (kept ≡ true) × (disables claim result ≡ false)
Orderly kept claim (sent d ∷ lost result ∷ []) = (kept ≡ false) × (disables claim result ≡ false)
Orderly kept claim (sent d ∷ recorded result ∷ disabled name id ∷ []) =
    (kept ≡ true) × DisablesGone claim d result name id
Orderly kept claim (sent d ∷ lost result ∷ disabled name id ∷ []) =
    (kept ≡ false) × DisablesGone claim d result name id
Orderly kept claim _ = ⊥

-- Reasons that RecordAttempt takes.
resolve-reason :
    (services : Services) (claim : Claim) (reason : DeadReason)
    → resolve services claim ≡ give_up reason
    → lacks_reason (some reason) ≡ false
unfolding resolve lacks_reason
resolve-reason services claim reason h = ground arith

never_sent-accepted :
    (claim : Claim) (now : Instant) (reason : DeadReason)
    → lacks_reason (some reason) ≡ false
    → validate_attempt_result (never_sent claim reason now) ≡ none
unfolding validate_attempt_result never_sent
never_sent-accepted claim now reason h = ground arith

module _ (floats : Floats) (random : Option (floats.Float)) (services : Services) where
  measured-accepted :
      (claim : Claim) (outcome : SinkOutcome) (started : Instant) (n : ℕ)
      → validate_attempt_result (measured floats random services claim outcome started (pos n))
        ≡ none
  unfolding measured validate_attempt_result
  measured-accepted claim outcome started n =
      ground (arith, decide-accepted floats claim.delivery outcome (pos n) random n refl)

  after_send-accepted :
      (claim : Claim) (d : ResolvedDestination) (outcome : SinkOutcome) (started : Instant) (n : ℕ)
      → AcceptedOnce (
          after_send floats random services claim d
            (measured floats random services claim outcome started (pos n)))
  unfolding after_send record_result
  after_send-accepted claim d outcome started n =
      ground (arith, measured-accepted claim outcome started n)

  never_sent_once :
      (claim : Claim) (now : Instant) (reason : DeadReason)
      → lacks_reason (some reason) ≡ false
      → AcceptedOnce (record_result services (never_sent claim reason now) ∷ [])
  unfolding record_result
  never_sent_once claim now reason h = ground (arith, never_sent-accepted claim now reason h)

  -- A target that is sent to, with and without a sink for its type.
  sink-accepted :
      (claim : Claim) (first second : ℕ) (d : ResolvedDestination) (found : Option Sink)
      → resolve services claim ≡ send_to d
      → services.sinks d.type ≡ found
      → AcceptedOnce (process floats random services claim (pos first) (pos second))
  unfolding process
  sink-accepted claim first second d none e f =
      rw (e, f, process)
        (never_sent_once claim (pos first) dead_reason_unsupported_type
          (unfold lacks_reason in refl))
  sink-accepted claim first second d (some sink) e f =
      rw (e, f, process)
        (after_send-accepted claim d (deliver services sink d claim) (pos first) second)

  target-accepted :
      (claim : Claim) (first second : ℕ) (target : Target)
      → resolve services claim ≡ target
      → AcceptedOnce (process floats random services claim (pos first) (pos second))
  unfolding process
  target-accepted claim first second unresolved e = ground (
    arith,
    never_sent_once claim (pos second) dead_reason_budget_exhausted (unfold lacks_reason in refl),
  )
  target-accepted claim first second (give_up reason) e =
      rw (e, process)
        (never_sent_once claim (pos first) reason (resolve-reason services claim reason e))
  target-accepted claim first second (send_to d) e =
      sink-accepted claim first second d (services.sinks d.type) e refl

  -- Whatever the registry, the recipient resolver and the sinks answer (a panic included), the
  -- worker hands at most one result of a claim to the store, and the store's validation accepts it, if
  -- the clock reads no time before the zero time.
  pub process-accepted :
      (claim : Claim) (first second : ℕ)
      → AcceptedOnce (process floats random services claim (pos first) (pos second))
  process-accepted claim first second =
      target-accepted claim first second (resolve services claim) refl

  pub process-Orderly :
      (claim : Claim) (first second : Instant)
      → Orderly
          (record_writes services.write_succeeds services.record_done).1
          claim
          (process floats random services claim first second)
  unfolding process after_send is_recipient record_result
  process-Orderly claim first second =
      ground (arith, text_eq_iff claim.delivery.destination_name recipient_destination_name)

  -- The worker writes nothing about a claim exactly if the destination could not be resolved (an
  -- unknown state) while the retry budget is less than 24 hours old.
  pub process_silent :
      (claim : Claim) (first second : Instant)
      → (process floats random services claim first second ≡ [])
        ↔ ((resolve services claim ≡ unresolved) × (start_is_ancient claim first ≡ false))
  unfolding process after_send record_result
  process_silent claim first second = (λ h. ground arith, λ h. ground arith)
