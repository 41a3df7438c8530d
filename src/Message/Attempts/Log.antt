-- ===== src/Message/Attempts/Log.antt =====
-- The delivery row and its log over any sequence of recorded attempts and replays.
use irl_notifs.Base.{
  suc, ◌+◌, ◌≤◌, ◌<◌, pos, Bool-cases, Option-cases, inl, inr, none, inc64, inc64_pos, max_int, ◌≡◌,
  true, not, List, [], ◌∷◌, arith, length, is_some,
}
use irl_notifs.Base.Time.{Instant}
use irl_notifs.Message.Types.{Delivery, AttemptRecord, AttemptResult}
use irl_notifs.Message.Attempts.{
  ok, err, LoggedAttempt, is_dead, is_delivered, is_pending, record_transition, lacks_reason,
  record_attempt, replay, validate_attempt_result,
}

pub data LogEvent : Type 0 where
  recorded : AttemptResult → Instant → LogEvent
  replayed : Instant → Instant → LogEvent

-- The rows are numbered n, n - 1, …, 1, newest first.
abbrev pub Numbered : List LoggedAttempt → Type 0
Numbered [] = Unit {0}
Numbered (a ∷ log) = (a.attempt_number ≡ pos (suc (length log))) × Numbered log

-- Every attempt is logged under its number, the dead deliveries are those with a (non-empty) reason,
-- and a delivered one has its time.
pub record IsRow (delivery : Delivery) (log : List LoggedAttempt) : Type 0 where
  pub counted : delivery.attempt_count ≡ pos (length log)
  pub numbered : Numbered log
  pub reasoned : lacks_reason delivery.dead_reason ≡ not (is_dead delivery.state)
  pub unreasoned : is_some delivery.dead_reason ≡ is_dead delivery.state
  pub dated : is_delivered delivery.state ≡ true → is_some delivery.delivered_at ≡ true

-- What the validation leaves of a result's reason.
record FitsReason (result : AttemptResult) : Type 0 where
  pub reasoned : lacks_reason result.dead_reason ≡ not (is_dead result.next_state)
  pub unreasoned : is_some result.dead_reason ≡ is_dead result.next_state

accepted-FitsReason :
    (result : AttemptResult) → validate_attempt_result result ≡ none → FitsReason result
unfolding validate_attempt_result lacks_reason
accepted-FitsReason result accepted = ground arith

transition-IsRow :
    (delivery : Delivery) (log : List LoggedAttempt) (result : AttemptResult)
    (attempt : AttemptRecord) (clock : Instant)
    → length log < max_int
    → FitsReason result
    → IsRow delivery log
    → IsRow
        (record_transition delivery result clock)
        (record { attempt_number = inc64 delivery.attempt_count; attempt = attempt } ∷ log)
unfolding record_transition
transition-IsRow delivery log result attempt clock small fits h =
    let count : inc64 delivery.attempt_count ≡ pos (suc (length log)) =
      rw h.counted (inc64_pos (length log) small) in
    record {
      counted = count;
      numbered = (count, h.numbered);
      reasoned = fits.reasoned;
      unreasoned = fits.unreasoned;
      dated = λ e. ground arith;
    }

module _ (clean : AttemptRecord → AttemptRecord) where
  -- A refused event changes nothing.
  unfoldable pub log_event :
      Delivery × List LoggedAttempt → LogEvent → Delivery × List LoggedAttempt
  log_event s (recorded result clock) = elim (record_attempt clean s result clock) [
    | ok s' ↦ s'
    | err e ↦ s
  ]
  log_event (delivery, log) (replayed now clock) = elim (replay delivery now clock) [
    | ok d ↦ (d, log)
    | err e ↦ (delivery, log)
  ]

  unfoldable pub log_events :
      Delivery × List LoggedAttempt → List LogEvent → Delivery × List LoggedAttempt
  log_events s [] = s
  log_events s (e ∷ es) = log_events (log_event s e) es

  record-IsRow :
      (delivery : Delivery) (log : List LoggedAttempt) (result : AttemptResult) (clock : Instant)
      → length log < max_int
      → IsRow delivery log
      → let (d, l) = log_event (delivery, log) (recorded result clock) in IsRow d l
  unfolding log_event record_attempt
  record-IsRow delivery log result clock small h =
      elim (Option-cases (validate_attempt_result result)) [
        | inr (e, refused) ↦ rw (refused, log_event, record_attempt) h
        | inl accepted ↦ elim (Bool-cases (is_pending delivery.state)) [
          | inr over ↦ rw (accepted, over, log_event, record_attempt) h
          | inl live ↦
              rw (accepted, live, log_event, record_attempt)
                (transition-IsRow delivery log result (clean result.attempt) clock small
                  (accepted-FitsReason result accepted) h)
        ]
      ]

  replay-IsRow :
      (delivery : Delivery) (log : List LoggedAttempt) (now clock : Instant)
      → IsRow delivery log
      → let (d, l) = log_event (delivery, log) (replayed now clock) in IsRow d l
  unfolding log_event replay lacks_reason
  replay-IsRow delivery log now clock h = ground arith

  log_event-IsRow :
      (s : Delivery × List LoggedAttempt) (e : LogEvent)
      → length s.1 < max_int
      → IsRow s.0 s.1
      → IsRow (log_event s e).0 (log_event s e).1
  log_event-IsRow s (recorded result clock) small h = record-IsRow s.0 s.1 result clock small h
  log_event-IsRow s (replayed now clock) small h = replay-IsRow s.0 s.1 now clock h

  log_event-length :
      (s : Delivery × List LoggedAttempt) (e : LogEvent)
      → length (log_event s e).1 ≤ suc (length s.1)
  unfolding log_event record_attempt
  log_event-length s (recorded result clock) = ground arith
  log_event-length s (replayed now clock) = ground arith

  -- Any sequence of recorded attempts (of any results) and replays, of a number that fits an int
  -- together with the logged attempts, keeps a row and its log in step, if they are: the attempts are numbered without gaps from 1 up to attempt_count, replays included; a
  -- delivery has a non-empty dead_reason exactly while it is dead, and none otherwise; and a
  -- delivered one has a delivered_at.
  pub log_events-IsRow :
      (s : Delivery × List LoggedAttempt) (es : List LogEvent)
      → length s.1 + length es ≤ max_int
      → IsRow s.0 s.1
      → IsRow (log_events s es).0 (log_events s es).1
  unfolding log_events
  log_events-IsRow s [] small h = h
  log_events-IsRow s (e ∷ es) small h =
      log_events-IsRow (log_event s e) es (omega (arith, log_event-length s e))
        (log_event-IsRow s e (omega arith) h)
