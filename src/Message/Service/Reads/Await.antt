-- ===== src/Message/Service/Reads/Await.antt =====
-- Await of message/service.go: what the loop of polls returns, over the events that its select meets.
use irl_notifs.Base.{
  leb_ℤ, ltb_ℤ, pos, ◌≡◌, refl, inl, inr, Bool, true, false, ◌&&◌, ◌||◌, not, Option, none, some,
  List, [], ◌∷◌, is_some, all, any, arith, Bool-cases, if◌then◌else◌,
}
use irl_notifs.Base.Time.{Duration}
use irl_notifs.Message.Types.{StoredMessage}
use irl_notifs.Message.Attempts.{is_pending}
use irl_notifs.Message.Targets.{SubmitError, Answer, yields, refuses}

-- One turn of the select: the context is done, the deadline passes and Get answers, or a tick and Get
-- answers.
pub data Poll : Type 0 where
  context_done : SubmitError → Poll
  deadline_passed : Answer StoredMessage → Poll
  ticked : Answer StoredMessage → Poll

unfoldable pub attempted : StoredMessage → Bool
attempted stored =
    all (λ d. not (is_pending d.state && ltb_ℤ d.attempt_count (pos 1))) stored.deliveries

-- The message that is returned, with the error beside it; `none` while the loop still waits.
abbrev pub Awaited : Type 0
Awaited = Option (StoredMessage × Option SubmitError)

unfoldable pub await_loop : StoredMessage → List Poll → Awaited
await_loop latest [] = none
await_loop latest (context_done e ∷ polls) = some (latest, some e)
await_loop latest (deadline_passed (refuses e) ∷ polls) = some (latest, some e)
await_loop latest (deadline_passed (yields final) ∷ polls) = some (final, none)
await_loop latest (ticked (refuses e) ∷ polls) = some (latest, some e)
await_loop latest (ticked (yields next) ∷ polls) = elim (attempted next) [
  | true ↦ some (next, none)
  | false ↦ await_loop next polls
]

-- Await behind its first read; `slot` tells whether a place to poll is free.
unfoldable pub await : StoredMessage → Duration → Bool → List Poll → Awaited
await first timeout slot polls =
    if leb_ℤ timeout (pos 0) || attempted first
    then some (first, none)
    else if not slot
    then some (first, none)
    else await_loop first polls

abbrev pub ends_wait : Poll → Bool
ends_wait (context_done e) = true
ends_wait (deadline_passed answer) = true
ends_wait (ticked answer) = false

loop_ends :
    (latest : StoredMessage) (polls : List Poll)
    → any ends_wait polls ≡ true
    → is_some (await_loop latest polls) ≡ true
unfolding await_loop
loop_ends latest [] h = ground (arith, h)
loop_ends latest (context_done e ∷ polls) h = refl
loop_ends latest (deadline_passed (refuses e) ∷ polls) h = refl
loop_ends latest (deadline_passed (yields m) ∷ polls) h = refl
loop_ends latest (ticked (refuses e) ∷ polls) h = refl
loop_ends latest (ticked (yields m) ∷ polls) h = elim (Bool-cases (attempted m)) [
  | inl e ↦ ground (arith, e)
  | inr e ↦ ground (arith, e, h, loop_ends m polls)
]

-- Await returns when its deadline passes or its context is done, at the latest.
pub await_ends :
    (first : StoredMessage) (timeout : Duration) (slot : Bool) (polls : List Poll)
    → any ends_wait polls ≡ true
    → is_some (await first timeout slot polls) ≡ true
unfolding await
await_ends first timeout slot polls h = ground (arith, loop_ends first polls h)
