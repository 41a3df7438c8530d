-- ===== src/Heartbeat/Machine/Schedule.antt =====
-- The deadline clock of a check: period, grace, late, down.
use irl_notifs.Base.{
  ℕ, ◌+◌, ◌*◌, ◌≤◌, pos, ◌+ℤ◌, +ℤ_parts, int_laws, wrap64, wrap64_small, ◌≡◌, refl, ap, ◌∙◌, true,
  false, none, arith, ltb, if◌then◌else◌, eq_of_parts,
}
use irl_notifs.Base.Time.{Instant, after, seconds_small}
use irl_notifs.Heartbeat.Types.{state_up, state_down, state_late, StoredCheck}
use irl_notifs.Heartbeat.Machine.{
  deadline, late_after, derived_state, advance_tick, apply_resume, apply_probe_reset,
}

-- A period of `p` and a grace of `g` seconds, within the bounds of validate.go.
pub record IsScheduled (p g : ℕ) (check : StoredCheck) : Type 0 where
  pub period : check.period_seconds ≡ pos p
  pub grace : check.grace_seconds ≡ pos g
  pub period_bound : p ≤ 2678400
  pub grace_bound : g ≤ 604800

abbrev pub ns : ℕ → ℕ
ns s = s * 1000000000

sum_small : (p g : ℕ) → p + g ≤ 3283200 → wrap64 (pos p +ℤ pos g) ≡ pos (p + g)
sum_small p g h =
    ap wrap64 (eq_of_parts (pos p +ℤ pos g) (pos (p + g)) (omega int_laws))
    ∙ wrap64_small (p + g) (omega arith)

deadline_lem :
    (p g : ℕ) (check : StoredCheck)
    → IsScheduled p g check
    → deadline check ≡ check.anchor_at +ℤ pos (ns (p + g))
unfolding deadline
deadline_lem p g check h =
    rw (h.period, h.grace, sum_small p g (omega arith), seconds_small (p + g) (omega arith)) refl

late_after_lem :
    (p g : ℕ) (check : StoredCheck)
    → IsScheduled p g check
    → late_after check ≡ check.anchor_at +ℤ pos (ns p)
unfolding late_after
late_after_lem p g check h = rw (h.period, seconds_small p (omega arith)) refl

after-add : (t : Instant) (e d : ℕ) → after (t +ℤ pos e) (t +ℤ pos d) ≡ ltb d e
after-add t e d = ground (arith, +ℤ_parts t (pos e), +ℤ_parts t (pos d))

-- An unpaused push check that is up, with a valid schedule, `e` nanoseconds after its anchor: it
-- reads as up to the end of the period and as late after it; a tick changes nothing of it up to the end of
-- the grace, and takes it down, telling so, after that.
pub timeline :
    (p g e : ℕ) (check : StoredCheck)
    → IsScheduled p g check
    → check.probe ≡ none
    → check.paused ≡ false
    → check.state ≡ state_up
    → let now = check.anchor_at +ℤ pos e in
      (derived_state check now ≡ (if ltb (ns p) e then state_late else state_up))
      × ((advance_tick check now).1 ≡ ltb (ns (p + g)) e)
      × ((advance_tick check now).0.state ≡ (if ltb (ns (p + g)) e then state_down else state_up))
      × ((if ltb (ns (p + g)) e then check else (advance_tick check now).0) ≡ check)
unfolding derived_state advance_tick
timeline p g e check h push running up = ground (
  arith,
  deadline_lem p g check h,
  late_after_lem p g check h,
  after-add check.anchor_at e (ns p),
  after-add check.anchor_at e (ns (p + g)),
)

-- A tick that has taken a check down does nothing on the next tick, whenever that is.
pub tick_once :
    (check : StoredCheck) (now later : Instant)
    → (advance_tick check now).1 ≡ true
    → advance_tick (advance_tick check now).0 later ≡ ((advance_tick check now).0, false)
unfolding advance_tick
tick_once check now later h = ground arith

resumed-IsScheduled :
    (p g : ℕ) (check : StoredCheck) (now : Instant)
    → IsScheduled p g check
    → IsScheduled p g (apply_resume check now)
unfolding apply_resume apply_probe_reset
resumed-IsScheduled p g check now h = ground arith

resumed_anchor :
    (check : StoredCheck) (now : Instant)
    → check.paused ≡ true
    → (apply_resume check now).anchor_at ≡ now
unfolding apply_resume apply_probe_reset
resumed_anchor check now h = ground arith

tick_before_deadline :
    (check : StoredCheck) (now : Instant)
    → after now (deadline check) ≡ false
    → advance_tick check now ≡ (check, false)
unfolding advance_tick
tick_before_deadline check now h = ground arith

-- A paused check with a valid schedule that is resumed is left alone by every tick up to a full
-- period and grace after the resume, however old its anchor was.
pub resume_restarts_clock :
    (p g e : ℕ) (check : StoredCheck) (now : Instant)
    → IsScheduled p g check
    → check.paused ≡ true
    → e ≤ ns (p + g)
    → let next = apply_resume check now in advance_tick next (now +ℤ pos e) ≡ (next, false)
resume_restarts_clock p g e check now h stopped early =
    tick_before_deadline (apply_resume check now) (now +ℤ pos e) (
      rw
        (
          deadline_lem p g (apply_resume check now) (resumed-IsScheduled p g check now h),
          resumed_anchor check now stopped,
          after-add now e (ns (p + g)),
        )
        (ground arith))
