-- ===== src/Message/Columns.antt =====
-- What the columns of messages keep of an envelope: payload is jsonb, which writes a document anew, and
-- deliver_at is a timestamptz. The strings of a display come back from their jsonb as they were.
use irl_notifs.Base.{Text, false, Option, none, some}
use irl_notifs.Base.Time.{Instant}
use irl_notifs.Message.Types.{Envelope}

pub record Columns : Type 0 where
  pub payload : Text → Text
  pub instant : Instant → Instant

abbrev pub kept_instant : Columns → Option Instant → Option Instant
kept_instant columns none = none
kept_instant columns (some t) = some (columns.instant t)

-- The envelope as its row is read back. `Hold` is not stored.
abbrev pub kept_envelope : Columns → Envelope → Envelope
kept_envelope columns envelope = record envelope {
  payload = columns.payload envelope.payload;
  deliver_at = kept_instant columns envelope.deliver_at;
  hold = false;
}
