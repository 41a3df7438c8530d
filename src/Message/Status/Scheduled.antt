-- ===== src/Message/Status/Scheduled.antt =====
-- A status `scheduled` comes from a scheduled delivery.
use irl_notifs.Base.{◌≡◌, true, List, [], ◌∷◌, any, arith}
use irl_notifs.Message.Types.{status_scheduled, Delivery, MessageState}
use irl_notifs.Message.Status.{derive_status, of_deliveries}
use irl_notifs.Message.Status.Laws.{scheduled, status_by_quantifiers, derive_status-eq}

quantifiers_scheduled :
    (d : Delivery) (ds : List Delivery)
    → status_by_quantifiers (d ∷ ds) ≡ status_scheduled
    → any scheduled (d ∷ ds) ≡ true
quantifiers_scheduled d ds h = ground arith

pub scheduled_status-any :
    (ds : List Delivery) (state : MessageState)
    → derive_status ds state ≡ status_scheduled
    → any scheduled ds ≡ true
unfolding derive_status of_deliveries
scheduled_status-any [] state h = ground arith
scheduled_status-any (d ∷ ds) state h =
    ground (arith, derive_status-eq d ds state, quantifiers_scheduled d ds)
