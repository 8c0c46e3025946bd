-- ===== src/Manager/StatusPage/Total.antt =====
-- The page can be made in every state that the service comes to.
use tzafon_way_point.Prelude.{◌≡◌, some}
use tzafon_way_point.Prelude.Status.{Result, ok}
use tzafon_way_point.Proto.{TimestampMs, InstanceDescription}
use tzafon_way_point.Manager.World.{World}
use tzafon_way_point.Manager.Apply.Stamps.{IsStamped}

abbrev IsOk : {A : Type 0} → Result A → Type 0
IsOk {A} r = (a : A) × (r ≡ ok a)

-- What the page needs of a description.
abbrev HasTimes : InstanceDescription → Type 0
HasTimes d = ((t : TimestampMs) × (d.created_timestamp_ms ≡ some t)) × IsStamped d
