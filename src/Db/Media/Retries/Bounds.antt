-- ===== src/Db/Media/Retries/Bounds.antt =====
-- The number of attempts that are reserved for one release.
use rehydrator.Base.{◌≤◌}
use rehydrator.Db.Media.Retries.{Retry}

abbrev pub IsBounded : Retry → Type 0
IsBounded r = r.attempts ≤ 3
