-- ===== src/Db/Media/Seerr/Once.antt =====
-- A request is done once.
use rehydrator.Base.{ℕ, Option, none, some, List}
use rehydrator.Db.Media.Seerr.{SeerrRequest, SeerrTables}

requests_or : List SeerrRequest → Option (SeerrTables × ℕ) → List SeerrRequest
requests_or rs none = rs
requests_or rs (some (t, n)) = t.requests
