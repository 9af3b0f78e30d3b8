-- ===== src/Db/Media/Health/Targets.antt =====
-- `Targets` and the test of `AcquireFileHealthPass` of internal/db/file_health.go: the files that
-- a pass checks.
use rehydrator.Base.{
  ℕ, ◌+◌, Bool, true, false, not, ◌&&◌, ◌||◌, Option, none, some, List, map, ltb, leb, ◌==◌,
  if◌then◌else◌, Text, text_eq,
}
use rehydrator.Db.Rows.{find, select_by}
use rehydrator.Db.Jobs.Claim.{text_le}
use rehydrator.Db.Media.{Item, SavedSource, available, broken, is_in, is_tracked, or_empty}
use rehydrator.Db.Media.Marks.{is_torrent_row}
use rehydrator.Db.Media.Health.{Target, FileHealth, source_key_of}
use rehydrator.Db.Media.Health.Finish.{has_source}

-- the tenant has had no run for an interval
abbrev pub is_due_run : ℕ → ℕ → Option ℕ → Bool
is_due_run now interval none = true
is_due_run now interval (some at) = leb (at + interval) now

unfoldable pub is_checkable : Text → Bool → List SavedSource → Item → Bool
unfolding has_source
is_checkable tenant broken_too sources m =
    text_eq m.tenant tenant
    && is_torrent_row m
    && (is_in available m.state || (broken_too && is_in broken m.state && is_torrent_row m))
    && not m.rearm_requested
    && is_tracked m
    && has_source sources m

-- LEFT JOIN media_cache_file_health h ON h.media_id=m.id
abbrev pub health_of : List FileHealth → Item → Option FileHealth
health_of files m = find (λ h. text_eq h.media_id m.id) files

-- CASE WHEN h.path=… AND h.source_key=… THEN h.consecutive_failures ELSE 0 END
abbrev pub known_failures : Item → Option FileHealth → ℕ
known_failures m none = 0
known_failures m (some h) =
    if text_eq h.path m.symlink_path && text_eq h.source_key (source_key_of m)
    then h.consecutive_failures
    else 0

unfoldable pub target_of : List FileHealth → Item → Target
unfolding find
target_of files m = record {
  id = m.id;
  path = m.symlink_path;
  source_key = source_key_of m;
  protocol = m.source_protocol;
  info_hash = or_empty m.info_hash;
  failures = known_failures m (health_of files m);
}

-- h.last_checked_at ASC NULLS FIRST, m.id
abbrev pub check_before : Text → Text → Option FileHealth → Option FileHealth → Bool
check_before i j none none = text_le i j
check_before i j none (some k) = true
check_before i j (some h) none = false
check_before i j (some h) (some k) =
    ltb h.last_checked_at k.last_checked_at
    || (h.last_checked_at == k.last_checked_at && text_le i j)

unfoldable pub checked_earlier : List FileHealth → Item → Item → Bool
unfolding find
checked_earlier files m n = check_before m.id n.id (health_of files m) (health_of files n)

-- Targets
unfoldable pub targets :
    Text → ℕ → Bool → List SavedSource → List FileHealth → List Item → List Target
unfolding select_by checked_earlier is_checkable target_of
targets tenant limit broken_too sources files rows =
    map (target_of files)
      (select_by (checked_earlier files) (is_checkable tenant broken_too sources) limit rows)
