-- ===== src/Db/Jobs/Mounts.antt =====
-- The statements on gateway_jobs of internal/db/gateway_mount.go, gateway_release_folder.go and
-- gateway_diagnostics.go, and the insertion of a source by internal/db/gateway.go.
use rehydrator.Base.{
  ℕ, Text, codes, ◌+◌, min, Bool, true, false, not, ◌&&◌, ◌||◌, Option, none, some, List, [], ◌∷◌,
  ◌++◌, ltb, leb, ◌==◌, text_eq, if◌then◌else◌,
}
use rehydrator.Model.Types.{Protocol, is_torrent, torrent, usenet, nzb_file, TorrentMetadata}
use rehydrator.Db.Rows.{update, rows_affected, find, first_by}
use rehydrator.Db.Jobs.Claim.{text_le}
use rehydrator.Db.Jobs.{Job, Row, queued, mounting, completed, missing, state_eq, has_id}

-- ClaimGatewayMount
unfoldable pub wants_verification : Row → Bool
wants_verification r =
    state_eq r.state mounting
    || r.cleanup_requested
    || (state_eq r.state completed && not r.hidden && text_eq r.release_folder [])

-- ORDER BY verify_next_at, id
unfoldable pub verified_before : Row → Row → Bool
verified_before r s =
    ltb r.verify_next_at s.verify_next_at
    || (r.verify_next_at == s.verify_next_at && text_le r.id s.id)

unfoldable pub claim_mount : ℕ → (Row → Bool) → List Row → Option Row
unfolding first_by verified_before wants_verification
claim_mount now locked =
    first_by verified_before
      (λ r. wants_verification r && leb r.verify_next_at now && not (locked r))

unfoldable pub lease_mount : ℕ → Text → List Row → List Row
unfolding update
lease_mount now id = update (has_id id) (λ r. record r { verify_next_at = now + 60 })

-- FinishGatewayMount: an empty detail completes the job
unfoldable pub may_finish : Job → Row → Bool
may_finish j r =
    has_id j.id r
    && state_eq r.state mounting
    && r.catalog_revision == j.catalog_revision
    && not r.cleanup_requested

unfoldable pub finished_mount : Text → Row → Row
finished_mount detail r = record r {
  job = record (r.job) {
    state = if text_eq detail [] then completed else r.state;
    last_error = detail;
  };
}

unfoldable pub finish_mount : Job → Text → List Row → List Row
unfolding update may_finish finished_mount
finish_mount j detail = update (may_finish j) (finished_mount detail)

-- its result: whether the job was completed
unfoldable pub finish_mount_completed : Job → Text → List Row → Bool
unfolding rows_affected may_finish
finish_mount_completed j detail rows =
    ltb 0 (rows_affected (may_finish j) rows) && text_eq detail []

-- RequestGatewayCleanup
unfoldable pub request_cleanup : ℕ → Text → List Row → List Row
unfolding update
request_cleanup now id = update (has_id id) (λ r. record r {
  job = record (r.job) { hidden = true; cleanup_requested = true };
  verify_next_at = now;
})

-- FinishGatewayCleanup
unfoldable pub finish_cleanup : Job → List Row → List Row
unfolding update
finish_cleanup j =
    update (λ r. has_id j.id r && r.catalog_revision == j.catalog_revision && r.hidden)
      (λ r. record r { job = record (r.job) { cleanup_requested = false } })

-- PinGatewayReleaseFolder: the updated row is returned, and no row is an error
unfoldable pub may_pin : Job → Row → Bool
may_pin j r =
    has_id j.id r
    && text_eq r.release_folder []
    && r.catalog_revision == j.catalog_revision
    && (state_eq r.state mounting || state_eq r.state completed)
    && not r.cleanup_requested

unfoldable pub pinned : Text → Row → Row
pinned folder r = record r {
  job = record (r.job) {
    release_folder = folder;
    state = mounting;
    catalog_revision = r.catalog_revision + 1;
  };
}

unfoldable pub pin_release_folder : Job → Text → List Row → List Row
unfolding update may_pin pinned
pin_release_folder j folder = update (may_pin j) (pinned folder)

abbrev pub pinned_job : Text → Option Row → Option Job
pinned_job folder none = none
pinned_job folder (some r) = some (pinned folder r).job

unfoldable pub pin_result : Job → Text → List Row → Option Job
unfolding find may_pin pinned
pin_result j folder rows = pinned_job folder (find (may_pin j) rows)

-- RequestGatewayRecovery
unfoldable pub may_recover : Job → Row → Bool
may_recover j r =
    has_id j.id r
    && state_eq r.state missing
    && leb 3 r.missing_checks
    && ltb r.attempts 3
    && r.provider_id == j.provider_id
    && r.catalog_revision == j.catalog_revision
    && not r.cleanup_requested

unfoldable pub request_recovery : ℕ → Job → List Row → List Row
unfolding update may_recover
request_recovery now j =
    update (may_recover j) (λ r. record r { next_check_at = min r.next_check_at now })

unfoldable pub request_recovery_changed : Job → List Row → Bool
unfolding rows_affected may_recover
request_recovery_changed j rows = rows_affected (may_recover j) rows == 1

-- AddGatewaySource, after validation: the unique indexes decide whether the source has a job,
-- (tenant, infohash) for torrents and (tenant, category, fingerprint) otherwise. `new_id` is the
-- ID that the database generates, `digest` the hex digest of the payload.
unfoldable pub conflicts : Text → Text → Protocol → TorrentMetadata → Row → Bool
conflicts category digest torrent s r = is_torrent r.protocol && text_eq r.info_hash s.info_hash
conflicts category digest usenet s r = text_eq r.category category && text_eq r.fingerprint digest

unfoldable pub revealed : Row → Row
revealed r = record r { job = record (r.job) { hidden = false; cleanup_requested = false } }

unfoldable pub new_row : ℕ → Text → Text → Text → Text → Protocol → TorrentMetadata → Row
new_row now new_id category digest filename protocol s = record {
  job = record {
    id = new_id;
    category = category;
    filename = filename;
    name = if is_torrent protocol then s.source_title else filename;
    state = queued;
    last_error = [];
    protocol = protocol;
    source_kind = if is_torrent protocol then s.kind else nzb_file;
    info_hash = if is_torrent protocol then s.info_hash else [];
    magnet = if is_torrent protocol then s.magnet else [];
    torrent_file = if is_torrent protocol then s.torrent else [];
    nzb = s.nzb;
    provider_id = 0;
    attempts = 0;
    missing_checks = 0;
    hidden = false;
    cleanup_requested = false;
    catalog_revision = 0;
    created_at = now;
    files = [];
    release_folder = [];
    provider_status = none;
  };
  fingerprint = if is_torrent protocol then codes "torrent:" ++ s.info_hash else digest;
  next_check_at = now;
  verify_next_at = now;
}

unfoldable pub insert_source :
    ℕ → Text → Text → Text → Text → Protocol → TorrentMetadata → List Row → List Row
unfolding update rows_affected conflicts revealed new_row
insert_source now new_id category digest filename protocol s rows =
    if rows_affected (conflicts category digest protocol s) rows == 0
    then rows ++ new_row now new_id category digest filename protocol s ∷ []
    else update (conflicts category digest protocol s) revealed rows
