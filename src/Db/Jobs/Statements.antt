-- ===== src/Db/Jobs/Statements.antt =====
-- The statements on gateway_jobs of internal/db/gateway_jobs.go, gateway.go, gateway_mount.go,
-- gateway_release_folder.go, gateway_diagnostics.go and provider_status.go, one function each. A
-- statement whose caller looks at the affected rows has a second function for their number.
use rehydrator.Base.{
  ℕ, Text, ◌+◌, ◌-◌, min, Bool, true, false, not, ◌&&◌, ◌||◌, Option, none, some, List, [], ◌∷◌,
  leb, ◌==◌, text_eq, if◌then◌else◌, int_eq,
}
use rehydrator.Base.Strings.{to_lower}
use rehydrator.Model.Types.{is_torrent}
use rehydrator.Torbox.Types.{UsenetFile}
use rehydrator.Db.Rows.{update, rows_affected, find, first_by}
use rehydrator.Db.Jobs.{
  Job, Row, ProviderStatus, queued, submitting, downloading, mounting, completed, failed,
  submission_unknown, state_eq, has_id,
}
use rehydrator.Db.Jobs.Claim.{before, postpone}

abbrev pub same_file : UsenetFile → UsenetFile → Bool
same_file f g = int_eq f.id g.id && text_eq f.name g.name && int_eq f.size g.size

-- equality of the jsonb values of two file lists
abbrev pub same_files : List UsenetFile → List UsenetFile → Bool
same_files [] [] = true
same_files [] (_ ∷ _) = false
same_files (_ ∷ _) [] = false
same_files (f ∷ fs) (g ∷ gs) = same_file f g && same_files fs gs

-- UpdateGatewayJob: a completed job whose placement and files are as before stays completed when
-- the update would mount it again.
unfoldable pub keeps_completed : Row → Job → Bool
keeps_completed r j =
    state_eq r.state completed
    && state_eq j.state mounting
    && r.provider_id == j.provider_id
    && same_files r.files j.files

unfoldable pub revises : Row → Job → Bool
revises r j =
    not (r.provider_id == j.provider_id)
    || not (same_files r.files j.files)
    || (not (state_eq r.state j.state)
        && not (state_eq r.state completed && state_eq j.state mounting))

unfoldable pub updated : ℕ → Job → ℕ → Row → Row
unfolding keeps_completed revises
updated now j delay r = record r {
  job = record (r.job) {
    provider_status = if r.provider_id == j.provider_id then r.provider_status else none;
    catalog_revision = if revises r j then r.catalog_revision + 1 else r.catalog_revision;
    provider_id = j.provider_id;
    state = if keeps_completed r j then r.state else j.state;
    files = j.files;
    missing_checks = j.missing_checks;
    last_error = j.last_error;
    name = j.name;
  };
  next_check_at = now + delay;
}

unfoldable pub update_job : ℕ → Job → ℕ → List Row → List Row
unfolding update updated
update_job now j delay = update (has_id j.id) (updated now j delay)

-- HideGatewayJob
unfoldable pub hide_job : Text → List Row → List Row
unfolding update
hide_job id = update (has_id id) (λ r. record r { job = record (r.job) { hidden = true } })

-- GatewayJob: by ID, or by the infohash of a torrent
unfoldable pub names_job : Text → Row → Bool
unfolding to_lower
names_job id r = text_eq r.id id || (is_torrent r.protocol && text_eq r.info_hash (to_lower id))

unfoldable pub find_job : Text → List Row → Option Row
unfolding find names_job
find_job id = find (names_job id)

-- GatewayCategory: the category is free until the first submission
unfoldable pub may_recategorise : Text → Text → Row → Bool
may_recategorise hash category r =
    text_eq r.info_hash hash
    && (text_eq r.category category || (state_eq r.state queued && r.attempts == 0))

unfoldable pub set_category : Text → Text → List Row → List Row
unfolding update may_recategorise
set_category hash category =
    update (may_recategorise hash category)
      (λ r. record r { job = record (r.job) { category = category } })

unfoldable pub set_category_rows : Text → Text → List Row → ℕ
unfolding rows_affected may_recategorise
set_category_rows hash category = rows_affected (may_recategorise hash category)

unfoldable pub is_sleeping : Row → Bool
is_sleeping r =
    not (
      state_eq r.state failed || state_eq r.state submission_unknown || state_eq r.state submitting)

-- next_check_at=LEAST(next_check_at,now())
unfoldable pub wake : ℕ → Row → Row
wake now r = record r { next_check_at = min r.next_check_at now }

-- WakeGatewayJob
unfoldable pub wake_job : ℕ → Text → List Row → List Row
unfolding update is_sleeping wake
wake_job now id = update (λ r. has_id id r && is_sleeping r) (wake now)

-- attempts=GREATEST(attempts-1,0) is the truncated difference
unfoldable pub deferred : ℕ → Text → Row → Row
deferred now reason r = record r {
  job = record (r.job) { state = queued; attempts = r.attempts - 1; last_error = reason };
  next_check_at = now + 300;
}

-- DeferGatewaySubmission
unfoldable pub defer_submission : ℕ → Text → Text → List Row → List Row
unfolding update deferred
defer_submission now id reason =
    update (λ r. has_id id r && state_eq r.state submitting) (deferred now reason)

unfoldable pub is_unknown_torrent : Row → Bool
is_unknown_torrent r =
    is_torrent r.protocol && state_eq r.state submission_unknown && r.provider_id == 0

-- ClaimUnknownGatewayTorrent: the row to look up, and the tables with its check put off
unfoldable pub claim_unknown : ℕ → (Row → Bool) → List Row → Option Row
unfolding first_by before is_unknown_torrent
claim_unknown now locked =
    first_by before (λ r. is_unknown_torrent r && leb r.next_check_at now && not (locked r))

unfoldable pub put_off : ℕ → Text → List Row → List Row
unfolding update postpone
put_off now id = update (has_id id) (postpone (now + 300))

-- ResolveUnknownGatewayTorrent, for a positive ID
unfoldable pub is_resolvable : Job → Row → Bool
unfolding is_unknown_torrent
is_resolvable j r = has_id j.id r && text_eq r.info_hash j.info_hash && is_unknown_torrent r

unfoldable pub resolved : ℕ → ℕ → Row → Row
resolved now id r = record r {
  job = record (r.job) {
    provider_id = id;
    state = downloading;
    last_error = [];
    catalog_revision = r.catalog_revision + 1;
  };
  next_check_at = now;
}

unfoldable pub resolve_unknown : ℕ → Job → ℕ → List Row → List Row
unfolding update is_resolvable resolved
resolve_unknown now j id = update (is_resolvable j) (resolved now id)

-- RecordUnknownGatewayLookup
unfoldable pub record_lookup : Text → Text → List Row → List Row
unfolding update
record_lookup id detail =
    update (λ r. has_id id r && state_eq r.state submission_unknown && r.provider_id == 0)
      (λ r. record r { job = record (r.job) { last_error = detail } })

-- RecordProviderStatus
unfoldable pub record_status : Job → ProviderStatus → List Row → List Row
unfolding update
record_status j status =
    update (λ r. has_id j.id r && r.provider_id == j.provider_id)
      (λ r. record r { job = record (r.job) { provider_status = some status } })

abbrev pub mark_failed_check : ℕ → Option ProviderStatus → Option ProviderStatus
mark_failed_check now none = none
mark_failed_check now (some s) = some (record s { check_failed = true; last_attempt_at = now })

-- RecordProviderCheckFailure
unfoldable pub record_check_failure : ℕ → Job → List Row → List Row
unfolding update
record_check_failure now j =
    update (λ r. has_id j.id r && r.provider_id == j.provider_id)
      (λ r. record r {
        job = record (r.job) { provider_status = mark_failed_check now r.provider_status };
      })
