-- ===== src/Db/Media/Lifecycle.antt =====
-- What the life cycle keeps true of every row of media_cache_state, whatever statements run and in
-- whatever order: `Write` lists the statements of internal/db on that table, with their arguments.
use rehydrator.Base.{
  is_positive, All-map, max, ℕ, is_some, zero, suc, ◌+◌, ◌-◌, ◌*◌, ◌%◌, ◌≤◌, ◌<◌, min, ◌≡◌, refl,
  sym, ap, ◌∙◌, subst, ◌≢◌, ◌↔◌, ◌⊎◌, inl, inr, Bool, true, false, not, ◌&&◌, ◌||◌, Option, none,
  some, List, [], ◌∷◌, ◌++◌, map, append-nil, append_assoc, arith, ltb, leb, ◌==◌, if◌then◌else◌,
  ==_iff, ==_refl, leb→le, le→leb, lt→ltb, Bool-cases, Option-cases, &&-eq-true, ||-eq-false,
  length, take, drop, all, any, length-append, length-drop, take-append, String, drop-append, All,
  All-append, ℤ, pos, negsuc, is_negative, int_eq, eq_of_int_eq, Text, codes, text_eq,
  eq_of_text_eq, text_eq_refl, text_eq_iff, text_eq_swap,
}
use rehydrator.Model.Types.{TorrentMetadata}
use rehydrator.Db.Media.{
  Item, MediaType, SavedSource, State, requested, available, hot, cooling, archived, broken,
  rearming, waiting_for_visibility, pruning, failed, set_items, named,
}
use rehydrator.Db.Media.Marks.{
  record_playback_intent, mark_playback_rearm_requested, mark_rearming, mark_waiting_visibility,
  mark_available, mark_pruning, mark_archived, mark_failed, mark_requested_metadata_pending,
  mark_source_recovery_required,
}
use rehydrator.Db.Media.Work.{
  Claimed, rearm_work_items, prune_work_items, visibility_work_items, queue_full_rearm,
  retry_failed,
}
use rehydrator.Db.Media.Requests.{
  request_rearm_by_tmdb, request_rearm_if_archived, request_rearm, request_prune,
}
use rehydrator.Db.Media.Imports.{Movie, Episode, upsert_imported_movie, upsert_imported_episode}
use rehydrator.Db.Media.Placeholders.{upsert_requested_placeholder, upsert_requested_radarr}
use rehydrator.Db.Media.Inventory.{
  Tracked, delete_radarr_movie, delete_sonarr_series, reconcile_radarr_inventory,
  reconcile_sonarr_inventory,
}
use rehydrator.Db.Media.Sources.{adopt_source}
use rehydrator.Db.Media.Recovery.{
  release_stale_pruning, release_archived_for_health, flag_missing_inventory_source,
  gateway_recovery_waiting,
}
use rehydrator.Db.Media.NzbJobs.{UsenetJob, JobTables, ensure_nzb_job}
use rehydrator.Db.Media.Seerr.{SeerrRequest, SeerrTables, request_seerr_tv}
use rehydrator.Db.Media.Health.{Sweep, ProbedFile, Tables}
use rehydrator.Db.Media.Health.Finish.{finish}
pub mod Kept
pub mod Statements
pub mod Submissions
pub mod Invariant

-- a title that is in place or expected is not being rearmed, a row that waits for its file is, and
-- a row that failed is not retried by itself
abbrev pub Flags : State → Bool → Option ℕ → Type 0
Flags requested asked next = asked ≡ false
Flags available asked next = asked ≡ false
Flags hot asked next = asked ≡ false
Flags cooling asked next = asked ≡ false
Flags waiting_for_visibility asked next = asked ≡ true
Flags failed asked next = next ≡ none
Flags archived asked next = Unit
Flags broken asked next = Unit
Flags rearming asked next = Unit
Flags pruning asked next = Unit

abbrev pub IsConsistent : Item → Type 0
IsConsistent m = Flags m.state m.rearm_requested m.next_retry_at

-- a consistent table
unfoldable pub AreConsistent : List Item → Type 0
AreConsistent rows = All IsConsistent rows

pub data Write : Type 0 where
  playback_intent playback_rearm rearm_start prune_start archive metadata_pending : Text → Write
  wait_visibility : Text → Text → ℕ → Write
  make_available : Text → Text → ℕ → Write
  fail_row : Text → Text → ℕ → Write
  require_recovery : Text → List Text → Write
  save_source : Text → TorrentMetadata → Text → Write
  claim_rearms : (Item → Bool) → ℕ → ℕ → Write
  claim_prunes claim_visibility : (Item → Bool) → ℕ → Write
  full_rearm : Text → Write
  retry : Text → ℕ → Write
  rearm_tmdb : Text → MediaType → ℤ → Bool → Write
  rearm_archived rearm_item prune_item : Text → MediaType → ℤ → Write
  import_movie : Text → Text → Movie → Write
  import_episode : (ℤ → Text) → Text → Text → Episode → Write
  request_placeholder : Text → Text → ℤ → Text → Write
  request_radarr : Text → Text → ℤ → Text → ℤ → Write
  delete_movie delete_series : Text → ℤ → Write
  keep_movies : Text → List ℤ → Write
  keep_episodes : Text → List ℤ → List ℤ → Write
  release_stale : ℕ → Text → Text → Text → ℕ → List SavedSource → Write
  release_archived : Text → Text → Text → Text → List SavedSource → Write
  flag_missing : Text → Text → Text → List SavedSource → Write
  placement_wait : Text → Text → Option Text → List SavedSource → Write
  nzb_job : Text → (Text → Option Text) → List SavedSource → List UsenetJob → Write
  seerr_tv :
      (Text → Text → Bool) → Text → Text → ℤ → List ℤ → List SavedSource → List SeerrRequest → Write
  health_pass : Sweep → List SavedSource → List ProbedFile → Tables → Write

abbrev tracked : List Item → Tracked
tracked rows = record { items = rows; tombstones = [] }

-- a statement that fails leaves the table as it was
abbrev pub kept_or : List Item → Option (List Item) → List Item
kept_or rows none = rows
kept_or rows (some new) = new

abbrev pub items_or : List Item → Option (JobTables × Text) → List Item
items_or rows none = rows
items_or rows (some (after, job)) = after.items

abbrev pub series_or : List Item → Option (SeerrTables × ℕ) → List Item
series_or rows none = rows
series_or rows (some (after, n)) = after.items

-- the table after a statement at the time `now`
unfoldable pub run : ℕ → Write → List Item → List Item
run now (playback_intent id) rows = record_playback_intent now id rows
run now (playback_rearm id) rows = mark_playback_rearm_requested now id rows
run now (rearm_start id) rows = mark_rearming now id rows
run now (prune_start id) rows = mark_pruning now id rows
run now (archive id) rows = mark_archived now id rows
run now (metadata_pending id) rows = mark_requested_metadata_pending now id rows
run now (wait_visibility id error next) rows = mark_waiting_visibility now id error next rows
run now (make_available id hash until) rows = mark_available now id hash until rows
run now (fail_row id error max_retries) rows =
    kept_or rows (mark_failed now id error max_retries rows)
run now (require_recovery id reasons) rows = mark_source_recovery_required now id reasons rows
run now (save_source id t category) rows =
    set_items now (named id) (adopt_source now t category) rows
run now (claim_rearms locked limit max_retries) rows =
    (rearm_work_items now locked limit max_retries rows).table
run now (claim_prunes locked limit) rows = (prune_work_items now locked limit rows).table
run now (claim_visibility locked limit) rows = (visibility_work_items now locked limit rows).table
run now (full_rearm tenant) rows = (queue_full_rearm now tenant rows).0
run now (retry tenant limit) rows = (retry_failed now tenant limit rows).0
run now (rearm_tmdb tenant media tmdb force) rows =
    (request_rearm_by_tmdb now tenant media tmdb force rows).0
run now (rearm_archived tenant media arr) rows =
    (request_rearm_if_archived now tenant media arr rows).0
run now (rearm_item tenant media arr) rows = (request_rearm now tenant media arr rows).0
run now (prune_item tenant media arr) rows = (request_prune now tenant media arr rows).0
run now (import_movie id tenant f) rows = upsert_imported_movie now id tenant f rows
run now (import_episode itoa id tenant f) rows = upsert_imported_episode now itoa id tenant f rows
run now (request_placeholder id tenant tmdb title) rows =
    upsert_requested_placeholder now id tenant tmdb title rows
run now (request_radarr id tenant arr title tmdb) rows =
    upsert_requested_radarr now id tenant arr title tmdb rows
run now (delete_movie tenant id) rows = (delete_radarr_movie tenant id [] [] (tracked rows)).items
run now (delete_series tenant id) rows = (delete_sonarr_series tenant id [] [] (tracked rows)).items
run now (keep_movies tenant ids) rows = (reconcile_radarr_inventory tenant ids (tracked rows)).items
run now (keep_episodes tenant ids files) rows =
    (reconcile_sonarr_inventory tenant ids files (tracked rows)).items
run now (release_stale later tenant id path after sources) rows =
    (release_stale_pruning now later tenant id path after sources rows).0
run now (release_archived tenant id path hash sources) rows =
    (release_archived_for_health now tenant id path hash sources rows).0
run now (flag_missing tenant id path sources) rows =
    flag_missing_inventory_source now tenant id path sources rows
run now (placement_wait tenant job hash sources) rows =
    gateway_recovery_waiting now tenant job hash sources rows
run now (nzb_job id ensure sources jobs) rows =
    items_or rows (ensure_nzb_job now id ensure sources (record { items = rows; jobs = jobs }))
run now (seerr_tv before tenant key tvdb seasons sources requests) rows = series_or rows (
    request_seerr_tv now before tenant key tvdb seasons sources
      (record { items = rows; requests = requests }))
run now (health_pass s sources checks t) rows =
    (finish now s sources checks (record t { items = rows })).tables.items

-- statements one after the other, each with its time
unfoldable pub run_all : List (ℕ × Write) → List Item → List Item
run_all [] rows = rows
run_all ((now, w) ∷ ws) rows = run_all ws (run now w rows)
