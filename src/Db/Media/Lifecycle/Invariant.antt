-- ===== src/Db/Media/Lifecycle/Invariant.antt =====
-- Every statement keeps every row consistent.
use rehydrator.Db.Media.Lifecycle.{
  AreConsistent, health_pass, seerr_tv, nzb_job, placement_wait, flag_missing, release_archived,
  release_stale, keep_episodes, keep_movies, request_radarr, request_placeholder, import_episode,
  import_movie, prune_item, rearm_item, rearm_archived, rearm_tmdb, retry, full_rearm,
  claim_visibility, claim_prunes, claim_rearms, save_source, fail_row, delete_series, delete_movie,
  require_recovery, make_available, wait_visibility, metadata_pending, archive, prune_start,
  playback_rearm, rearm_start, playback_intent, IsConsistent, Write, run, run_all,
}
use rehydrator.Base.{
  is_positive, ℕ, refl, Bool, true, false, ◌&&◌, List, [], ◌∷◌, if◌then◌else◌, All,
}
use rehydrator.Db.Media.{Item}
use rehydrator.Db.Media.Lifecycle.Kept.{set_items-kept, claim_items-kept, remove_items-kept}
use rehydrator.Db.Media.Marks.{
  record_playback_intent, mark_playback_rearm_requested, mark_rearming, mark_waiting_visibility,
  mark_available, mark_pruning, mark_archived, mark_requested_metadata_pending,
  mark_source_recovery_required, queue_rearm,
}
use rehydrator.Db.Media.Work.{
  rearm_work_items, prune_work_items, visibility_work_items, queue_full_rearm, retry_failed,
  start_rearm, start_prune, note_check, retry_item,
}
use rehydrator.Db.Media.Requests.{
  is_tmdb, can_request, request_rearm_by_tmdb, request_rearm_if_archived, request_rearm,
  request_prune, update_returning, offer_to_prune,
}
use rehydrator.Db.Media.Inventory.{
  delete_radarr_movie, delete_sonarr_series, reconcile_radarr_inventory, reconcile_sonarr_inventory,
}
use rehydrator.Db.Media.Sources.{adopt_source}
use rehydrator.Db.Media.Recovery.{
  release_row, note_stale, release_stale_pruning, release_archived_for_health, lost_source,
  flag_missing_inventory_source, wait_for_placement, gateway_recovery_waiting,
}
use rehydrator.Db.Media.Lifecycle.Statements.{
  mark_failed-kept, retried, imports-kept, episode-kept, placeholder-kept, radarr-kept, delete_kept,
}
use rehydrator.Db.Media.Lifecycle.Submissions.{ensure_kept, request_kept}
use rehydrator.Db.Media.Health.Kept.{finish-kept}

if_returned :
    (b : Bool) (x y : List Item × List Item)
    → AreConsistent (x.0)
    → AreConsistent (y.0)
    → AreConsistent ((if b then x else y).0)
if_returned true x y h k = h
if_returned false x y h k = k

pub run-kept :
    (now : ℕ) (w : Write) (rows : List Item) → AreConsistent rows → AreConsistent (run now w rows)
unfolding run record_playback_intent mark_playback_rearm_requested mark_rearming
    mark_waiting_visibility mark_available mark_pruning mark_archived
    mark_requested_metadata_pending mark_source_recovery_required queue_rearm adopt_source
    rearm_work_items prune_work_items visibility_work_items start_rearm start_prune note_check
    queue_full_rearm retry_failed retry_item request_rearm_by_tmdb request_rearm_if_archived
    request_rearm request_prune update_returning offer_to_prune delete_radarr_movie
    delete_sonarr_series reconcile_radarr_inventory reconcile_sonarr_inventory release_stale_pruning
    note_stale release_row release_archived_for_health lost_source flag_missing_inventory_source
    wait_for_placement gateway_recovery_waiting
run-kept now (playback_intent id) rows h = set_items-kept now _ _ rows (λ m c t. c) h
run-kept now (playback_rearm id) rows h = set_items-kept now _ _ rows (λ m c t. tt) h
run-kept now (rearm_start id) rows h = set_items-kept now _ _ rows (λ m c t. tt) h
run-kept now (prune_start id) rows h = set_items-kept now _ _ rows (λ m c t. tt) h
run-kept now (archive id) rows h = set_items-kept now _ _ rows (λ m c t. tt) h
run-kept now (metadata_pending id) rows h = set_items-kept now _ _ rows (λ m c t. refl) h
run-kept now (wait_visibility id error next) rows h = set_items-kept now _ _ rows (λ m c t. refl) h
run-kept now (make_available id hash until) rows h = set_items-kept now _ _ rows (λ m c t. refl) h
run-kept now (fail_row id error max_retries) rows h =
    mark_failed-kept now id error max_retries rows h
run-kept now (require_recovery id reasons) rows h = set_items-kept now _ _ rows (λ m c t. refl) h
run-kept now (save_source id t category) rows h = set_items-kept now _ _ rows (λ m c u. c) h
run-kept now (claim_rearms locked limit max_retries) rows h =
    claim_items-kept now _ _ _ _ rows (λ m c. tt) h
run-kept now (claim_prunes locked limit) rows h = claim_items-kept now _ _ _ _ rows (λ m c. tt) h
run-kept now (claim_visibility locked limit) rows h = claim_items-kept now _ _ _ _ rows (λ m c. c) h
run-kept now (full_rearm tenant) rows h = set_items-kept now _ _ rows (λ m c t. tt) h
run-kept now (retry tenant limit) rows h =
    claim_items-kept now _ _ _ _ rows (λ m c. retried m.state m.rearm_requested m.next_retry_at c) h
run-kept now (rearm_tmdb tenant media tmdb force) rows h =
    if_returned (is_positive tmdb)
      (update_returning now (λ m. is_tmdb tenant media tmdb m && can_request force m)
        (queue_rearm now) rows)
      (rows, [])
      (set_items-kept now (λ m. is_tmdb tenant media tmdb m && can_request force m)
        (queue_rearm now) rows (λ m c t. tt) h)
      h
run-kept now (rearm_archived tenant media arr) rows h = set_items-kept now _ _ rows (λ m c t. tt) h
run-kept now (rearm_item tenant media arr) rows h = set_items-kept now _ _ rows (λ m c t. tt) h
run-kept now (prune_item tenant media arr) rows h = set_items-kept now _ _ rows (λ m c t. refl) h
run-kept now (import_movie id tenant f) rows h = imports-kept now id tenant f rows h
run-kept now (import_episode itoa id tenant f) rows h = episode-kept now itoa id tenant f rows h
run-kept now (request_placeholder id tenant tmdb title) rows h =
    placeholder-kept now id tenant tmdb title rows h
run-kept now (request_radarr id tenant arr title tmdb) rows h =
    radarr-kept now id tenant arr title tmdb rows h
run-kept now (delete_movie tenant id) rows h = delete_kept (is_positive id) _ _ _ h
run-kept now (delete_series tenant id) rows h = delete_kept (is_positive id) _ _ _ h
run-kept now (keep_movies tenant ids) rows h = remove_items-kept _ _ _ h
run-kept now (keep_episodes tenant ids files) rows h = remove_items-kept _ _ _ h
run-kept now (release_stale later tenant id path after sources) rows h =
    set_items-kept later _ _ _ (λ m c t. tt) (set_items-kept now _ _ rows (λ m c t. c) h)
run-kept now (release_archived tenant id path hash sources) rows h =
    set_items-kept now _ _ rows (λ m c t. tt) h
run-kept now (flag_missing tenant id path sources) rows h =
    set_items-kept now _ _ rows (λ m c t. refl) h
run-kept now (placement_wait tenant job hash sources) rows h =
    set_items-kept now _ _ rows (λ m c t. refl) h
run-kept now (nzb_job id ensure sources jobs) rows h =
    ensure_kept now id ensure sources (record { items = rows; jobs = jobs }) h
run-kept now (seerr_tv before tenant key tvdb seasons sources requests) rows h =
    request_kept now before tenant key tvdb seasons sources
      (record { items = rows; requests = requests }) h
run-kept now (health_pass s sources checks t) rows h =
    finish-kept now s sources checks (record t { items = rows }) h

-- In every row that a sequence of statements leads to, from a table where this holds of every row:
-- a title that is requested or available is not being rearmed, a row that waits for its file is,
-- and a failed row has no time of a next try. The statements are those that `Write` lists,
-- with any arguments and at any times.
pub run_all-IsConsistent :
    (ws : List (ℕ × Write)) (rows : List Item)
    → All IsConsistent rows
    → All IsConsistent (run_all ws rows)
unfolding run_all AreConsistent
run_all-IsConsistent [] rows h = h
run_all-IsConsistent ((now, w) ∷ ws) rows h =
    run_all-IsConsistent ws (run now w rows) (run-kept now w rows h)
