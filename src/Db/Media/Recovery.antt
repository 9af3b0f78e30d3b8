-- ===== src/Db/Media/Recovery.antt =====
-- Statements that change a row only where its saved source can bring the release back:
-- stale_pruning.go, archived_recovery.go, jellyfin_inventory.go (FlagMissingInventorySource) and
-- gateway_jobs.go (GatewayRecoveryWaiting) of internal/db.
use rehydrator.Base.{
  ℕ, is_some, ◌+◌, Bool, true, false, not, ◌&&◌, ◌||◌, Option, none, some, List, [], ◌∷◌, ltb, any,
  Text, codes, text_eq,
}
use rehydrator.Base.Strings.{to_lower}
use rehydrator.Db.Rows.{rows_affected}
use rehydrator.Db.Media.{
  Item, SavedSource, available, archived, broken, waiting_for_visibility, pruning, failed, is_in,
  one_of, set_items, equals_text, named, is_tracked, or_empty,
}
use rehydrator.Db.Media.Marks.{is_torrent_row}
use rehydrator.Db.Media.Sources.{is_nzb_kind, has_torrent_source}

-- the rows that are due for ReleaseStalePruning after its first statement
unfoldable pub is_stale : ℕ → Text → Text → Text → ℕ → List SavedSource → Item → Bool
unfolding has_torrent_source
is_stale now tenant id path stale_after sources m =
    text_eq m.tenant tenant
    && named id m
    && text_eq m.symlink_path path
    && is_tracked m
    && is_in pruning m.state
    && not m.rearm_requested
    && is_before m.pruning_recovery_seen_at
    && is_torrent_row m
    && has_torrent_source sources m
  where
    is_before : Option ℕ → Bool
    is_before none = false
    is_before (some seen) = ltb (seen + stale_after) now

unfoldable pub release_row : ℕ → Text → Item → Item
release_row now error m = record m {
  state = broken;
  rearm_requested = false;
  retry_count = 0;
  next_retry_at = none;
  last_error = some error;
}

unfoldable pub note_stale : ℕ → Text → Text → Text → List Item → List Item
note_stale now tenant id path =
    set_items now
      (λ m.
        text_eq m.tenant tenant
        && named id m
        && text_eq m.symlink_path path
        && is_in pruning m.state
        && not m.rearm_requested
        && not (is_some m.pruning_recovery_seen_at))
      (λ m. record m { pruning_recovery_seen_at = some now })

-- ReleaseStalePruning, whose two statements run at `now` and `later`
unfoldable pub release_stale_pruning :
    ℕ → ℕ → Text → Text → Text → ℕ → List SavedSource → List Item → List Item × Bool
unfolding release_row is_stale rows_affected
release_stale_pruning now later tenant id path stale_after sources rows =
    let noted = note_stale now tenant id path rows in
    (
      set_items later (is_stale later tenant id path stale_after sources)
          (λ m.
            record (release_row later
              (codes "pruning disabled: stale operation returned to provider health checks") m) {
                pruning_recovery_seen_at = none;
              })
          noted,
      ltb 0 (rows_affected (is_stale later tenant id path stale_after sources) noted),
    )

unfoldable pub is_idle_archive : Text → Text → Text → Text → List SavedSource → Item → Bool
unfolding has_torrent_source
is_idle_archive tenant id path hash sources m =
    text_eq m.tenant tenant
    && named id m
    && text_eq m.symlink_path path
    && equals_text m.info_hash hash
    && is_torrent_row m
    && is_in archived m.state
    && not m.rearm_requested
    && is_tracked m
    && has_torrent_source sources m

-- ReleaseArchivedForHealth
unfoldable pub release_archived_for_health :
    ℕ → Text → Text → Text → Text → List SavedSource → List Item → List Item × Bool
unfolding release_row is_idle_archive rows_affected
release_archived_for_health now tenant id path hash sources rows = (
  set_items now (is_idle_archive tenant id path hash sources)
      (λ m.
        record (release_row now
          (codes "archived recovery enabled: awaiting provider health confirmation") m) {
            last_checked = some now;
          })
      rows,
  ltb 0 (rows_affected (is_idle_archive tenant id path hash sources) rows),
)

unfoldable pub lost_source : ℕ → Item → Item
lost_source now m = record m {
  state = failed;
  rearm_requested = false;
  next_retry_at = none;
  last_checked = some now;
  last_error = some (
      codes
        "source recovery required: torrent library path is missing and no matching saved torrent file or magnet is available");
}

-- FlagMissingInventorySource
unfoldable pub flag_missing_inventory_source :
    ℕ → Text → Text → Text → List SavedSource → List Item → List Item
unfolding has_torrent_source lost_source
flag_missing_inventory_source now tenant id path sources =
    set_items now
      (λ m.
        text_eq m.tenant tenant
        && named id m
        && text_eq m.symlink_path path
        && is_in available m.state
        && not m.rearm_requested
        && is_torrent_row m
        && not (has_torrent_source sources m))
      (lost_source now)

-- EXISTS(… protocol='usenet' AND source_kind='nzb_file' AND lower(download_id)=$2)
unfoldable pub has_nzb_source : Text → List SavedSource → Item → Bool
unfolding to_lower
has_nzb_source job sources m =
    any
      (λ s.
        text_eq s.media_id m.id
        && text_eq (s.source.protocol) (codes "usenet")
        && is_nzb_kind (s.source.kind)
        && text_eq (to_lower (s.source.download_id)) job)
      sources

unfoldable pub wait_for_placement : ℕ → Item → Item
wait_for_placement now m = record m {
  state = waiting_for_visibility;
  rearm_requested = true;
  next_retry_at = some now;
  last_error = some (codes "gateway: waiting for shared provider placement recovery");
}

-- GatewayRecoveryWaiting for the job `job`, of the infohash `hash` if the table has it
unfoldable pub gateway_recovery_waiting :
    ℕ → Text → Text → Option Text → List SavedSource → List Item → List Item
unfolding has_torrent_source has_nzb_source wait_for_placement
gateway_recovery_waiting now tenant job hash sources =
    set_items now
      (λ m.
        text_eq m.tenant tenant
        && ((text_eq m.source_protocol (codes "usenet") && equals_text m.source_download_id job)
            || (is_torrent_row m && is_some hash && equals_text m.info_hash (or_empty hash)))
        && one_of (available ∷ broken ∷ []) m.state
        && not m.rearm_requested
        && (has_nzb_source job sources m || has_torrent_source sources m))
      (wait_for_placement now)
