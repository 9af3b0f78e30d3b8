-- ===== src/Db/Media/Inventory.antt =====
-- The statements of internal/db/repo.go that remove rows for good (`DeleteRadarrMovie`,
-- `DeleteSonarrSeries`, `ReconcileRadarrInventory`, `ReconcileSonarrInventory`), with the
-- tombstones that they leave.
pub mod Reasons
pub mod Removed
use rehydrator.Base.{
  is_positive, All-map, max, ℕ, is_some, zero, suc, ◌+◌, ◌-◌, ◌*◌, ◌%◌, ◌≤◌, ◌<◌, min, ◌≡◌, refl,
  sym, ap, ◌∙◌, subst, ◌≢◌, ◌↔◌, ◌⊎◌, inl, inr, Bool, true, false, not, ◌&&◌, ◌||◌, Option, none,
  some, List, [], ◌∷◌, ◌++◌, map, append-nil, append_assoc, arith, ltb, leb, ◌==◌, if◌then◌else◌,
  ==_iff, ==_refl, leb→le, le→leb, lt→ltb, Bool-cases, Option-cases, &&-eq-true, ||-eq-false,
  length, take, drop, all, any, length-append, length-drop, take-append, String, drop-append, All,
  All-append, ℤ, pos, negsuc, is_negative, int_eq, eq_of_int_eq, Text, codes, text_eq,
  eq_of_text_eq, text_eq_refl, text_eq_iff, text_eq_swap,
}
use rehydrator.Base.Strings.{trim_space}
use rehydrator.Db.Rows.{filter}
use rehydrator.Db.Media.{
  Item, MediaType, movie, series, type_eq, State, requested, available, archived, broken, rearming,
  waiting_for_visibility, failed, is_in, one_of, null_if_empty, coalesce, equals_id, or_empty,
}
use rehydrator.Db.Media.Marks.{is_torrent_row}

-- a row of media_cache_tombstones, less its ID and time
pub record Tombstone : Type 0 where
  pub tenant : Text
  pub arr_app : Text
  pub media_type : MediaType
  pub arr_id : ℤ
  pub external_id : Option ℤ
  pub title : Option Text
  pub reason : Text
  pub metadata : Text

pub record Tracked : Type 0 where
  pub items : List Item
  pub tombstones : List Tombstone

unfoldable pub movie_tombstone : Text → Text → Item → Tombstone
movie_tombstone reason metadata m = record {
  tenant = m.tenant;
  arr_app = codes "radarr";
  media_type = m.media_type;
  arr_id = m.arr_id;
  external_id = m.tmdb_id;
  title = null_if_empty (or_empty m.arr_title);
  reason = reason;
  metadata = metadata;
}

unfoldable pub series_tombstone : Text → Text → Item → Tombstone
series_tombstone reason metadata m = record {
  tenant = m.tenant;
  arr_app = codes "sonarr";
  media_type = m.media_type;
  arr_id = m.arr_id;
  external_id = m.tvdb_id;
  title = null_if_empty (or_empty (coalesce m.series_title m.arr_title));
  reason = reason;
  metadata = metadata;
}

-- WITH removed AS (DELETE … RETURNING …) INSERT INTO media_cache_tombstones … FROM removed
unfoldable pub remove_items : (Item → Bool) → (Item → Tombstone) → Tracked → Tracked
remove_items test bury t = record {
  items = filter (λ m. not (test m)) t.items;
  tombstones = t.tombstones ++ map bury (filter test t.items);
}

abbrev pub or_default : Text → Text → Text
or_default default [] = default
or_default default (c ∷ t) = c ∷ t

-- DeleteRadarrMovie
unfoldable pub delete_radarr_movie : Text → ℤ → Text → Text → Tracked → Tracked
unfolding movie_tombstone
delete_radarr_movie tenant id reason metadata t =
    if is_positive id
    then remove_items
        (λ m. text_eq m.tenant tenant && type_eq m.media_type movie && int_eq m.arr_id id)
        (movie_tombstone (or_default (codes "radarr_movie_deleted") reason)
          (or_default (codes "{}") metadata))
        t
    else t

-- DeleteSonarrSeries
unfoldable pub delete_sonarr_series : Text → ℤ → Text → Text → Tracked → Tracked
unfolding series_tombstone
delete_sonarr_series tenant id reason metadata t =
    if is_positive id
    then remove_items
        (λ m. text_eq m.tenant tenant && type_eq m.media_type series && equals_id m.series_id id)
        (series_tombstone (or_default (codes "sonarr_series_deleted") reason)
          (or_default (codes "{}") metadata))
        t
    else t

-- x = ANY(ids)
abbrev pub listed : List ℤ → ℤ → Bool
listed ids i = any (int_eq i) ids

unfoldable pub is_missing_movie : Text → List ℤ → Item → Bool
is_missing_movie tenant ids m =
    text_eq m.tenant tenant
    && type_eq m.media_type movie
    && is_positive m.arr_id
    && not (is_in requested m.state)
    && not (listed ids m.arr_id)

-- ReconcileRadarrInventory; the default of metadata is '{}'
unfoldable pub reconcile_radarr_inventory : Text → List ℤ → Tracked → Tracked
unfolding movie_tombstone is_missing_movie
reconcile_radarr_inventory tenant ids =
    remove_items (is_missing_movie tenant ids)
      (movie_tombstone (codes "missing_from_radarr_inventory") (codes "{}"))

abbrev pub unlisted_series : List ℤ → List ℤ → Item → Option ℤ → Bool
unlisted_series ids files m none = false
unlisted_series ids files m (some i) =
    not (listed ids i) || (is_positive m.arr_id && not (listed files m.arr_id))

unfoldable pub is_missing_episode : Text → List ℤ → List ℤ → Item → Bool
is_missing_episode tenant ids files m =
    text_eq m.tenant tenant
    && type_eq m.media_type series
    && not (is_in requested m.state)
    && unlisted_series ids files m m.series_id

-- ReconcileSonarrInventory
unfoldable pub reconcile_sonarr_inventory : Text → List ℤ → List ℤ → Tracked → Tracked
unfolding series_tombstone is_missing_episode
reconcile_sonarr_inventory tenant ids files =
    remove_items (is_missing_episode tenant ids files)
      (series_tombstone (codes "missing_from_sonarr_inventory") (codes "{}"))
