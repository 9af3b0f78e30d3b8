-- ===== src/Db/Media/Imports.antt =====
-- The statements of internal/db/repo.go that record imported titles. A new row gets
-- the ID `id` and the defaults of the table. The rows with a negative arr_id are the placeholders
-- of Placeholders.antt, whose arr_id is the negated TMDb ID, so there is one of them for a TMDb ID.
use rehydrator.Base.{
  is_positive, ℕ, Bool, false, not, ◌&&◌, Option, none, some, List, [], ◌∷◌, ◌++◌, if◌then◌else◌,
  any, ℤ, is_negative, Text, codes, text_eq,
}
use rehydrator.Base.Strings.{trim_space}
use rehydrator.Db.Media.{
  Item, MediaType, movie, series, type_eq, State, requested, available, hot, cooling, is_in, one_of,
  set_items, null_if_empty, null_if_zero, coalesce, equals_id,
}
use rehydrator.Db.Media.Requests.{is_media}

-- INSERT … VALUES: a row with the columns that all four statements give
unfoldable pub new_item : ℕ → Text → Text → MediaType → ℤ → Text → State → Option ℕ → Item
new_item now id tenant media arr path state until = record {
  id = id;
  tenant = tenant;
  media_type = media;
  arr_id = arr;
  symlink_path = path;
  state = state;
  rearm_requested = false;
  cached_until = until;
  info_hash = none;
  magnet = none;
  download_category = none;
  arr_title = none;
  source_title = none;
  tmdb_id = none;
  tvdb_id = none;
  series_id = none;
  episode_id = none;
  episode_file_id = none;
  season_number = none;
  episode_number = none;
  series_title = none;
  episode_title = none;
  cache_group_key = none;
  retry_count = 0;
  next_retry_at = none;
  last_play_intent_at = none;
  play_intent_count = 0;
  last_checked = some now;
  last_rehydrated = none;
  last_pruned = none;
  last_error = none;
  source_protocol = codes "torrent";
  download_job_id = [];
  source_download_id = none;
  pruning_recovery_seen_at = none;
  updated_at = now;
}

-- INSERT … ON CONFLICT (tenant, media_type, arr_id) DO UPDATE SET …
unfoldable pub upsert_item : ℕ → Item → (Item → Item) → List Item → List Item
upsert_item now new change rows =
    let key : Item → Bool = is_media new.tenant new.media_type new.arr_id in
    if any key rows then set_items now key change rows else rows ++ (new ∷ [])

-- the states of a title whose file is in place, or expected
abbrev pub is_settled : State → Bool
is_settled = one_of (requested ∷ available ∷ hot ∷ cooling ∷ [])

-- WHEN state IN (…) AND cached_until IS NULL THEN …
abbrev pub extend_cache : State → Option ℕ → Option ℕ → Option ℕ
extend_cache s old new = if is_settled s then coalesce old new else old

-- the fields of a movie that Radarr reports
pub record Movie : Type 0 where
  pub arr : ℤ
  pub title : Text
  pub path : Text
  pub category : Text
  pub until : ℕ
  pub tmdb : ℤ
  pub tvdb : ℤ

-- the placeholder of a TMDb ID, where no row has the ID of Radarr
unfoldable pub is_placeholder_for : Text → ℤ → ℤ → List Item → Item → Bool
is_placeholder_for tenant arr tmdb rows m =
    text_eq m.tenant tenant
    && type_eq m.media_type movie
    && equals_id m.tmdb_id tmdb
    && is_negative m.arr_id
    && not (any (is_media tenant movie arr) rows)

unfoldable pub promote_import : ℕ → Movie → Item → Item
promote_import now f m = record m {
  arr_id = f.arr;
  symlink_path = f.path;
  download_category = null_if_empty f.category;
  arr_title = coalesce (null_if_empty f.title) m.arr_title;
  tmdb_id = null_if_zero f.tmdb;
  tvdb_id = coalesce (null_if_zero f.tvdb) m.tvdb_id;
  state = if is_settled m.state then available else m.state;
  cached_until = extend_cache m.state m.cached_until (some f.until);
  last_checked = some now;
}

unfoldable pub new_movie : ℕ → Text → Text → Movie → Item
unfolding new_item
new_movie now id tenant f =
    record (new_item now id tenant movie f.arr f.path available (some f.until)) {
      download_category = null_if_empty f.category;
      arr_title = null_if_empty f.title;
      tmdb_id = null_if_zero f.tmdb;
      tvdb_id = null_if_zero f.tvdb;
    }

unfoldable pub refresh_movie : ℕ → Movie → Item → Item
refresh_movie now f m = record m {
  symlink_path = f.path;
  download_category = coalesce (null_if_empty f.category) m.download_category;
  arr_title = coalesce (null_if_empty f.title) m.arr_title;
  tmdb_id = coalesce (null_if_zero f.tmdb) m.tmdb_id;
  tvdb_id = coalesce (null_if_zero f.tvdb) m.tvdb_id;
  state = if is_in requested m.state then available else m.state;
  cached_until = extend_cache m.state m.cached_until (some f.until);
  last_checked = some now;
}

-- UpsertImportedMovie
unfoldable pub upsert_imported_movie : ℕ → Text → Text → Movie → List Item → List Item
unfolding is_placeholder_for promote_import new_movie refresh_movie
upsert_imported_movie now id tenant f rows =
    let held : Item → Bool = is_placeholder_for tenant f.arr f.tmdb rows in
    if is_positive f.tmdb && is_positive f.arr && any held rows
    then set_items now held (promote_import now f) rows
    else upsert_item now (new_movie now id tenant f) (refresh_movie now f) rows

-- the fields of an episode file that Sonarr reports
pub record Episode : Type 0 where
  pub series : ℤ
  pub episode : ℤ
  pub file : ℤ
  pub series_name : Text
  pub episode_name : Text
  pub season : ℤ
  pub number : ℤ
  pub path : Text
  pub category : Text
  pub until : ℕ
  pub tvdb : ℤ

abbrev pub group_key : Text → Text → Text
group_key decimal [] = codes "sonarr:episode_file:" ++ decimal
group_key decimal (c ∷ p) = codes "sonarr:file:" ++ (c ∷ p)

unfoldable pub new_episode : ℕ → (ℤ → Text) → Text → Text → Episode → Item
unfolding new_item trim_space
new_episode now itoa id tenant f =
    record (new_item now id tenant series f.file f.path available (some f.until)) {
      download_category = null_if_empty f.category;
      arr_title = null_if_empty f.series_name;
      tvdb_id = null_if_zero f.tvdb;
      series_id = null_if_zero f.series;
      episode_id = null_if_zero f.episode;
      episode_file_id = null_if_zero f.file;
      season_number = null_if_zero f.season;
      episode_number = null_if_zero f.number;
      series_title = null_if_empty f.series_name;
      episode_title = null_if_empty f.episode_name;
      cache_group_key = null_if_empty (group_key (itoa f.file) (trim_space f.path));
    }

-- DO UPDATE SET … for the row `new` that was excluded
unfoldable pub refresh_episode : ℕ → Item → Item → Item
refresh_episode now new m = record m {
  symlink_path = new.symlink_path;
  download_category = coalesce new.download_category m.download_category;
  arr_title = coalesce new.arr_title m.arr_title;
  tvdb_id = coalesce new.tvdb_id m.tvdb_id;
  series_id = coalesce new.series_id m.series_id;
  episode_id = coalesce new.episode_id m.episode_id;
  episode_file_id = coalesce new.episode_file_id m.episode_file_id;
  season_number = coalesce new.season_number m.season_number;
  episode_number = coalesce new.episode_number m.episode_number;
  series_title = coalesce new.series_title m.series_title;
  episode_title = coalesce new.episode_title m.episode_title;
  cache_group_key = coalesce new.cache_group_key m.cache_group_key;
  state = if is_in requested m.state then available else m.state;
  cached_until = extend_cache m.state m.cached_until new.cached_until;
  last_checked = some now;
}

-- UpsertImportedEpisode; `itoa` is strconv.Itoa, and an ID that is not positive is an error
unfoldable pub upsert_imported_episode :
    ℕ → (ℤ → Text) → Text → Text → Episode → List Item → List Item
unfolding new_episode refresh_episode
upsert_imported_episode now itoa id tenant f rows =
    let new : Item = new_episode now itoa id tenant f in
    if is_positive f.file then upsert_item now new (refresh_episode now new) rows else rows
