-- ===== src/Db/Media/Placeholders.antt =====
-- The statements of internal/db/repo.go that record requested movies: placeholders, whose arr_id
-- is negative, and movies that Radarr knows and has no file of.
use rehydrator.Base.{
  is_positive, ℕ, zero, suc, Bool, ◌&&◌, Option, none, some, List, [], if◌then◌else◌, any, ℤ, pos,
  negsuc, Text, codes,
}
use rehydrator.Db.Media.{Item, movie, requested, set_items, null_if_empty, null_if_zero, coalesce}
use rehydrator.Db.Media.Requests.{get_state_by_tmdb}
use rehydrator.Db.Media.Imports.{new_item, upsert_item, is_placeholder_for}

-- placeholderArrID
abbrev pub placeholder_arr_id : ℤ → ℤ
placeholder_arr_id (pos zero) = pos zero
placeholder_arr_id (pos (suc n)) = negsuc n
placeholder_arr_id (negsuc n) = negsuc n

unfoldable pub new_request : ℕ → Text → Text → ℤ → Text → ℤ → Item
unfolding new_item
new_request now id tenant arr title tmdb =
    record (new_item now id tenant movie arr [] requested none) {
      download_category = some (codes "radarr");
      arr_title = null_if_empty title;
      tmdb_id = null_if_zero tmdb;
    }

unfoldable pub refresh_placeholder : ℕ → Text → ℤ → Item → Item
refresh_placeholder now title tmdb m = record m {
  arr_title = coalesce (null_if_empty title) m.arr_title;
  tmdb_id = coalesce m.tmdb_id (some tmdb);
  last_checked = some now;
}

abbrev pub unless_found : Option Item → List Item → List Item → List Item
unless_found (some m) rows new = rows
unless_found none rows new = new

-- UpsertRequestedMoviePlaceholder
unfoldable pub upsert_requested_placeholder : ℕ → Text → Text → ℤ → Text → List Item → List Item
unfolding new_request refresh_placeholder get_state_by_tmdb
upsert_requested_placeholder now id tenant tmdb title rows =
    if is_positive tmdb
    then unless_found (get_state_by_tmdb tenant movie tmdb rows) rows (
        upsert_item now (new_request now id tenant (placeholder_arr_id tmdb) title tmdb)
          (refresh_placeholder now title tmdb) rows)
    else rows

unfoldable pub promote_request : ℕ → ℤ → Text → ℤ → Item → Item
promote_request now arr title tmdb m = record m {
  arr_id = arr;
  arr_title = coalesce (null_if_empty title) m.arr_title;
  tmdb_id = some tmdb;
  last_checked = some now;
}

unfoldable pub refresh_request : ℕ → Text → ℤ → Item → Item
refresh_request now title tmdb m = record m {
  arr_title = coalesce (null_if_empty title) m.arr_title;
  tmdb_id = coalesce (null_if_zero tmdb) m.tmdb_id;
  last_checked = some now;
}

-- UpsertRequestedRadarrMovie
unfoldable pub upsert_requested_radarr : ℕ → Text → Text → ℤ → Text → ℤ → List Item → List Item
unfolding is_placeholder_for promote_request new_request refresh_request
upsert_requested_radarr now id tenant arr title tmdb rows =
    let held : Item → Bool = is_placeholder_for tenant arr tmdb rows in
    if is_positive arr
    then if is_positive tmdb && any held rows
      then set_items now held (promote_request now arr title tmdb) rows
      else upsert_item now (new_request now id tenant arr title tmdb)
          (refresh_request now title tmdb) rows
    else rows
