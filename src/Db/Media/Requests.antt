-- ===== src/Db/Media/Requests.antt =====
-- The statements of internal/db/repo.go that queue or release one title on request, and the
-- lookups of a row. Each returns the rows of RETURNING, of which the source reads the first.
use rehydrator.Base.{
  is_positive, ℕ, ◌-◌, Bool, false, not, ◌&&◌, ◌||◌, Option, none, some, List, [], ◌∷◌, map, ltb,
  if◌then◌else◌, ℤ, int_eq, Text, text_eq,
}
use rehydrator.Base.Strings.{trim_space}
use rehydrator.Db.Rows.{find, first_by, filter}
use rehydrator.Db.Media.{
  Item, MediaType, type_eq, requested, available, archived, broken, failed, is_in, one_of,
  set_items, equals_id, is_tracked,
}
use rehydrator.Db.Media.Marks.{queue_rearm}
use rehydrator.Db.Media.Work.{stamp}

-- UPDATE … RETURNING: the new table, and the changed rows
unfoldable pub update_returning :
    ℕ → (Item → Bool) → (Item → Item) → List Item → List Item × List Item
update_returning now test change rows =
    (set_items now test change rows, map (stamp now change) (filter test rows))

-- tenant = $1 AND media_type = $2 AND arr_id = $3
abbrev pub is_media : Text → MediaType → ℤ → Item → Bool
is_media tenant media arr m =
    text_eq m.tenant tenant && type_eq m.media_type media && int_eq m.arr_id arr

abbrev pub is_tmdb : Text → MediaType → ℤ → Item → Bool
is_tmdb tenant media tmdb m =
    text_eq m.tenant tenant && type_eq m.media_type media && equals_id m.tmdb_id tmdb

-- the conditions of `statePredicate`
unfoldable pub can_request : Bool → Item → Bool
can_request force m =
    is_tracked m
    && not (is_in requested m.state)
    && (force || one_of (requested ∷ archived ∷ broken ∷ failed ∷ []) m.state)

-- RequestRearmByTMDB
unfoldable pub request_rearm_by_tmdb :
    ℕ → Text → MediaType → ℤ → Bool → List Item → List Item × List Item
unfolding queue_rearm can_request
request_rearm_by_tmdb now tenant media tmdb force rows =
    if is_positive tmdb
    then update_returning now (λ m. is_tmdb tenant media tmdb m && can_request force m)
        (queue_rearm now) rows
    else (rows, [])

-- RequestRearmByArrIDIfArchived
unfoldable pub request_rearm_if_archived :
    ℕ → Text → MediaType → ℤ → List Item → List Item × List Item
unfolding queue_rearm
request_rearm_if_archived now tenant media arr =
    update_returning now
      (λ m.
        is_media tenant media arr m
        && is_tracked m
        && one_of (archived ∷ broken ∷ failed ∷ []) m.state)
      (queue_rearm now)

-- RequestRearm
unfoldable pub request_rearm : ℕ → Text → MediaType → ℤ → List Item → List Item × List Item
unfolding queue_rearm
request_rearm now tenant media arr =
    update_returning now
      (λ m. is_media tenant media arr m && is_tracked m && not (is_in requested m.state))
      (queue_rearm now)

unfoldable pub offer_to_prune : ℕ → Item → Item
offer_to_prune now m = record m {
  state = available;
  rearm_requested = false;
  cached_until = some (now - 60);
  retry_count = 0;
  next_retry_at = none;
  last_error = none;
  last_checked = some now;
}

-- RequestPrune
unfoldable pub request_prune : ℕ → Text → MediaType → ℤ → List Item → List Item × List Item
unfolding offer_to_prune
request_prune now tenant media arr =
    update_returning now (is_media tenant media arr) (offer_to_prune now)

-- GetState; (tenant, media_type, arr_id) is a key of the table
unfoldable pub get_state : Text → MediaType → ℤ → List Item → Option Item
unfolding find
get_state tenant media arr = find (is_media tenant media arr)

-- ORDER BY updated_at DESC
abbrev pub updated_later : Item → Item → Bool
updated_later m n = ltb n.updated_at m.updated_at

-- GetStateByTMDB
unfoldable pub get_state_by_tmdb : Text → MediaType → ℤ → List Item → Option Item
unfolding first_by
get_state_by_tmdb tenant media tmdb rows =
    if is_positive tmdb then first_by updated_later (is_tmdb tenant media tmdb) rows else none

-- a lookup by a path that was trimmed
abbrev pub at_path : Text → Text → List Item → Option Item
at_path tenant [] rows = none
at_path tenant (c ∷ p) rows =
    first_by updated_later (λ m. text_eq m.tenant tenant && text_eq m.symlink_path (c ∷ p)) rows

-- GetStateByPath
unfoldable pub get_state_by_path : Text → Text → List Item → Option Item
unfolding first_by
get_state_by_path tenant path rows = at_path tenant (trim_space path) rows
