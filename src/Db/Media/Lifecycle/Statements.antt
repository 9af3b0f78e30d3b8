-- ===== src/Db/Media/Lifecycle/Statements.antt =====
-- Statements that choose what they do keep every row consistent.
use rehydrator.Db.Media.Lifecycle.{AreConsistent, IsConsistent, kept_or, Flags}
use rehydrator.Db.Media.Inventory.{remove_items, Tracked, Tombstone}
use rehydrator.Base.{
  is_positive, ℕ, refl, inl, inr, Bool, true, false, ◌&&◌, Option, none, some, List, [], ◌∷◌,
  if◌then◌else◌, Bool-cases, any, ℤ, Text,
}
use rehydrator.Db.Media.Placeholders.{
  placeholder_arr_id, upsert_requested_placeholder, upsert_requested_radarr, new_request,
  refresh_placeholder, promote_request, refresh_request, unless_found,
}
use rehydrator.Db.Media.{
  movie, Item, named, one_of, is_in, State, requested, available, hot, cooling, archived, broken,
  rearming, waiting_for_visibility, pruning, failed,
}
use rehydrator.Db.Media.Lifecycle.Kept.{
  set_items-kept, upsert_item-kept, remove_items-kept, arrives, requested_arrives,
}
use rehydrator.Db.Media.Marks.{mark_failed, is_last_try, fail_item, overflows}
use rehydrator.Db.Media.Requests.{get_state_by_tmdb}
use rehydrator.Db.Media.Imports.{
  Movie, Episode, new_item, new_movie, new_episode, promote_import, refresh_movie, refresh_episode,
  is_placeholder_for, upsert_imported_movie, upsert_imported_episode,
}

-- either branch of a statement that the source chooses
pub if_kept :
    (b : Bool) (xs ys : List Item)
    → AreConsistent xs
    → AreConsistent ys
    → AreConsistent (if b then xs else ys)
if_kept true xs ys hx hy = hx
if_kept false xs ys hx hy = hy

fail_item-IsConsistent :
    (now : ℕ) (error : Text) (max_retries : ℕ) (m : Item)
    → IsConsistent (fail_item now error max_retries m)
unfolding fail_item
fail_item-IsConsistent now error max_retries m = elim (Bool-cases (is_last_try max_retries m)) [
  | inl e ↦ rw e refl
  | inr e ↦ rw e tt
]

pub mark_failed-kept :
    (now : ℕ) (id error : Text) (max_retries : ℕ) (rows : List Item)
    → AreConsistent rows
    → AreConsistent (kept_or rows (mark_failed now id error max_retries rows))
unfolding mark_failed
mark_failed-kept now id error max_retries rows h =
    elim (Bool-cases (any (λ m. named id m && overflows max_retries m) rows)) [
      | inl e ↦ rw e h
      | inr e ↦ rw e (
          set_items-kept now (named id) (fail_item now error max_retries) rows
            (λ m c t. fail_item-IsConsistent now error max_retries m) h)
    ]

pub retried :
    (s : State) (asked : Bool) (next : Option ℕ)
    → Flags s asked next
    → Flags s (if one_of (broken ∷ failed ∷ []) s then true else asked) none
unfolding is_in
retried requested asked next c = c
retried available asked next c = c
retried hot asked next c = c
retried cooling asked next c = c
retried waiting_for_visibility asked next c = c
retried failed asked next c = refl
retried archived asked next c = tt
retried broken asked next c = tt
retried rearming asked next c = tt
retried pruning asked next c = tt

pub imports-kept :
    (now : ℕ) (id tenant : Text) (f : Movie) (rows : List Item)
    → AreConsistent rows
    → AreConsistent (upsert_imported_movie now id tenant f rows)
unfolding upsert_imported_movie promote_import new_movie new_item refresh_movie
imports-kept now id tenant f rows h =
    if_kept _ _ _
      (set_items-kept now (is_placeholder_for tenant f.arr f.tmdb rows) (promote_import now f) rows
        (λ m c t. arrives m.state m.rearm_requested m.next_retry_at c) h)
      (upsert_item-kept now (new_movie now id tenant f) (refresh_movie now f) rows refl
        (λ m c. requested_arrives m.state m.rearm_requested m.next_retry_at c) h)

pub episode-kept :
    (now : ℕ) (itoa : ℤ → Text) (id tenant : Text) (f : Episode) (rows : List Item)
    → AreConsistent rows
    → AreConsistent (upsert_imported_episode now itoa id tenant f rows)
unfolding upsert_imported_episode new_episode new_item refresh_episode
episode-kept now itoa id tenant f rows h =
    if_kept _ _ _
      (upsert_item-kept now (new_episode now itoa id tenant f)
        (refresh_episode now (new_episode now itoa id tenant f)) rows refl
        (λ m c. requested_arrives m.state m.rearm_requested m.next_retry_at c) h)
      h

found_kept :
    (o : Option Item) (rows new : List Item)
    → AreConsistent rows
    → AreConsistent new
    → AreConsistent (unless_found o rows new)
found_kept (some m) rows new h k = h
found_kept none rows new h k = k

pub placeholder-kept :
    (now : ℕ) (id tenant : Text) (tmdb : ℤ) (title : Text) (rows : List Item)
    → AreConsistent rows
    → AreConsistent (upsert_requested_placeholder now id tenant tmdb title rows)
unfolding upsert_requested_placeholder new_request new_item refresh_placeholder
placeholder-kept now id tenant tmdb title rows h =
    if_kept _ _ _
      (found_kept (get_state_by_tmdb tenant movie tmdb rows) rows _ h (
        upsert_item-kept now (new_request now id tenant (placeholder_arr_id tmdb) title tmdb)
          (refresh_placeholder now title tmdb) rows refl (λ m c. c) h))
      h

pub radarr-kept :
    (now : ℕ) (id tenant : Text) (arr : ℤ) (title : Text) (tmdb : ℤ) (rows : List Item)
    → AreConsistent rows
    → AreConsistent (upsert_requested_radarr now id tenant arr title tmdb rows)
unfolding upsert_requested_radarr promote_request new_request new_item refresh_request
radarr-kept now id tenant arr title tmdb rows h =
    let held : Item → Bool = is_placeholder_for tenant arr tmdb rows in
    if_kept (is_positive arr) _ _
      (if_kept (is_positive tmdb && any held rows) _ _
        (set_items-kept now held (promote_request now arr title tmdb) rows (λ m c t. c) h)
        (upsert_item-kept now (new_request now id tenant arr title tmdb)
          (refresh_request now title tmdb) rows refl (λ m c. c) h))
      h

pub delete_kept :
    (b : Bool) (test : Item → Bool) (bury : Item → Tombstone) (t : Tracked)
    → AreConsistent t.items
    → AreConsistent (if b then remove_items test bury t else t).items
delete_kept true test bury t h = remove_items-kept test bury t h
delete_kept false test bury t h = h
