-- ===== src/Db/Media/Seerr.antt =====
-- `RequestSeerrTV` of internal/db/seerr_tv.go: an approved request for seasons of a series asks for
-- the rearm of its rows, once. The advisory lock makes the calls for a series run one after the
-- other. `before` is the order of the row IDs, which are UUIDs. A call for an unknown request is
-- `none`. Times are in seconds.
use rehydrator.Base.{
  is_positive, All-map, max, ℕ, is_some, zero, suc, ◌+◌, ◌-◌, ◌*◌, ◌%◌, ◌≤◌, ◌<◌, min, ◌≡◌, refl,
  sym, ap, ◌∙◌, subst, ◌≢◌, ◌↔◌, ◌⊎◌, inl, inr, Bool, true, false, not, ◌&&◌, ◌||◌, Option, none,
  some, List, [], ◌∷◌, ◌++◌, map, append-nil, append_assoc, arith, ltb, leb, ◌==◌, if◌then◌else◌,
  ==_iff, ==_refl, leb→le, le→leb, lt→ltb, Bool-cases, Option-cases, &&-eq-true, ||-eq-false,
  length, take, drop, all, any, length-append, length-drop, take-append, String, drop-append, All,
  All-append, ℤ, pos, negsuc, is_negative, int_eq, eq_of_int_eq, Text, codes, text_eq,
  eq_of_text_eq, text_eq_refl, text_eq_iff, text_eq_swap,
}
use rehydrator.Db.Rows.{update, find, rows_affected}
use rehydrator.Db.Media.{
  Item, SavedSource, MediaType, movie, series, State, archived, broken, failed, rearming,
  waiting_for_visibility, set_items, equals_text, is_tracked, one_of,
}
use rehydrator.Db.Media.Marks.{is_torrent_row}
use rehydrator.Db.Media.Inventory.{listed}
use rehydrator.Db.Media.Sources.{has_torrent_source, is_nzb_kind}
pub mod Once
pub mod Tests

-- the columns of media_cache_seerr_requests that a call reads or writes
pub record SeerrRequest : Type 0 where
  pub tenant : Text
  pub request_key : Text
  pub rearm_requested_at : Option ℕ

pub record SeerrTables : Type 0 where
  pub items : List Item
  pub requests : List SeerrRequest

abbrev pub is_request : Text → Text → SeerrRequest → Bool
is_request tenant key r = text_eq r.tenant tenant && text_eq r.request_key key

-- x = y with a nullable number
abbrev pub equals_int : Option ℤ → ℤ → Bool
equals_int none i = false
equals_int (some j) i = int_eq j i

abbrev pub in_seasons : List ℤ → Option ℤ → Bool
in_seasons seasons none = false
in_seasons seasons (some n) = listed seasons n

abbrev pub is_usenet_row : Item → Bool
is_usenet_row m = text_eq m.source_protocol (codes "usenet")

abbrev pub is_series : MediaType → Bool
is_series series = true
is_series movie = false

unfoldable pub has_saved_nzb : List SavedSource → Item → Bool
has_saved_nzb sources m =
    any
      (λ s.
        text_eq s.media_id m.id
        && text_eq s.source.protocol (codes "usenet")
        && is_usenet_row m
        && is_nzb_kind s.source.kind)
      sources

-- the rows that the request asks for
unfoldable pub is_candidate : Text → ℤ → List ℤ → List SavedSource → Item → Bool
unfolding has_torrent_source has_saved_nzb
is_candidate tenant tvdb seasons sources m =
    text_eq m.tenant tenant
    && is_series m.media_type
    && equals_int m.tvdb_id tvdb
    && in_seasons seasons m.season_number
    && one_of (archived ∷ broken ∷ failed ∷ []) m.state
    && not m.rearm_requested
    && is_tracked m
    && ((is_torrent_row m && has_torrent_source sources m) || has_saved_nzb sources m)

-- COALESCE(NULLIF(source_download_id, ''), id)
abbrev pub text_or_id : Option Text → Text → Text
text_or_id none id = id
text_or_id (some []) id = id
text_or_id (some (c ∷ t)) id = c ∷ t

abbrev pub nullable_eq : Option Text → Option Text → Bool
nullable_eq none none = true
nullable_eq (some s) (some t) = text_eq s t
nullable_eq _ _ = false

-- PARTITION BY: the release of a row
abbrev pub same_release : Item → Item → Bool
same_release m n =
    text_eq m.source_protocol n.source_protocol
    && (if is_torrent_row m
        then nullable_eq m.info_hash n.info_hash
        else text_eq (text_or_id m.source_download_id m.id) (text_or_id n.source_download_id n.id))

-- position = 1
unfoldable pub is_first : (Text → Text → Bool) → List Item → (Item → Bool) → Item → Bool
is_first before rows test m = not (any (λ n. test n && same_release m n && before n.id m.id) rows)

abbrev pub same_series : Option ℤ → Option ℤ → Bool
same_series (some i) (some j) = int_eq i j
same_series _ _ = false

abbrev pub same_text : Option Text → Option Text → Bool
same_text (some s) (some t) = text_eq s t
same_text _ _ = false

abbrev pub is_set : Option Text → Bool
is_set none = false
is_set (some t) = not (text_eq t [])

-- another row whose rearm of the same release is under way
abbrev pub is_under_way : Item → Item → Bool
is_under_way m a =
    text_eq a.tenant m.tenant
    && is_series a.media_type
    && text_eq a.source_protocol m.source_protocol
    && a.rearm_requested
    && one_of (archived ∷ rearming ∷ waiting_for_visibility ∷ []) a.state
    && ((is_torrent_row m && same_text a.info_hash m.info_hash)
        || (is_usenet_row m
            && same_series a.series_id m.series_id
            && same_text a.source_download_id m.source_download_id
            && is_set m.source_download_id))

-- One row of a release is rearmed; the others wait for its files.
abbrev pub ask_rearm : ℕ → (Item → Bool) → List Item → Item → Item
ask_rearm now first rows m = record m {
  state = if first m && not (any (is_under_way m) rows) then archived else waiting_for_visibility;
  rearm_requested = true;
  cached_until = none;
  retry_count = 0;
  next_retry_at = none;
  last_error = none;
  last_checked = some now;
}

abbrev pub consume : ℕ → SeerrRequest → SeerrRequest
consume now r = record r { rearm_requested_at = some now }

-- the statements of a request that was not done
unfoldable pub ask_series :
    ℕ
    → (Text → Text → Bool)
    → Text
    → Text
    → ℤ
    → List ℤ
    → List SavedSource
    → SeerrTables
    → SeerrTables × ℕ
unfolding update rows_affected set_items is_candidate is_first
ask_series now before tenant key tvdb seasons sources t =
    let test = is_candidate tenant tvdb seasons sources in
    (
      record {
        items = set_items now test (ask_rearm now (is_first before t.items test) t.items) t.items;
        requests = update (is_request tenant key) (consume now) t.requests;
      },
      rows_affected test t.items,
    )

abbrev pub is_done : Option SeerrRequest → Option Bool
is_done none = none
is_done (some r) = some (is_some r.rearm_requested_at)

abbrev pub unless_done {ℓ} : {A : Type ℓ} → Option Bool → A → A → Option A
unless_done none old new = none
unless_done (some true) old new = some old
unless_done (some false) old new = some new

-- RequestSeerrTV: the tables, and the number of rows
unfoldable pub request_seerr_tv :
    ℕ
    → (Text → Text → Bool)
    → Text
    → Text
    → ℤ
    → List ℤ
    → List SavedSource
    → SeerrTables
    → Option (SeerrTables × ℕ)
unfolding find ask_series
request_seerr_tv now before tenant key tvdb seasons sources t =
    if not (is_positive tvdb) || length seasons == 0
    then some (t, 0)
    else unless_done (is_done (find (is_request tenant key) t.requests)) (t, 0)
        (ask_series now before tenant key tvdb seasons sources t)
