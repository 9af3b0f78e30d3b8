-- ===== src/Controller.antt =====
-- internal/controller: the handlers of one claimed row (controller.go, rearm.go, readiness.go). The
-- gateway and the probes of the mount are arguments, and so are the two statements on the captured
-- grabs (internal/db/grab_sources.go). Events, logs and the refreshes of Jellyfin and rclone change
-- no row of the library and are left out, and so are errors of the database, but for an integer
-- that is out of range.
pub mod Tests
use rehydrator.Base.{
  is_positive, All-map, max, ℕ, is_some, zero, suc, ◌+◌, ◌-◌, ◌*◌, ◌%◌, ◌≤◌, ◌<◌, min, ◌≡◌, refl,
  sym, ap, ◌∙◌, subst, ◌≢◌, ◌↔◌, ◌⊎◌, inl, inr, Bool, true, false, not, ◌&&◌, ◌||◌, Option, none,
  some, List, [], ◌∷◌, ◌++◌, map, append-nil, append_assoc, arith, ltb, leb, ◌==◌, if◌then◌else◌,
  ==_iff, ==_refl, leb→le, le→leb, lt→ltb, Bool-cases, Option-cases, &&-eq-true, ||-eq-false,
  length, take, drop, all, any, length-append, length-drop, take-append, String, drop-append, All,
  All-append, ℤ, pos, negsuc, is_negative, int_eq, eq_of_int_eq, Text, codes, text_eq,
  eq_of_text_eq, text_eq_refl, text_eq_iff, text_eq_swap,
}
use rehydrator.Base.Strings.{trim_space, to_lower, contains}
use rehydrator.Model.Types.{TorrentMetadata}
use rehydrator.Db.Media.{Item, MediaType, movie, series, State, requested, is_in, or_empty}
pub mod Outcome
pub mod Wait
pub mod Visibility
pub mod Rearm
pub mod Available
pub mod Rearmed
pub mod Consistent
pub mod Refresh

-- the fields of `Options` that decide; times are in seconds
pub record Options : Type 0 where
  pub max_retries : ℕ
  pub max_rearms_per_run : ℕ
  pub concurrent_workers : ℕ
  pub interval : ℕ
  pub visibility_timeout : ℕ
  pub visibility_poll : ℕ
  pub visibility_retry : ℕ
  pub cache_grace : ℕ
  pub radarr_category : Text
  pub sonarr_category : Text

abbrev pub or_number : ℕ → ℕ → ℕ
or_number default zero = default
or_number default (suc n) = suc n

abbrev pub category_or : Text → Text → Text
category_or default [] = default
category_or default (c ∷ t) = c ∷ t

-- the defaults of New; a negative number counts as zero
unfoldable pub with_defaults : Options → Options
with_defaults o = record {
  max_retries = or_number 10 o.max_retries;
  max_rearms_per_run = or_number (or_number 4 o.concurrent_workers) o.max_rearms_per_run;
  concurrent_workers = or_number 4 o.concurrent_workers;
  interval = or_number 30 o.interval;
  visibility_timeout = or_number 900 o.visibility_timeout;
  visibility_poll = or_number 10 o.visibility_poll;
  visibility_retry = or_number 60 o.visibility_retry;
  cache_grace = or_number 86400 o.cache_grace;
  radarr_category = category_or (codes "radarr") o.radarr_category;
  sonarr_category = category_or (codes "sonarr") o.sonarr_category;
}

-- categoryFor
abbrev pub category_for : Options → MediaType → Text
category_for o movie = o.radarr_category
category_for o series = o.sonarr_category

-- p == nil || *p <= 0
abbrev pub lacks : Option ℤ → Bool
lacks none = true
lacks (some i) = not (is_positive i)

abbrev pub lacks_series : MediaType → Item → Bool
lacks_series movie m = false
lacks_series series m = lacks m.series_id || lacks m.episode_file_id

-- itemHasUsablePath
unfoldable pub item_has_usable_path : Item → Bool
unfolding trim_space
item_has_usable_path m =
    is_positive m.arr_id
    && not (text_eq (trim_space m.symlink_path) [])
    && not (lacks_series m.media_type m)

-- itemRearmable
unfoldable pub item_rearmable : Item → Bool
unfolding item_has_usable_path
item_rearmable m = not (is_in requested m.state) && item_has_usable_path m

-- isMissingHistoryError
unfoldable pub is_missing_history_error : Text → Bool
unfolding to_lower contains
is_missing_history_error error =
    let message : Text = to_lower error in
    contains message (codes "no matching movie history records")
    || contains message (codes "no matching series history records")
    || (contains message (codes "no matching") && contains message (codes "history"))

-- An error of the gateway is ErrSourceRecoveryRequired, with its text, or any other.
pub data Fault : Type 0 where
  recovery_required other_fault : Text → Fault

-- the answers of `Gateway.Source`, `Gateway.Ensure` and `Gateway.Ready`
pub record Gateway : Type 0 where
  pub source : Text → Option TorrentMetadata
  pub ensure : TorrentMetadata → Text → Text ⊎ Text
  pub ready : Text → Bool ⊎ Fault

-- rearmReady: the result of the gateway and of the probe, or the error of the gateway
abbrev pub with_probe : Bool → Bool ⊎ Fault → Bool ⊎ Fault
with_probe readable (inl ready) = inl (ready && readable)
with_probe readable (inr fault) = inr fault

abbrev pub ready_id : Item → Text → Text
ready_id m hash =
    if text_eq m.source_protocol (codes "usenet") then or_empty m.source_download_id else hash

unfoldable pub rearm_ready : Gateway → Bool → Item → Text → Bool ⊎ Fault
rearm_ready g readable m hash = with_probe readable (g.ready (ready_id m hash))
