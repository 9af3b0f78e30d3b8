-- ===== src/Db/Media/Health.antt =====
-- internal/db/file_health.go: one pass of the file health checks of a tenant. The pass holds the
-- lock of the tenant, so it is one step on the tables; `now` is the time of its transaction.
use rehydrator.Base.{
  is_positive, All-map, max, ℕ, is_some, zero, suc, ◌+◌, ◌-◌, ◌*◌, ◌%◌, ◌≤◌, ◌<◌, min, ◌≡◌, refl,
  sym, ap, ◌∙◌, subst, ◌≢◌, ◌↔◌, ◌⊎◌, inl, inr, Bool, true, false, not, ◌&&◌, ◌||◌, Option, none,
  some, List, [], ◌∷◌, ◌++◌, map, append-nil, append_assoc, arith, ltb, leb, ◌==◌, if◌then◌else◌,
  ==_iff, ==_refl, leb→le, le→leb, lt→ltb, Bool-cases, Option-cases, &&-eq-true, ||-eq-false,
  length, take, drop, all, any, length-append, length-drop, take-append, String, drop-append, All,
  All-append, ℤ, pos, negsuc, is_negative, int_eq, eq_of_int_eq, Text, codes, text_eq,
  eq_of_text_eq, text_eq_refl, text_eq_iff, text_eq_swap,
}
use rehydrator.Torbox.Listing.{Availability}
use rehydrator.Db.Rows.{update}
use rehydrator.Db.Media.{
  Item, SavedSource, State, available, broken, waiting_for_visibility, is_in, one_of, set_items,
  equals_text, named, or_empty,
}
use rehydrator.Db.Media.Marks.{is_torrent_row}
use rehydrator.Db.Media.Sources.{has_torrent_source, is_torrent_kind, is_nzb_kind}
pub mod Finish
pub mod Targets
pub mod Cap
pub mod Counted
pub mod Queued
pub mod Kept

abbrev pub reports_available : Availability → Bool
reports_available Availability.available = true
reports_available _ = false

abbrev pub reports_unavailable : Availability → Bool
reports_unavailable Availability.unavailable = true
reports_unavailable _ = false

pub record Target : Type 0 where
  pub id : Text
  pub path : Text
  pub source_key : Text
  pub protocol : Text
  pub info_hash : Text
  pub failures : ℕ

-- the fields of `ProviderHealth` that decide
pub record ProviderHealth : Type 0 where
  pub status : Availability
  pub failures : ℕ

pub record ProbedFile : Type 0 where
  pub target : Target
  pub readable : Bool
  pub deferred : Bool
  pub provider : Option ProviderHealth
  pub provider_outage : Bool

-- a row of media_cache_file_health, less the text of its detail
pub record FileHealth : Type 0 where
  pub media_id : Text
  pub path : Text
  pub source_key : Text
  pub consecutive_failures : ℕ
  pub last_checked_at : ℕ
  pub last_healthy_at : Option ℕ
  pub last_auto_rearm_at : Option ℕ

-- a row of media_cache_provider_health of the tenant
pub record SharedHealth : Type 0 where
  pub info_hash : Text
  pub consecutive_failures : ℕ
  pub last_auto_rearm_at : Option ℕ

pub record Tables : Type 0 where
  pub items : List Item
  pub files : List FileHealth
  pub shared : List SharedHealth

-- the variables of `Finish`, and the rows of its events with their failed checks
pub record Pass : Type 0 where
  pub tables : Tables
  pub queued : ℕ
  pub provider_queued : List Text
  pub events : List (Text × ℕ)

-- the arguments of `Finish`, and the tenant of the pass
pub record Sweep : Type 0 where
  pub tenant : Text
  pub outage : Bool
  pub threshold : ℕ
  pub max_rearms : ℕ

-- m.source_protocol||':'||COALESCE(NULLIF(m.source_download_id,''),m.infohash,'')
abbrev pub source_key_of : Item → Text
source_key_of m = m.source_protocol ++ codes ":" ++ key_tail (or_empty m.source_download_id)
  where
    key_tail : Text → Text
    key_tail [] = or_empty m.info_hash
    key_tail (c ∷ t) = c ∷ t

abbrev pub provider_failures : ProviderHealth → ℕ
provider_failures p = if reports_unavailable p.status then p.failures else 0

-- `failures` after the three tests of the probe
unfoldable pub probe_failures : Sweep → ProbedFile → ℕ
probe_failures s r =
    if r.deferred
    then r.target.failures
    else if not r.readable && not s.outage
    then min (r.target.failures + 1) s.threshold
    else 0

abbrev pub count_failures : Sweep → ProbedFile → Option ProviderHealth → ℕ
count_failures s r none = probe_failures s r
count_failures s r (some p) = provider_failures p

abbrev pub provider_recovers : Sweep → ProbedFile → Option ProviderHealth → Bool
provider_recovers s r none = false
provider_recovers s r (some p) =
    reports_unavailable p.status && (not r.provider_outage || leb s.threshold p.failures)

-- the row of a target that has not changed since it was selected
unfoldable pub is_target : Sweep → Target → Item → Bool
is_target s t m =
    named t.id m
    && text_eq m.tenant s.tenant
    && text_eq m.symlink_path t.path
    && text_eq (source_key_of m) t.source_key

unfoldable pub record_file : ℕ → ProbedFile → ℕ → FileHealth → FileHealth
record_file now r failures h = record h {
  path = r.target.path;
  source_key = r.target.source_key;
  consecutive_failures = failures;
  last_checked_at = now;
  last_healthy_at = if r.readable then some now else h.last_healthy_at;
}

unfoldable pub new_file : ℕ → ProbedFile → ℕ → FileHealth
new_file now r failures = record {
  media_id = r.target.id;
  path = r.target.path;
  source_key = r.target.source_key;
  consecutive_failures = failures;
  last_checked_at = now;
  last_healthy_at = if r.readable then some now else none;
  last_auto_rearm_at = none;
}

-- the first statement of the loop
unfoldable pub record_check : ℕ → Sweep → ProbedFile → ℕ → Tables → Tables
unfolding update is_target record_file new_file
record_check now s r failures t =
    if not (any (is_target s r.target) t.items)
    then t
    else if any (λ h. text_eq h.media_id (r.target.id)) t.files
    then record t {
      files = update (λ h. text_eq h.media_id (r.target.id)) (record_file now r failures) t.files;
    }
    else record t { files = t.files ++ (new_file now r failures ∷ []) }

abbrev pub found_at_provider : Option ProviderHealth → Bool
found_at_provider none = false
found_at_provider (some p) = reports_available p.status

unfoldable pub await_availability : ℕ → Item → Item
await_availability now m = record m {
  state = waiting_for_visibility;
  rearm_requested = true;
  next_retry_at = some now;
  last_error =
      some (codes "provider health: readable broken file awaiting availability confirmation");
}

-- the statement for a broken row whose file is readable again
unfoldable pub confirm_readable : ℕ → Sweep → List SavedSource → ProbedFile → Tables → Tables
unfolding is_target await_availability has_torrent_source
confirm_readable now s sources r t =
    if found_at_provider r.provider && r.readable && not r.deferred
    then record t {
      items =
          set_items now
            (λ m.
              is_target s r.target m
              && is_in broken m.state
              && not m.rearm_requested
              && is_torrent_row m
              && has_torrent_source sources m)
            (await_availability now) t.items;
    }
    else t
