-- ===== src/Db/Media.antt =====
-- The table media_cache_state: one row for every movie or episode file of the library, with its
-- place in the life cycle from request to archive (internal/model/model.go, internal/db/repo.go).
-- NULL is none. Times are in seconds. The trigger of the table sets updated_at on every UPDATE.
-- `download_client` and the legacy column of torrent IDs are only displayed, and left out.
pub mod Marks
pub mod Work
pub mod Requests
pub mod Imports
pub mod Placeholders
pub mod Inventory
pub mod Recovery
pub mod Retries
pub mod Health
pub mod NzbJobs
pub mod Seerr
pub mod Lifecycle
pub mod Tests
pub mod Sources
use rehydrator.Base.{
  is_positive, All-map, max, ℕ, is_some, zero, suc, ◌+◌, ◌-◌, ◌*◌, ◌%◌, ◌≤◌, ◌<◌, min, ◌≡◌, refl,
  sym, ap, ◌∙◌, subst, ◌≢◌, ◌↔◌, ◌⊎◌, inl, inr, Bool, true, false, not, ◌&&◌, ◌||◌, Option, none,
  some, List, [], ◌∷◌, ◌++◌, map, append-nil, append_assoc, arith, ltb, leb, ◌==◌, if◌then◌else◌,
  ==_iff, ==_refl, leb→le, le→leb, lt→ltb, Bool-cases, Option-cases, &&-eq-true, ||-eq-false,
  length, take, drop, all, any, length-append, length-drop, take-append, String, drop-append, All,
  All-append, ℤ, pos, negsuc, is_negative, int_eq, eq_of_int_eq, Text, codes, text_eq,
  eq_of_text_eq, text_eq_refl, text_eq_iff, text_eq_swap,
}
use rehydrator.Model.Types.{TorrentMetadata}
use rehydrator.Db.Rows.{update}

pub data MediaType : Type 0 where
  movie series : MediaType

abbrev pub type_eq : MediaType → MediaType → Bool
type_eq movie movie = true
type_eq series series = true
type_eq _ _ = false

pub data State : Type 0 where
  requested available hot cooling archived broken rearming waiting_for_visibility pruning failed :
      State

abbrev state_number : State → ℕ
state_number requested = 0
state_number available = 1
state_number hot = 2
state_number cooling = 3
state_number archived = 4
state_number broken = 5
state_number rearming = 6
state_number waiting_for_visibility = 7
state_number pruning = 8
state_number failed = 9

-- state = s
unfoldable pub is_in : State → State → Bool
is_in s t = state_number s == state_number t

-- state IN (…)
abbrev pub one_of : List State → State → Bool
one_of [] t = false
one_of (s ∷ ss) t = is_in s t || one_of ss t

pub record Item : Type 0 where
  pub id : Text
  pub tenant : Text
  pub media_type : MediaType
  pub arr_id : ℤ
  pub symlink_path : Text
  pub state : State
  pub rearm_requested : Bool
  pub cached_until : Option ℕ
  pub info_hash : Option Text
  pub magnet : Option Text
  pub download_category : Option Text
  pub arr_title : Option Text
  pub source_title : Option Text
  pub tmdb_id : Option ℤ
  pub tvdb_id : Option ℤ
  pub series_id : Option ℤ
  pub episode_id : Option ℤ
  pub episode_file_id : Option ℤ
  pub season_number : Option ℤ
  pub episode_number : Option ℤ
  pub series_title : Option Text
  pub episode_title : Option Text
  pub cache_group_key : Option Text
  pub retry_count : ℕ
  pub next_retry_at : Option ℕ
  pub last_play_intent_at : Option ℕ
  pub play_intent_count : ℕ
  pub last_checked : Option ℕ
  pub last_rehydrated : Option ℕ
  pub last_pruned : Option ℕ
  pub last_error : Option Text
  pub source_protocol : Text
  pub download_job_id : Text
  pub source_download_id : Option Text
  pub pruning_recovery_seen_at : Option ℕ
  pub updated_at : ℕ

-- a row of media_cache_torrent_sources
pub record SavedSource : Type 0 where
  pub media_id : Text
  pub source : TorrentMetadata

-- UPDATE media_cache_state, with the trigger
unfoldable pub set_items : ℕ → (Item → Bool) → (Item → Item) → List Item → List Item
unfolding update
set_items now test change = update test (λ m. record (change m) { updated_at = now })

-- COALESCE(x, '') and NULLIF(x, '')
abbrev pub or_empty : Option Text → Text
or_empty none = []
or_empty (some t) = t

abbrev pub null_if_empty : Text → Option Text
null_if_empty [] = none
null_if_empty (c ∷ t) = some (c ∷ t)

-- NULLIF(x, 0)
abbrev pub null_if_zero : ℤ → Option ℤ
null_if_zero (pos zero) = none
null_if_zero (pos (suc n)) = some (pos (suc n))
null_if_zero (negsuc n) = some (negsuc n)

-- COALESCE(x, y)
abbrev pub coalesce {ℓ} : {A : Type ℓ} → Option A → Option A → Option A
coalesce none y = y
coalesce (some x) y = some x

-- x = y, with x nullable
abbrev pub equals_id : Option ℤ → ℤ → Bool
equals_id none j = false
equals_id (some i) j = int_eq i j

abbrev pub equals_text : Option Text → Text → Bool
equals_text none t = false
equals_text (some s) t = text_eq s t

-- x IS NULL OR x <= now(), and x IS NOT NULL AND x < now()
abbrev pub null_or_past : ℕ → Option ℕ → Bool
null_or_past now none = true
null_or_past now (some at) = leb at now

abbrev pub expired : ℕ → Option ℕ → Bool
expired now none = false
expired now (some at) = ltb at now

abbrev pub named : Text → Item → Bool
named id m = text_eq m.id id

-- arr_id > 0 AND COALESCE(symlink_path, '') <> ''
abbrev pub is_tracked : Item → Bool
is_tracked m = is_positive m.arr_id && not (text_eq m.symlink_path [])
