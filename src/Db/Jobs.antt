-- ===== src/Db/Jobs.antt =====
-- The table gateway_jobs of one tenant: `GatewayJob` of internal/db/gateway_jobs.go, the columns
-- that only statements read, and the submission gate. Every statement of the source names the
-- tenant, so the rows of other tenants are left out. Times are seconds, and `now` is the time of
-- the database. A statement that fails in the database leaves the tables as they were.
pub mod Claim
pub mod Statements
pub mod Mounts
pub mod Budget
use rehydrator.Base.{ℕ, ℤ, Text, Bool, true, false, Option, List, ◌==◌, text_eq}
use rehydrator.Model.Types.{Protocol, SourceKind}
use rehydrator.Torbox.Types.{UsenetFile}

pub data JobState : Type 0 where
  queued submitting downloading mounting completed missing failed submission_unknown : JobState

abbrev number : JobState → ℕ
number queued = 0
number submitting = 1
number downloading = 2
number mounting = 3
number completed = 4
number missing = 5
number failed = 6
number submission_unknown = 7

abbrev pub state_eq : JobState → JobState → Bool
state_eq s t = number s == number t

-- `ProviderStatus` of internal/torbox/telemetry.go, less the numbers that are only displayed
pub record ProviderStatus : Type 0 where
  pub provider_id : ℕ
  pub checked_at : ℕ
  pub last_attempt_at : ℕ
  pub check_failed : Bool
  pub found : Bool
  pub state : Text
  pub finished : Option Bool
  pub present : Option Bool
  pub cached : Option Bool
  pub ready : Bool

pub record Job : Type 0 where
  pub id : Text
  pub category : Text
  pub filename : Text
  pub name : Text
  pub state : JobState
  pub last_error : Text
  pub protocol : Protocol
  pub source_kind : SourceKind
  pub info_hash : Text
  pub magnet : Text
  pub torrent_file : Text
  pub nzb : Text
  pub provider_id : ℕ
  pub attempts : ℕ
  pub missing_checks : ℕ
  pub hidden : Bool
  pub cleanup_requested : Bool
  pub catalog_revision : ℕ
  pub created_at : ℕ
  pub files : List UsenetFile
  pub release_folder : Text
  pub provider_status : Option ProviderStatus

pub record Row : Type 0 where
  pub job : Job
  pub open job use *
  pub fingerprint : Text
  pub next_check_at : ℕ
  pub verify_next_at : ℕ

-- gateway_jobs, and next_submit_at of media_cache_cloud_usenet_gate if the tenant has a row there
pub record Tables : Type 0 where
  pub jobs : List Row
  pub gate : Option ℕ

abbrev pub has_id : Text → Row → Bool
has_id id r = text_eq r.id id
