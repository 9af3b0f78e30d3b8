-- ===== src/Gateway/Tests.antt =====
-- The gateway's theorems at concrete inputs.
use rehydrator.Gateway.Staging.{Paths}
use rehydrator.Gateway.Pass.{Outside, reconcile}
use rehydrator.Gateway.Pass.{add_requests}
use rehydrator.Gateway.Pass.Refines.{Refines, reconcile-Reach}
use rehydrator.Gateway.Reconcile.{
  accepted, unreachable, note_missing, decide_missing, after_poll, Config, combined, decide,
  is_absent, answered,
}
use rehydrator.Db.Jobs.{submitting, Job, Row, Tables, queued}
use rehydrator.Torbox.Catalog.{validate_from, validate_files}
use rehydrator.Base.{
  ◌≤◌, ◌≡◌, refl, ◌↔◌, true, false, none, some, [], ◌∷◌, arith, All, pos, Text, codes,
}
use rehydrator.Base.Strings.{byte_len, to_lower, trim_space, has_suffix, contains_rune}
use rehydrator.Model.Types.{torrent, magnet_link}
use rehydrator.Torbox.Types.{UsenetFile, UsenetDownload}
use rehydrator.Torbox.Catalog.Safe.{Distinct}
use rehydrator.Db.Jobs.Claim.{claim_job, claimed}
use rehydrator.Gateway.Release.{
  release_folder, is_valid_release_folder, base_name, cut_suffix, write_runes, replace_rune,
}
use rehydrator.Gateway.Release.Valid.{IsPlain, release_folder_valid}
use rehydrator.Gateway.Catalog.{same_catalog, size_of}
use rehydrator.Gateway.Catalog.Same.{same_catalog_iff}
use rehydrator.Gateway.Reconcile.Decide.{requeues}
use rehydrator.Gateway.Reconcile.Absence.{follow, misses_in_a_row, three_misses}
use rehydrator.Gateway.Budget.{System, Reach, here, next, claim, upload, first, count}
use rehydrator.Gateway.Budget.Bounded.{IsInitial, uploads_bounded}

abbrev a_job : Job
a_job = record {
  id = codes "torrent-1";
  category = codes "radarr";
  filename = codes "x.torrent";
  name = codes " A: Film. .torrent";
  state = queued;
  last_error = [];
  protocol = torrent;
  source_kind = magnet_link;
  info_hash = codes "ab";
  magnet = codes "magnet:";
  torrent_file = [];
  nzb = [];
  provider_id = 0;
  attempts = 0;
  missing_checks = 0;
  hidden = false;
  cleanup_requested = false;
  catalog_revision = 0;
  created_at = 0;
  files = [];
  release_folder = [];
  provider_status = none;
}

abbrev a_row : Row
a_row = record { job = a_job; fingerprint = []; next_check_at = 5; verify_next_at = 5 }

abbrev start : System
start = record { tables = record { jobs = a_row ∷ []; gate = none }; uploads = []; pending = [] }

start-IsInitial : IsInitial start
start-IsInitial = record {
  no_uploads = refl;
  no_pending = refl;
  capped = (omega arith, tt);
  unique = (tt, tt);
}

abbrev claimed_tables : Tables
claimed_tables = record {
  jobs =
      record a_row { job = record a_job { state = submitting; attempts = 1 }; next_check_at = 309 }
      ∷ [];
  gate = some 69;
}

claim_runs :
    claim_job 9 60 none (λ _. false) start.tables
    ≡ claimed (record a_job { attempts = 1 }) claimed_tables
unfolding claim_job
claim_runs = refl

abbrev uploaded : System
uploaded = record { tables = claimed_tables; uploads = codes "torrent-1" ∷ []; pending = [] }

Reach-uploaded : Reach start uploaded
Reach-uploaded =
    next (next here (claim 9 60 none (λ _. false) claim_runs)) (upload (codes "torrent-1") first)

uploads_bounded_example :
    All
      (λ r. (count r.id uploaded.uploads ≤ 3) × (count r.id uploaded.uploads ≤ r.attempts))
      uploaded.tables.jobs
uploads_bounded_example = uploads_bounded start-IsInitial Reach-uploaded

release_folder_valid_example :
    (is_valid_release_folder (release_folder a_job) ≡ true)
    × (byte_len (release_folder a_job) ≤ 180)
    × All IsPlain (release_folder a_job)
release_folder_valid_example = release_folder_valid a_job

release_folder_runs : release_folder a_job ≡ codes "A- Film"
unfolding release_folder base_name trim_space cut_suffix has_suffix to_lower write_runes
    replace_rune contains_rune
release_folder_runs = refl

abbrev file_a : UsenetFile
file_a = record { id = pos 1; name = codes "a.mkv"; size = pos 5 }

abbrev file_b : UsenetFile
file_b = record { id = pos 2; name = codes "b.srt"; size = pos 1 }

Distinct-ab : Distinct (file_a ∷ file_b ∷ [])
unfolding Distinct
Distinct-ab = ((refl, tt), (tt, tt))

Distinct-ba : Distinct (file_b ∷ file_a ∷ [])
unfolding Distinct
Distinct-ba = ((refl, tt), (tt, tt))

same_catalog_iff_example :
    (same_catalog (file_a ∷ file_b ∷ []) (file_b ∷ file_a ∷ []) ≡ true)
    ↔ ((n : Text) → size_of n (file_a ∷ file_b ∷ []) ≡ size_of n (file_b ∷ file_a ∷ []))
same_catalog_iff_example =
    same_catalog_iff (file_a ∷ file_b ∷ []) (file_b ∷ file_a ∷ []) Distinct-ab Distinct-ba

reordered_same : same_catalog (file_a ∷ file_b ∷ []) (file_b ∷ file_a ∷ []) ≡ true
unfolding same_catalog size_of
reordered_same = refl

abbrev settings : Config
settings = record {
  role = combined;
  recover_missing = true;
  submit_interval = 60;
  poll_interval = 30;
}

abbrev nothing : UsenetDownload
nothing = record {
  raw_state = [];
  finished = none;
  cached = none;
  id = pos 0;
  name = [];
  state = [];
  present = none;
  files = [];
}

third_miss_recovers :
    requeues (
      decide settings
        (follow settings a_job (answered nothing false ∷ answered nothing false ∷ []))
        nothing
        false)
    ≡ true
unfolding follow after_poll decide is_absent decide_missing note_missing
third_miss_recovers = refl

nothing_valid : validate_files [] ≡ true
unfolding validate_files validate_from
nothing_valid = refl

three_misses_example :
    (is_absent nothing false ≡ true)
    × (2 ≤ misses_in_a_row 0 (answered nothing false ∷ answered nothing false ∷ []))
three_misses_example =
    three_misses settings a_job (answered nothing false ∷ answered nothing false ∷ []) nothing false
      refl (nothing_valid, (nothing_valid, tt)) third_miss_recovers

abbrev the_paths : Paths
the_paths = record {
  download_path = codes "/downloads";
  mount_path = codes "/mnt/cloud";
  categories = codes "radarr" ∷ [];
}

-- a provider that accepts every submission
abbrev outside : Outside
outside = record {
  lookup = none;
  submit = λ j. accepted 7;
  poll = λ j. unreachable (codes "timeout");
  readable = λ p. false;
}

reconcile-Reach_example :
    Refines start
      (reconcile settings the_paths outside 9
        (λ r. false)
        (record { tables = start.tables; fs = [] })).1.tables
      (add_requests settings outside 9 (λ r. false) (record { tables = start.tables; fs = [] }))
reconcile-Reach_example =
    reconcile-Reach settings the_paths outside 9 (λ r. false)
      (record { tables = start.tables; fs = [] }) [] []
