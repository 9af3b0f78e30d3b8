-- ===== src/Db/Media/NzbJobs/Tests.antt =====
-- Two episodes of one NZB.
use rehydrator.Base.{ℕ, ◌≡◌, refl, true, Option, none, some, List, [], ◌∷◌, pos, Text, codes}
use rehydrator.Model.Types.{nzb_file}
use rehydrator.Db.Media.{Item, SavedSource, series, broken, waiting_for_visibility}
use rehydrator.Db.Media.Imports.{new_item}
use rehydrator.Db.Media.NzbJobs.{JobKey, JobTables, job_key, after_ensure_job, ensure_nzb_job}
use rehydrator.Db.Media.NzbJobs.Shared.{shared_job}

abbrev episode : Text → ℕ → Item
episode id file =
    record (new_item 100 id (codes "home") series (pos file) (codes "/media/series.mkv") broken
      none) {
        series_id = some (pos 5);
        source_protocol = codes "usenet";
        source_download_id = some (codes "nzb-1");
      }

abbrev source_of : Text → SavedSource
source_of id = record {
  media_id = id;
  source = record {
    protocol = codes "usenet";
    nzb = codes "nzb";
    nzb_filename = codes "a.nzb";
    kind = nzb_file;
    torrent = [];
    torrent_filename = [];
    info_hash = [];
    magnet = [];
    torrent_url = [];
    source = [];
    source_title = [];
    download_id = codes "nzb-1";
  };
}

abbrev pack : List SavedSource
pack = source_of (codes "a") ∷ source_of (codes "b") ∷ []

abbrev before_submission : JobTables
before_submission = record { items = episode (codes "a") 1 ∷ episode (codes "b") 2 ∷ []; jobs = [] }

abbrev submits : Text → Option Text
submits job = some (codes "job-7")

abbrev keeps : Text → Option Text
keeps job = some job

abbrev shared_key : JobKey
shared_key = record {
  tenant = codes "home";
  arr = codes "sonarr";
  owner_id = pos 5;
  original = codes "nzb-1";
}

abbrev noted : Item → Item
noted m = record m { download_job_id = codes "job-7"; updated_at = 200 }

abbrev after_submission : JobTables
after_submission = record {
  items =
      record (noted (episode (codes "a") 1)) {
        state = waiting_for_visibility;
        rearm_requested = true;
        next_retry_at = some 230;
        last_checked = some 200;
      }
      ∷ noted (episode (codes "b") 2)
      ∷ [];
  jobs = record { key = shared_key; job_id = codes "job-7" } ∷ [];
}

submitted :
    ensure_nzb_job 200 (codes "a") submits pack before_submission
    ≡ some (after_submission, codes "job-7")
unfolding ensure_nzb_job new_item
submitted = refl

shared_job_example :
    (k : JobKey) × (ensure_nzb_job 300 (codes "b") keeps pack after_submission
      ≡ after_ensure_job 300 (codes "b") k after_submission (keeps (codes "job-7")))
unfolding job_key new_item
shared_job_example =
    shared_job 200 300 (codes "a") (codes "b") submits keeps pack before_submission after_submission
      (codes "job-7") refl submitted
