-- ===== src/Db/Media/Tests.antt =====
-- A small library, the statements on it, and the theorems on them at concrete inputs.
use rehydrator.Db.Media.Inventory.{remove_items}
use rehydrator.Db.Media.Health.{probe_failures}
use rehydrator.Db.Media.Work.{claim_items}
use rehydrator.Db.Media.Lifecycle.{run}
use rehydrator.Db.Media.Marks.{mark_available}
use rehydrator.Db.Media.Work.{retry_failed}
use rehydrator.Base.{
  ℕ, ◌+◌, ◌≤◌, ◌≡◌, ◌⊎◌, inl, inr, refl, Bool, true, false, none, some, List, [], ◌∷◌, ◌++◌, map,
  arith, length, All, pos, Text, codes,
}
use rehydrator.Model.Types.{TorrentMetadata, magnet_link}
use rehydrator.Db.Media.{
  Item, movie, SavedSource, State, available, archived, broken, failed, waiting_for_visibility,
  set_items, named, is_in,
}
use rehydrator.Db.Media.Marks.{mark_failed}
use rehydrator.Db.Media.Marks.Backoff.{Try, try_rows, tries_end}
use rehydrator.Db.Media.Work.{chosen, at_least, rearm_work_items, prune_work_items, is_due_rearm}
use rehydrator.Db.Media.Work.Apart.{rearm_claims_apart, prune_claims_apart}
use rehydrator.Db.Media.Imports.{new_item}
use rehydrator.Db.Media.Inventory.{
  Tombstone, Tracked, reconcile_radarr_inventory, reconcile_sonarr_inventory,
}
use rehydrator.Db.Media.Inventory.Reasons.{Swept, MovieStays, MovieGoes, EpisodeStays, EpisodeGoes}
use rehydrator.Db.Media.Inventory.Removed.{reconcile_inventories}
use rehydrator.Db.Media.Retries.{Retry, claim_provider_retry}
use rehydrator.Db.Media.Health.{Sweep, ProbedFile, Target, Tables}
use rehydrator.Db.Media.Health.Finish.{finish}
use rehydrator.Db.Media.Health.Counted.{queued_rows, Keyed}
use rehydrator.Db.Media.Health.Queued.{finish_capped}
use rehydrator.Db.Media.Health.Cap.{outage_changes_nothing}
use rehydrator.Db.Media.Lifecycle.{
  IsConsistent, Write, run_all, fail_row, claim_rearms, make_available, retry,
}
use rehydrator.Db.Media.Lifecycle.Invariant.{run_all-IsConsistent}

abbrev tenant_name : Text
tenant_name = codes "home"

abbrev movie_hash : Text
movie_hash = codes "0123456789abcdef0123456789abcdef01234567"

abbrev fresh : Text → ℕ → State → Item
fresh id arr s = new_item 100 id tenant_name movie (pos arr) (codes "/media/film.mkv") s none

-- a broken movie that is to be rearmed, one that is available and expired, and an archived one
abbrev lost : Item
lost = record (fresh (codes "a") 1 broken) { rearm_requested = true; info_hash = some movie_hash }

abbrev old : Item
old = record (fresh (codes "b") 2 available) { cached_until = some 50; info_hash = some movie_hash }

abbrev gone : Item
gone = fresh (codes "c") 3 archived

abbrev library : List Item
library = lost ∷ old ∷ gone ∷ []

abbrev unlocked : Item → Bool
unlocked m = false

claim_lost : map (λ m. m.id) (rearm_work_items 200 unlocked 5 10 library).items ≡ codes "a" ∷ []
unfolding rearm_work_items claim_items is_in new_item
claim_lost = refl

claim_old : map (λ m. m.id) (prune_work_items 200 unlocked 0 library).items ≡ codes "b" ∷ []
unfolding prune_work_items claim_items is_in new_item
claim_old = refl

rearm_claims_apart_example :
    All
      (λ m. chosen (rearm_work_items 200 unlocked 5 10 library).items m ≡ false)
      (rearm_work_items 300 unlocked 5 10 (rearm_work_items 200 unlocked 5 10 library).table).items
    × (length (rearm_work_items 200 unlocked 5 10 library).items ≤ at_least 1 5)
rearm_claims_apart_example = rearm_claims_apart 200 300 unlocked unlocked 5 10 5 10 library

prune_claims_apart_example :
    All
      (λ m. chosen (prune_work_items 200 unlocked 0 library).items m ≡ false)
      (prune_work_items 300 unlocked 2 (prune_work_items 200 unlocked 0 library).table).items
    × (length (prune_work_items 200 unlocked 0 library).items ≤ at_least 1 0)
prune_claims_apart_example = prune_claims_apart 200 300 unlocked unlocked 0 2 library

abbrev history : List (ℕ × Write)
history =
    (200, claim_rearms unlocked 5 2)
    ∷ (210, fail_row (codes "a") (codes "provider error") 2)
    ∷ (400, claim_rearms unlocked 5 2)
    ∷ (410, fail_row (codes "a") (codes "provider error") 2)
    ∷ (500, retry tenant_name 10)
    ∷ (510, claim_rearms unlocked 5 2)
    ∷ (520, make_available (codes "a") movie_hash 9000)
    ∷ []

back_in_the_end :
    map (λ m. m.state) (run_all history library) ≡ available ∷ available ∷ archived ∷ []
unfolding run_all run mark_available set_items rearm_work_items claim_items retry_failed mark_failed
    is_in new_item
back_in_the_end = refl

run_all-IsConsistent_example : All IsConsistent (run_all history library)
unfolding new_item
run_all-IsConsistent_example = run_all-IsConsistent history library (tt, (refl, (tt, tt)))

abbrev a_try : ℕ → Try
a_try start = record { start = start; end = start + 10; error = codes "provider error" }

tries_end_example :
    (after : List Item) × (try_rows 2 (codes "a") ((a_try 200 ∷ []) ++ (a_try 400 ∷ [])) library
      ≡ some after)
    × All
        (λ m.
          (named (codes "a") m ≡ false)
          ⊎ ((m.state ≡ failed) × (is_due_rearm 9000 2 unlocked m ≡ false)))
        after
unfolding new_item
tries_end_example =
    tries_end 2 (codes "a") (a_try 200 ∷ []) (a_try 400) library 9000 unlocked (omega arith)
      (inr (omega arith), (inl refl, (inl refl, tt)))

abbrev a_source : TorrentMetadata
a_source = record {
  protocol = codes "torrent";
  nzb = [];
  nzb_filename = [];
  kind = magnet_link;
  torrent = [];
  torrent_filename = [];
  info_hash = movie_hash;
  magnet = codes "magnet:?xt=urn:btih:0123456789abcdef0123456789abcdef01234567";
  torrent_url = [];
  source = [];
  source_title = [];
  download_id = [];
}

abbrev sources : List SavedSource
sources = record { media_id = codes "a"; source = a_source } ∷ []

abbrev waiting_row : Item
waiting_row = record lost { state = waiting_for_visibility }

abbrev one_retry : List Retry
one_retry =
    record {
      tenant = tenant_name;
      info_hash = movie_hash;
      attempts = 2;
      next_attempt_at = 150;
      last_error = [];
    }
    ∷ []

abbrev claim_retry : List Retry × Bool
claim_retry =
    claim_provider_retry 200 tenant_name (codes "a") movie_hash (codes "/media/film.mkv") sources
      (waiting_row ∷ []) one_retry

third_granted : claim_retry.1 ≡ true
unfolding claim_provider_retry new_item is_in
third_granted = refl

abbrev tracked_library : Tracked
tracked_library = record { items = library; tombstones = [] }

one_movie_left :
    map (λ m. m.id) (reconcile_radarr_inventory tenant_name (pos 2 ∷ []) tracked_library).items
    ≡ codes "b" ∷ []
unfolding reconcile_radarr_inventory remove_items new_item is_in
one_movie_left = refl

reconcile_inventories_example :
    ((ts : List Tombstone) × Swept
        (MovieStays tenant_name (pos 2 ∷ []))
        (MovieGoes tenant_name (pos 2 ∷ []))
        library
        (reconcile_radarr_inventory tenant_name (pos 2 ∷ []) tracked_library).items
        ts
      × ((reconcile_radarr_inventory tenant_name (pos 2 ∷ []) tracked_library).tombstones
          ≡ [] ++ ts))
    × ((ts : List Tombstone) × Swept
          (EpisodeStays tenant_name [] [])
          (EpisodeGoes tenant_name [] [])
          library
          (reconcile_sonarr_inventory tenant_name [] [] tracked_library).items
          ts
        × ((reconcile_sonarr_inventory tenant_name [] [] tracked_library).tombstones ≡ [] ++ ts))
reconcile_inventories_example = reconcile_inventories tenant_name (pos 2 ∷ []) [] [] tracked_library

-- a pass over two unreadable files with an outage, and without
abbrev a_target : Text → Target
a_target id = record {
  id = id;
  path = codes "/media/film.mkv";
  source_key = codes "torrent:" ++ movie_hash;
  protocol = codes "torrent";
  info_hash = movie_hash;
  failures = 2;
}

abbrev unreadable : Text → ProbedFile
unreadable id = record {
  target = a_target id;
  readable = false;
  deferred = false;
  provider = none;
  provider_outage = false;
}

abbrev tables : Tables
tables = record { items = old ∷ []; files = []; shared = [] }

abbrev a_sweep : Bool → Sweep
a_sweep outage = record { tenant = tenant_name; outage = outage; threshold = 3; max_rearms = 1 }

abbrev old_source : List SavedSource
old_source = record { media_id = codes "b"; source = a_source } ∷ []

one_queued : (finish 200 (a_sweep false) old_source (unreadable (codes "b") ∷ []) tables).queued ≡ 1
unfolding finish probe_failures new_item is_in
one_queued = refl

finish_capped_example :
    (queued_rows
        (finish 200 (a_sweep false) old_source (unreadable (codes "b") ∷ []) tables).tables.items
      ≤ queued_rows (old ∷ [])
        + (finish 200 (a_sweep false) old_source (unreadable (codes "b") ∷ []) tables).queued)
    × ((finish 200 (a_sweep false) old_source (unreadable (codes "b") ∷ []) tables).queued ≤ 1)
    × (length (finish 200 (a_sweep false) old_source (unreadable (codes "b") ∷ []) tables).events
        ≡ (finish 200 (a_sweep false) old_source (unreadable (codes "b") ∷ []) tables).queued)
unfolding Keyed
finish_capped_example =
    finish_capped 200 (a_sweep false) old_source (unreadable (codes "b") ∷ []) tables (refl, tt)

outage_changes_nothing_example :
    ((finish 200 (a_sweep true) old_source (unreadable (codes "b") ∷ []) tables).tables.items
      ≡ old ∷ [])
    × ((finish 200 (a_sweep true) old_source (unreadable (codes "b") ∷ []) tables).queued ≡ 0)
outage_changes_nothing_example =
    outage_changes_nothing 200 (a_sweep true) old_source (unreadable (codes "b") ∷ []) tables refl
      (refl, tt)
