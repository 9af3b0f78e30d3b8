-- ===== src/Gateway/Mount/Tests.antt =====
-- Staging and mount verification at a concrete job.
use rehydrator.Base.{◌≡◌, refl, true, false, none, some, [], ◌∷◌, All, pos, Text, codes}
use rehydrator.Model.Types.{torrent, magnet_link}
use rehydrator.Torbox.Types.{UsenetFile}
use rehydrator.Db.Jobs.{Job, mounting, Row, completed}
use rehydrator.Gateway.Staging.{
  directory, regular, link, Fs, Paths, node_at, destination, target, storage, create_link,
  create_links, remove_staged_links,
}
use rehydrator.Db.Jobs.Mounts.{finish_mount}
use rehydrator.Gateway.Release.{base, is_valid_release_folder}
use rehydrator.Gateway.Mount.{World, verify_mount, verify_pinned, check_candidate, report, pick}
use rehydrator.Gateway.Mount.Stale.{verify_mount_stale}
use rehydrator.Gateway.Staging.Kept.{Keeps, create_links_lem}
use rehydrator.Gateway.Staging.Cleanup.{Spares, IsStaged, remove_staged_links_lem}

abbrev a_film : UsenetFile
a_film = record { id = pos 1; name = codes "a/film.mkv"; size = pos 9 }

abbrev mounted : Job
mounted = record {
  id = codes "t1";
  category = codes "radarr";
  filename = [];
  name = codes "Film";
  state = mounting;
  last_error = [];
  protocol = torrent;
  source_kind = magnet_link;
  info_hash = codes "ab";
  magnet = codes "magnet:";
  torrent_file = [];
  nzb = [];
  provider_id = 7;
  attempts = 1;
  missing_checks = 0;
  hidden = false;
  cleanup_requested = false;
  catalog_revision = 2;
  created_at = 0;
  files = a_film ∷ [];
  release_folder = codes "Film";
  provider_status = none;
}

abbrev paths : Paths
paths = record {
  download_path = codes "/downloads";
  mount_path = codes "/mnt/cloud/";
  categories = codes "radarr" ∷ [];
}

-- something foreign stands beside
abbrev around : Fs
around = (codes "/downloads/other", regular) ∷ []

abbrev dest : Text
dest = codes "/downloads/radarr/t1/Film/a/film.mkv"

abbrev after : Fs
after =
    (dest, link (codes "/mnt/cloud/torrents/t1/a/film.mkv"))
    ∷ (codes "/downloads/radarr/t1/Film/a", directory)
    ∷ (codes "/downloads/radarr/t1/Film", directory)
    ∷ (codes "/downloads/radarr/t1", directory)
    ∷ (codes "/downloads/radarr", directory)
    ∷ around

staged : create_links paths mounted around ≡ (none, after)
unfolding create_links create_link destination target storage
staged = refl

-- a parent that is a link is refused
link_parent :
    create_links paths mounted ((codes "/downloads/radarr", link (codes "/etc")) ∷ around) ≡ (
      some (codes "download parent is not a real directory"),
      (codes "/downloads/radarr", link (codes "/etc")) ∷ around,
    )
unfolding create_links create_link destination target storage
link_parent = refl

create_links_lem_example :
    Keeps around (create_links paths mounted around).1
    × ((create_links paths mounted around).0 ≡ none
        → (true ≡ true)
          × All
              (λ f.
                node_at (destination paths mounted f) (create_links paths mounted around).1
                ≡ some (link (target paths mounted f)))
              (a_film ∷ []))
create_links_lem_example = create_links_lem paths mounted around

remove_staged_links_lem_example :
    Spares (IsStaged paths mounted (a_film ∷ [])) after (remove_staged_links paths mounted after).1
remove_staged_links_lem_example = remove_staged_links_lem paths mounted after

abbrev a_row : Row
a_row = record { job = mounted; fingerprint = []; next_check_at = 5; verify_next_at = 5 }

abbrev a_world : World
a_world = record { rows = a_row ∷ []; fs = around }

-- a readable payload completes the job
readable_completes : verify_mount paths (λ p. true) mounted a_world ≡ (
  none,
  record { rows = record a_row { job = record mounted { state = completed } } ∷ []; fs = after },
)
unfolding verify_mount verify_pinned check_candidate report create_links create_link destination
    target storage is_valid_release_folder base pick finish_mount
readable_completes = refl

-- the job as another worker read it before the catalog was published again
abbrev outdated : Job
outdated = record mounted { catalog_revision = 1 }

verify_mount_stale_example : (verify_mount paths (λ p. true) outdated a_world).1.rows ≡ a_row ∷ []
verify_mount_stale_example = verify_mount_stale paths (λ p. true) outdated a_world ((λ h. refl), tt)
