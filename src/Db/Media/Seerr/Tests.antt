-- ===== src/Db/Media/Seerr/Tests.antt =====
-- A season that was archived is requested.
use rehydrator.Base.{ℕ, Bool, true, ◌&&◌, none, some, List, [], ◌∷◌, pos, Text, codes, text_eq}
use rehydrator.Model.Types.{torrent_file}
use rehydrator.Db.Media.{Item, SavedSource, series, archived, waiting_for_visibility}
use rehydrator.Db.Media.Imports.{new_item}
use rehydrator.Db.Media.Seerr.{SeerrRequest, SeerrTables}

abbrev hash : Text
hash = codes "0123456789abcdef0123456789abcdef01234567"

abbrev episode : Text → ℕ → Item
episode id file =
    record (new_item 100 id (codes "home") series (pos file) (codes "/media/series.mkv") archived
      none) {
        tvdb_id = some (pos 71);
        season_number = some (pos 2);
        info_hash = some hash;
        source_protocol = codes "torrent";
      }

abbrev source_of : Text → SavedSource
source_of id = record {
  media_id = id;
  source = record {
    protocol = codes "torrent";
    nzb = [];
    nzb_filename = [];
    kind = torrent_file;
    torrent = codes "d4:infod6:lengthi1eee";
    torrent_filename = codes "a.torrent";
    info_hash = hash;
    magnet = [];
    torrent_url = [];
    source = [];
    source_title = [];
    download_id = [];
  };
}

abbrev pack : List SavedSource
pack = source_of (codes "a") ∷ source_of (codes "b") ∷ []

abbrev a_request : SeerrRequest
a_request = record {
  tenant = codes "home";
  request_key = codes "request:3";
  rearm_requested_at = none;
}

abbrev asked : SeerrTables
asked = record {
  items = episode (codes "a") 1 ∷ episode (codes "b") 2 ∷ [];
  requests = a_request ∷ [];
}

-- the order of the two IDs
abbrev earlier_id : Text → Text → Bool
earlier_id s t = text_eq s (codes "a") && text_eq t (codes "b")

abbrev queued : Item → Item
queued m = record m { rearm_requested = true; last_checked = some 200; updated_at = 200 }

abbrev answered : SeerrTables
answered = record {
  items =
      queued (episode (codes "a") 1)
      ∷ record (queued (episode (codes "b") 2)) { state = waiting_for_visibility }
      ∷ [];
  requests = record a_request { rearm_requested_at = some 200 } ∷ [];
}
