-- ===== src/Db/Grabs/Tests.antt =====
-- A grab is queued, captured, queued again and imported.
use rehydrator.Base.{
  ℕ, ◌≡◌, refl, Bool, true, false, Option, none, some, List, [], ◌∷◌, ◌++◌, map, length, All, pos,
  Text, codes,
}
use rehydrator.Base.Strings.{equal_fold}
use rehydrator.Model.Types.{TorrentMetadata, magnet_link}
use rehydrator.Model.Source.{Url, Token, validate_magnet, btih}
use rehydrator.Db.Rows.{first_by, update}
use rehydrator.Db.Media.{Item, movie, archived, set_items}
use rehydrator.Db.Media.Imports.{new_item}
use rehydrator.Db.Media.Sources.{Library, put_source}
use rehydrator.Db.Grabs.Links.{
  current_grab, put_linked, link_grab_sources, current_grab_source_pending,
}
use rehydrator.Db.Grabs.{
  GrabKey, GrabSource, GrabRow, is_valid_row, no_source, new_grab, pending_grab_sources,
}
use rehydrator.Db.Grabs.Kept.{
  GrabWrite, queue_source, complete_source, retry_source, record_import, captured, write_all,
  captured_final,
}
use rehydrator.Db.Grabs.Captured.{IsCaptured, write_all-IsCaptured}

abbrev hash : Text
hash = codes "0123456789abcdef0123456789abcdef01234567"

abbrev a_key : GrabKey
a_key = record { tenant = codes "home"; arr = codes "radarr"; owner_id = pos 7; download_id = hash }

abbrev offered : TorrentMetadata
offered = record no_source {
  protocol = [];
  magnet = codes "magnet:?xt=urn:btih:0123456789abcdef0123456789abcdef01234567";
  source_title = codes "Film";
}

abbrev a_grab : GrabSource
a_grab = record { key = a_key; torrent = offered }

abbrev found : GrabSource
found = record {
  key = a_key;
  torrent = record offered { kind = magnet_link; info_hash = hash; download_id = hash };
}

abbrev another : GrabSource
another = record {
  key = a_key;
  torrent = record no_source { torrent_url = codes "https://example.org/a.torrent" };
}

abbrev taken : TorrentMetadata
taken = record found.torrent { protocol = codes "torrent"; download_id = [] }

abbrev digest : Text → Text
digest s = hash

abbrev parse : Text → Option Url
parse s = some (record { scheme = codes "magnet"; xt = (codes "urn:btih:" ++ hash) ∷ [] })

abbrev tokens : Text → List Token × Bool
tokens s = ([], true)

abbrev first_writes : List (ℕ × GrabWrite)
first_writes =
    (100, queue_source a_grab)
    ∷ (110, retry_source a_key (codes "timeout"))
    ∷ (200, complete_source found)
    ∷ []

abbrev later_writes : List (ℕ × GrabWrite)
later_writes =
    (300, queue_source another)
    ∷ (310, complete_source another)
    ∷ (320, record_import a_key (codes "/media/film.mkv"))
    ∷ []

abbrev held : List GrabRow
held = record (new_grab 100 a_key taken) { ready = true; next_retry_at = 170 } ∷ []

captures : write_all digest parse tokens first_writes [] ≡ held
unfolding write_all validate_magnet equal_fold btih is_valid_row
captures = refl

holds : captured a_key held ≡ some taken
unfolding captured
holds = refl

-- an unfinished grab waits a minute after an error
waits :
    map
      (λ n. length (
        pending_grab_sources n (codes "home") (
          write_all digest parse tokens
            ((100, queue_source a_grab) ∷ (110, retry_source a_key (codes "timeout")) ∷ [])
            [])))
      (169 ∷ 170 ∷ [])
    ≡ 0 ∷ 1 ∷ []
unfolding write_all pending_grab_sources is_valid_row
waits = refl

captured_final_example :
    captured a_key (write_all digest parse tokens later_writes held) ≡ some taken
captured_final_example = captured_final digest parse tokens later_writes a_key taken held holds

write_all-IsCaptured_example :
    All (IsCaptured digest parse tokens) (write_all digest parse tokens first_writes [])
write_all-IsCaptured_example = write_all-IsCaptured digest parse tokens first_writes [] tt

abbrev film : Item
film = new_item 10 (codes "m") (codes "home") movie (pos 7) (codes "/media/film.mkv") archived none

abbrev media : Library
media = record { items = film ∷ []; sources = [] }

-- an older import that is captured
abbrev older : GrabRow
older = record (new_grab 100 a_key taken) {
  ready = true;
  imported_paths = codes "/media/film.mkv" ∷ [];
  imported_at = some 320;
}

-- a newer one that is not captured yet
abbrev newer : GrabRow
newer = record (new_grab 400 (record a_key { download_id = codes "n" }) no_source) {
  imported_paths = codes "/media/film.mkv" ∷ [];
  imported_at = some 420;
}

abbrev pending_answers : List GrabRow → Bool
pending_answers grabs =
    current_grab_source_pending (codes "m") grabs
      (link_grab_sources 500 (codes "home") (codes "m") grabs [] media).items

-- only the newest import counts
newest_counts :
    map pending_answers ((older ∷ []) ∷ (older ∷ newer ∷ []) ∷ [] ∷ []) ≡ false ∷ true ∷ false ∷ []
unfolding current_grab_source_pending link_grab_sources current_grab put_linked first_by set_items
    update new_item put_source
newest_counts = refl
