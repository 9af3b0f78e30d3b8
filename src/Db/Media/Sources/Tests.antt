-- ===== src/Db/Media/Sources/Tests.antt =====
-- A source of a row that is saved and read back, at a concrete input.
use rehydrator.Base.{
  ◌≡◌, refl, Bool, true, Option, none, some, List, [], ◌∷◌, ◌++◌, pos, Text, codes,
}
use rehydrator.Base.Strings.{
  equal_fold, has_prefix, to_lower, lower_rune, drop_bytes, trim_space, trim, trim_left, trim_right,
}
use rehydrator.Model.Types.{TorrentMetadata, magnet_link}
use rehydrator.Model.Source.{
  valid, Url, Token, validate_source, validate_magnet, resolve_magnet, btih,
}
use rehydrator.Db.Media.{movie, archived, set_items, named}
use rehydrator.Db.Media.Imports.{new_item}
use rehydrator.Db.Media.Sources.{
  Library, adopt_source, put_source, save_torrent_metadata, saved_torrent_source,
}
use rehydrator.Db.Media.Sources.Restore.{as_saved, save-saved}

abbrev hash : Text
hash = codes "0123456789abcdef0123456789abcdef01234567"

abbrev given : TorrentMetadata
given = record {
  protocol = [];
  nzb = [];
  nzb_filename = [];
  kind = magnet_link;
  torrent = [];
  torrent_filename = [];
  info_hash = hash;
  magnet = codes "magnet:?xt=urn:btih:0123456789abcdef0123456789abcdef01234567";
  torrent_url = [];
  source = [];
  source_title = codes "Film";
  download_id = [];
}

abbrev checked : TorrentMetadata
checked = record given { protocol = codes "torrent" }

abbrev digest : Text → Text
digest s = hash

abbrev parse : Text → Option Url
parse s = some (record { scheme = codes "magnet"; xt = (codes "urn:btih:" ++ hash) ∷ [] })

abbrev tokens : Text → List Token × Bool
tokens s = ([], true)

abbrev untouched : Library
untouched = record {
  items =
      new_item 100 (codes "a") (codes "home") movie (pos 1) (codes "/media/film.mkv") archived none
      ∷ [];
  sources = [];
}

abbrev kept_library : Library
kept_library = record {
  items =
      set_items 200 (named (codes "a")) (adopt_source 200 checked (codes "radarr")) untouched.items;
  sources = put_source (codes "a") checked [];
}

saves :
    save_torrent_metadata digest parse tokens 200 (codes "a") given (codes "radarr") untouched
    ≡ valid kept_library
unfolding save_torrent_metadata validate_source validate_magnet resolve_magnet equal_fold btih
    has_prefix to_lower lower_rune drop_bytes trim_space trim trim_left trim_right
saves = refl

save-saved_example :
    (v : TorrentMetadata) × (validate_source digest parse tokens given ≡ valid v)
    × (saved_torrent_source (codes "a") kept_library.sources ≡ some (as_saved v))
save-saved_example =
    save-saved digest parse tokens 200 (codes "a") given (codes "radarr") untouched kept_library
      saves
