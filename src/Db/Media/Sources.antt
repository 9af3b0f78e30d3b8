-- ===== src/Db/Media/Sources.antt =====
-- The saved sources of the rows: `SaveTorrentMetadata` and `SavedTorrentSource` of
-- internal/db/repo.go.
pub mod Restore
pub mod Tests
use rehydrator.Base.{
  is_positive, All-map, max, ℕ, is_some, zero, suc, ◌+◌, ◌-◌, ◌*◌, ◌%◌, ◌≤◌, ◌<◌, min, ◌≡◌, refl,
  sym, ap, ◌∙◌, subst, ◌≢◌, ◌↔◌, ◌⊎◌, inl, inr, Bool, true, false, not, ◌&&◌, ◌||◌, Option, none,
  some, List, [], ◌∷◌, ◌++◌, map, append-nil, append_assoc, arith, ltb, leb, ◌==◌, if◌then◌else◌,
  ==_iff, ==_refl, leb→le, le→leb, lt→ltb, Bool-cases, Option-cases, &&-eq-true, ||-eq-false,
  length, take, drop, all, any, length-append, length-drop, take-append, String, drop-append, All,
  All-append, ℤ, pos, negsuc, is_negative, int_eq, eq_of_int_eq, Text, codes, text_eq,
  eq_of_text_eq, text_eq_refl, text_eq_iff, text_eq_swap,
}
use rehydrator.Base.Strings.{to_lower}
use rehydrator.Model.Types.{
  TorrentMetadata, SourceKind, nzb_file, torrent_file, magnet_link, unresolved, recovery_required,
  unset, other,
}
use rehydrator.Model.Source.{Checked, valid, recovery, rejected, Url, Token, validate_source}
use rehydrator.Db.Rows.{update, find, rows_affected}
use rehydrator.Db.Media.{
  Item, SavedSource, State, available, archived, broken, waiting_for_visibility, pruning, failed,
  is_in, one_of, set_items, null_if_empty, equals_text, named, is_tracked, or_empty,
}
use rehydrator.Db.Media.Marks.{is_torrent_row}

-- source_kind IN ('magnet', 'torrent_file')
abbrev pub is_torrent_kind : SourceKind → Bool
is_torrent_kind torrent_file = true
is_torrent_kind magnet_link = true
is_torrent_kind _ = false

abbrev pub is_nzb_kind : SourceKind → Bool
is_nzb_kind nzb_file = true
is_nzb_kind _ = false

-- the texts of the constants of internal/model/torrent.go
abbrev pub kind_text : SourceKind → Text
kind_text nzb_file = codes "nzb_file"
kind_text torrent_file = codes "torrent_file"
kind_text magnet_link = codes "magnet"
kind_text unresolved = codes "unresolved"
kind_text recovery_required = codes "recovery_required"
kind_text unset = []
kind_text (other t) = t

-- EXISTS(… s.media_id=m.id AND s.protocol='torrent' AND s.infohash=m.infohash AND …)
unfoldable pub has_torrent_source : List SavedSource → Item → Bool
has_torrent_source sources m =
    any
      (λ s.
        text_eq s.media_id m.id
        && text_eq (s.source.protocol) (codes "torrent")
        && equals_text m.info_hash (s.source.info_hash)
        && is_torrent_kind (s.source.kind))
      sources

-- the columns that the INSERT gives a row of media_cache_torrent_sources
abbrev pub stored : TorrentMetadata → TorrentMetadata
stored t = record {
  info_hash = t.info_hash;
  torrent_filename = t.torrent_filename;
  torrent = t.torrent;
  kind = t.kind;
  magnet = t.magnet;
  protocol = t.protocol;
  download_id = t.download_id;
  nzb = t.nzb;
  nzb_filename = t.nzb_filename;
  torrent_url = [];
  source = [];
  source_title = [];
}

abbrev pub belongs : Text → SavedSource → Bool
belongs id s = text_eq s.media_id id

-- INSERT … ON CONFLICT(media_id) DO UPDATE SET …
unfoldable pub put_source : Text → TorrentMetadata → List SavedSource → List SavedSource
unfolding update
put_source id t sources =
    if any (belongs id) sources
    then update (belongs id) (λ s. record s { source = stored t }) sources
    else sources ++ (record { media_id = id; source = stored t } ∷ [])

-- the CASE expressions of download_job_id
abbrev pub next_job_id : Item → TorrentMetadata → Text
next_job_id m t =
    if text_eq t.protocol (codes "usenet")
    then if equals_text m.source_download_id t.download_id && not (text_eq m.download_job_id [])
      then m.download_job_id
      else t.download_id
    else []

unfoldable pub adopt_source : ℕ → TorrentMetadata → Text → Item → Item
adopt_source now t category m = record m {
  info_hash = null_if_empty t.info_hash;
  source_protocol = t.protocol;
  download_job_id = next_job_id m t;
  source_download_id =
      if text_eq t.protocol (codes "usenet") then some t.download_id else m.source_download_id;
  magnet = null_if_empty t.magnet;
  download_category = null_if_empty category;
  source_title = null_if_empty t.source_title;
  last_checked = some now;
}

-- both tables of the media
pub record Library : Type 0 where
  pub items : List Item
  pub sources : List SavedSource

abbrev pub save_checked : ℕ → Text → Text → Library → Checked TorrentMetadata → Checked Library
save_checked now id category l (valid t) = valid (record {
  items = set_items now (named id) (adopt_source now t category) l.items;
  sources = put_source id t l.sources;
})
save_checked now id category l recovery = recovery
save_checked now id category l rejected = rejected

-- SaveTorrentMetadata
unfoldable pub save_torrent_metadata :
    (Text → Text)
    → (Text → Option Url)
    → (Text → List Token × Bool)
    → ℕ
    → Text
    → TorrentMetadata
    → Text
    → Library
    → Checked Library
unfolding validate_source adopt_source put_source
save_torrent_metadata sha1_hex parse_url read_xml now id t category l =
    save_checked now id category l (validate_source sha1_hex parse_url read_xml t)

-- the columns that the SELECT reads
abbrev pub with_source : Option SavedSource → Option TorrentMetadata
with_source none = none
with_source (some s) = some (record {
  kind = s.source.kind;
  info_hash = s.source.info_hash;
  torrent_filename = s.source.torrent_filename;
  torrent = s.source.torrent;
  magnet = s.source.magnet;
  protocol = s.source.protocol;
  download_id = s.source.download_id;
  nzb = s.source.nzb;
  nzb_filename = s.source.nzb_filename;
  source = codes "database_" ++ kind_text s.source.kind;
  torrent_url = [];
  source_title = [];
})

-- SavedTorrentSource
unfoldable pub saved_torrent_source : Text → List SavedSource → Option TorrentMetadata
unfolding find
saved_torrent_source id sources = with_source (find (belongs id) sources)
