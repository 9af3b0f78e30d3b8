-- ===== src/Db/Grabs/Links.antt =====
-- linkGrabSources and CurrentGrabSourcePending of internal/db/grab_sources.go: the newest import of
-- the path of a row gives the row its source.
use rehydrator.Base.{
  ℕ, Bool, true, false, not, ◌&&◌, ◌||◌, Option, none, some, List, [], ◌∷◌, if◌then◌else◌, ltb,
  ◌==◌, any, ℤ, int_eq, Text, codes, text_eq,
}
use rehydrator.Db.Rows.{first_by}
use rehydrator.Db.Grabs.{GrabKey, GrabRow}
use rehydrator.Db.Media.{
  Item, SavedSource, MediaType, movie, series, set_items, null_if_empty, equals_text,
}
use rehydrator.Db.Media.NzbJobs.{JobKey, UsenetJob, arr_name, current_job}
use rehydrator.Db.Media.Sources.{Library, kind_text, belongs, put_source}

-- the ID of the movie, or of the series of the episode, is the owner of the grab
abbrev pub is_owner : MediaType → ℤ → Option ℤ → ℤ → Bool
is_owner movie arr series_id owner = int_eq arr owner
is_owner series arr (some id) owner = int_eq id owner
is_owner series arr none owner = false

-- the join of media_cache_state with media_cache_grab_sources
abbrev pub is_grab_of : Item → GrabRow → Bool
is_grab_of m g =
    text_eq g.key.tenant m.tenant
    && any (text_eq m.symlink_path) g.imported_paths
    && text_eq g.key.arr (arr_name m.media_type)
    && is_owner m.media_type m.arr_id m.series_id g.key.owner_id

-- ORDER BY imported_at DESC, created_at DESC; NULL is first in a descending order
abbrev pub imported_before : Option ℕ → Option ℕ → Bool → Bool
imported_before none none newer = newer
imported_before none (some t) newer = true
imported_before (some s) none newer = false
imported_before (some s) (some t) newer = ltb t s || (s == t && newer)

abbrev pub newer_import : GrabRow → GrabRow → Bool
newer_import g h = imported_before g.imported_at h.imported_at (ltb h.created_at g.created_at)

-- the most recent import of the path, whether it is captured or not
unfoldable pub current_grab : List GrabRow → Item → Option GrabRow
unfolding first_by
current_grab grabs m = first_by newer_import (is_grab_of m) grabs

-- m.source_download_id IS DISTINCT FROM g.download_id
abbrev pub is_another : Item → GrabRow → Bool
is_another m g = not (equals_text m.source_download_id g.key.download_id)

-- the saved source of the row is the one of the grab
abbrev pub is_saved : Item → GrabRow → SavedSource → Bool
is_saved m g s =
    belongs m.id s
    && text_eq (kind_text s.source.kind) (kind_text g.torrent.kind)
    && text_eq s.source.info_hash g.torrent.info_hash
    && text_eq s.source.protocol g.torrent.protocol

abbrev pub is_link_due : List SavedSource → Item → Option GrabRow → Bool
is_link_due sources m none = false
is_link_due sources m (some g) = g.ready && (is_another m g || not (any (is_saved m g) sources))

-- WHERE m.tenant=$1 AND ($2='' OR m.id=$2), and the row is to be linked
abbrev pub is_linkable : Text → Text → List GrabRow → List SavedSource → Item → Bool
is_linkable tenant id grabs sources m =
    text_eq m.tenant tenant
    && (text_eq id [] || text_eq m.id id)
    && is_link_due sources m (current_grab grabs m)

abbrev pub as_job : GrabKey → JobKey
as_job k = record {
  tenant = k.tenant;
  arr = k.arr;
  owner_id = k.owner_id;
  original = k.download_id;
}

-- UPDATE media_cache_state SET … of a row with its grab
abbrev pub adopt_grab : List UsenetJob → Item → Option GrabRow → Item
adopt_grab jobs m none = m
adopt_grab jobs m (some g) = record m {
  info_hash = null_if_empty g.torrent.info_hash;
  magnet = null_if_empty g.torrent.magnet;
  source_title = null_if_empty g.torrent.source_title;
  source_download_id = some g.key.download_id;
  source_protocol = g.torrent.protocol;
  download_job_id =
      if text_eq g.torrent.protocol (codes "usenet") then current_job (as_job g.key) jobs else [];
}

abbrev pub put_grab : Text → Option GrabRow → List SavedSource → List SavedSource
put_grab id none sources = sources
put_grab id (some g) sources =
    put_source id (record g.torrent { download_id = g.key.download_id }) sources

-- INSERT INTO media_cache_torrent_sources … for every row that was linked
unfoldable pub put_linked :
    (Item → Bool) → List GrabRow → List Item → List SavedSource → List SavedSource
unfolding current_grab put_source
put_linked test grabs [] sources = sources
put_linked test grabs (m ∷ ms) sources =
    let rest = put_linked test grabs ms sources in
    if test m then put_grab m.id (current_grab grabs m) rest else rest

-- linkGrabSources
unfoldable pub link_grab_sources :
    ℕ → Text → Text → List GrabRow → List UsenetJob → Library → Library
unfolding set_items current_grab current_job put_linked
link_grab_sources now tenant id grabs jobs l =
    let test = is_linkable tenant id grabs l.sources in
    record {
      items = set_items now test (λ m. adopt_grab jobs m (current_grab grabs m)) l.items;
      sources = put_linked test grabs l.items l.sources;
    }

abbrev pub is_pending_grab : Item → Option GrabRow → Bool
is_pending_grab m none = false
is_pending_grab m (some g) = not g.ready || is_another m g

-- CurrentGrabSourcePending; the ID is the primary key
unfoldable pub current_grab_source_pending : Text → List GrabRow → List Item → Bool
unfolding current_grab
current_grab_source_pending id grabs rows =
    any (λ m. text_eq m.id id && is_pending_grab m (current_grab grabs m)) rows
