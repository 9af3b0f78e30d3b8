-- ===== src/Db/Grabs.antt =====
-- The table media_cache_grab_sources and its statements of internal/db/grab_sources.go: a grab is
-- queued, its source is captured once, and the paths of its imports are noted. A statement that the
-- checks of the table (internal/db/schema.sql) refuse is `none`. A column of bytes that is NULL is
-- the empty list. Times are in seconds.
use rehydrator.Base.{
  is_positive, All-map, max, ℕ, is_some, zero, suc, ◌+◌, ◌-◌, ◌*◌, ◌%◌, ◌≤◌, ◌<◌, min, ◌≡◌, refl,
  sym, ap, ◌∙◌, subst, ◌≢◌, ◌↔◌, ◌⊎◌, inl, inr, Bool, true, false, not, ◌&&◌, ◌||◌, Option, none,
  some, List, [], ◌∷◌, ◌++◌, map, append-nil, append_assoc, arith, ltb, leb, ◌==◌, if◌then◌else◌,
  ==_iff, ==_refl, leb→le, le→leb, lt→ltb, Bool-cases, Option-cases, &&-eq-true, ||-eq-false,
  length, take, drop, all, any, length-append, length-drop, take-append, String, drop-append, All,
  All-append, ℤ, pos, negsuc, is_negative, int_eq, eq_of_int_eq, Text, codes, text_eq,
  eq_of_text_eq, text_eq_refl, text_eq_iff, text_eq_swap,
}
use rehydrator.Base.Strings.{trim_space}
use rehydrator.Model.Types.{
  TorrentMetadata, SourceKind, nzb_file, torrent_file, magnet_link, unresolved, recovery_required,
  unset, other,
}
use rehydrator.Model.InfoHash.{download_key, normalize_info_hash}
use rehydrator.Model.Source.{Checked, valid, recovery, rejected, Url, Token, validate_source}
use rehydrator.Db.Rows.{update, select_by}
pub mod Kept
pub mod Captured
pub mod Links
pub mod Settled
pub mod Tests

-- the primary key of the table; the owner is an ID of Radarr or Sonarr
pub record GrabKey : Type 0 where
  pub tenant : Text
  pub arr : Text
  pub owner_id : ℤ
  pub download_id : Text

pub record GrabSource : Type 0 where
  pub key : GrabKey
  pub torrent : TorrentMetadata

-- a row; its source has no origin and no download ID of its own
pub record GrabRow : Type 0 where
  pub key : GrabKey
  pub torrent : TorrentMetadata
  pub ready : Bool
  pub imported_paths : List Text
  pub imported_at : Option ℕ
  pub created_at : ℕ
  pub next_retry_at : ℕ
  pub last_error : Option Text

abbrev pub same_key : GrabKey → GrabKey → Bool
same_key k l =
    text_eq k.tenant l.tenant
    && text_eq k.arr l.arr
    && int_eq k.owner_id l.owner_id
    && text_eq k.download_id l.download_id

abbrev pub of_grab : GrabKey → GrabRow → Bool
of_grab k r = same_key k r.key

-- g.DownloadID = model.DownloadKey(g.DownloadID)
unfoldable pub normal_key : GrabKey → GrabKey
unfolding download_key
normal_key k = record k { download_id = download_key k.download_id }

-- WHERE tenant=… AND arr=… AND owner_id=… AND download_id=… AND NOT ready
abbrev pub is_open : GrabKey → GrabRow → Bool
is_open k r = of_grab k r && not r.ready

-- ck_grab_source_payload for a torrent
abbrev pub is_torrent_payload : Bool → TorrentMetadata → SourceKind → Bool
is_torrent_payload false t torrent_file = true
is_torrent_payload false t magnet_link = true
is_torrent_payload false t unresolved = true
is_torrent_payload false t recovery_required = true
is_torrent_payload true t torrent_file =
    not (text_eq t.torrent [])
    && text_eq t.magnet []
    && text_eq t.torrent_url []
    && not (text_eq t.torrent_filename [])
is_torrent_payload true t magnet_link =
    text_eq t.torrent []
    && not (text_eq t.magnet [])
    && text_eq t.torrent_url []
    && text_eq t.torrent_filename []
is_torrent_payload _ t _ = false

-- ck_grab_source_payload for an NZB
abbrev pub is_nzb_payload : Bool → TorrentMetadata → SourceKind → Bool
is_nzb_payload false t unresolved = true
is_nzb_payload false t recovery_required = true
is_nzb_payload false t nzb_file = true
is_nzb_payload true t nzb_file =
    text_eq t.torrent_url []
    && not (text_eq t.nzb [])
    && leb (length t.nzb) 52428800
    && not (text_eq t.nzb_filename [])
is_nzb_payload _ t _ = false

abbrev pub is_payload : Bool → TorrentMetadata → Bool
is_payload ready t =
    (text_eq t.protocol (codes "torrent")
      && text_eq t.nzb []
      && text_eq t.nzb_filename []
      && is_torrent_payload ready t t.kind)
    || (text_eq t.protocol (codes "usenet")
        && text_eq t.info_hash []
        && text_eq t.torrent []
        && text_eq t.torrent_filename []
        && text_eq t.magnet []
        && is_nzb_payload ready t t.kind)

-- the checks of the table
unfoldable pub is_valid_row : GrabRow → Bool
is_valid_row r =
    (text_eq r.key.arr (codes "radarr") || text_eq r.key.arr (codes "sonarr"))
    && is_positive r.key.owner_id
    && leb (length r.torrent.torrent) 52428800
    && is_payload r.ready r.torrent

-- a statement ends with an error, and changes nothing, if a row violates a check
unfoldable pub checked_rows : List GrabRow → Option (List GrabRow)
checked_rows rows = if all is_valid_row rows then some rows else none

-- the defaults of the columns
abbrev pub no_source : TorrentMetadata
no_source = record {
  protocol = codes "torrent";
  nzb = [];
  nzb_filename = [];
  kind = unresolved;
  torrent = [];
  torrent_filename = [];
  info_hash = [];
  magnet = [];
  torrent_url = [];
  source = [];
  source_title = [];
  download_id = [];
}

abbrev pub new_grab : ℕ → GrabKey → TorrentMetadata → GrabRow
new_grab now k t = record {
  key = k;
  torrent = t;
  ready = false;
  imported_paths = [];
  imported_at = none;
  created_at = now;
  next_retry_at = now;
  last_error = none;
}

-- if g.Torrent.Protocol == "" { … }
abbrev pub protocol_or : Text → Text
protocol_or p = if text_eq p [] then codes "torrent" else p

-- COALESCE(NULLIF(x, ''), y)
abbrev pub text_or : Text → Text → Text
text_or x y = if text_eq x [] then y else x

-- the columns that the INSERT of QueueGrabSource gives
abbrev pub queued_source : TorrentMetadata → TorrentMetadata
queued_source t = record no_source {
  protocol = protocol_or t.protocol;
  info_hash = t.info_hash;
  magnet = t.magnet;
  torrent_url = t.torrent_url;
  source_title = t.source_title;
}

-- DO UPDATE SET … of QueueGrabSource
abbrev pub merge_source : TorrentMetadata → TorrentMetadata → TorrentMetadata
merge_source t r = record r {
  protocol = protocol_or t.protocol;
  torrent_url = if text_eq t.magnet [] then text_or t.torrent_url r.torrent_url else [];
  magnet = if text_eq t.torrent_url [] then text_or t.magnet r.magnet else [];
  kind = if text_eq t.torrent_url [] && text_eq t.magnet [] then r.kind else unresolved;
  info_hash = text_or t.info_hash r.info_hash;
  source_title = text_or t.source_title r.source_title;
}

-- result.RowsAffected() > 0
abbrev pub affected : Bool → Option (List GrabRow) → Option (List GrabRow × Bool)
affected any_row none = none
affected any_row (some rows) = some (rows, any_row)

-- QueueGrabSource: the table, and whether a row was affected
unfoldable pub queue_grab_source : ℕ → GrabSource → List GrabRow → Option (List GrabRow × Bool)
unfolding update normal_key checked_rows
queue_grab_source now g rows =
    let k = normal_key g.key in
    if any (of_grab k) rows
    then affected (any (is_open k) rows) (
        checked_rows
          (update (is_open k) (λ r. record r { torrent = merge_source g.torrent r.torrent }) rows))
    else affected true (checked_rows (rows ++ (new_grab now k (queued_source g.torrent) ∷ [])))

-- the columns that CompleteGrabSource sets
abbrev pub capture : TorrentMetadata → GrabRow → GrabRow
capture t r = record r {
  torrent = record t { torrent_url = []; source = []; download_id = [] };
  ready = true;
  last_error = none;
}

abbrev pub complete_checked :
    GrabKey → List GrabRow → Checked TorrentMetadata → Option (List GrabRow)
complete_checked k rows (valid t) = checked_rows (update (is_open k) (capture t) rows)
complete_checked k rows recovery = none
complete_checked k rows rejected = none

-- CompleteGrabSource
unfoldable pub complete_grab_source :
    (Text → Text)
    → (Text → Option Url)
    → (Text → List Token × Bool)
    → GrabSource
    → List GrabRow
    → Option (List GrabRow)
unfolding update normal_key checked_rows validate_source
complete_grab_source sha1_hex parse_url read_xml g rows =
    complete_checked (normal_key g.key) rows (validate_source sha1_hex parse_url read_xml g.torrent)

-- RetryGrabSource
unfoldable pub retry_grab_source : ℕ → GrabKey → Text → List GrabRow → List GrabRow
unfolding update normal_key
retry_grab_source now key reason =
    update (is_open (normal_key key))
      (λ r. record r { next_retry_at = now + 60; last_error = some reason })

abbrev pub is_pending : ℕ → Text → GrabRow → Bool
is_pending now tenant r = text_eq r.key.tenant tenant && not r.ready && leb r.next_retry_at now

-- the columns that PendingGrabSources reads
abbrev pub as_pending : GrabRow → GrabSource
as_pending r = record {
  key = r.key;
  torrent = record no_source {
    protocol = r.torrent.protocol;
    kind = r.torrent.kind;
    info_hash = r.torrent.info_hash;
    magnet = r.torrent.magnet;
    torrent_url = r.torrent.torrent_url;
    source_title = r.torrent.source_title;
  };
}

-- PendingGrabSources
unfoldable pub pending_grab_sources : ℕ → Text → List GrabRow → List GrabSource
unfolding select_by
pending_grab_sources now tenant rows =
    map as_pending
      (select_by (λ r s. ltb r.next_retry_at s.next_retry_at) (is_pending now tenant) 5 rows)

-- SELECT DISTINCT of the paths with one more; the order of the array is not relied on
abbrev pub add_path : Text → List Text → List Text
add_path path ps = if any (text_eq path) ps then ps else ps ++ (path ∷ [])

abbrev pub note_import : ℕ → Text → GrabRow → GrabRow
note_import now path r = record r {
  imported_paths = add_path path r.imported_paths;
  imported_at = some now;
}

-- RecordGrabImport
unfoldable pub record_grab_import : ℕ → GrabKey → Text → List GrabRow → Option (List GrabRow)
unfolding update normal_key checked_rows trim_space
record_grab_import now key path rows =
    let k = normal_key key in
    if text_eq (trim_space path) []
    then some rows
    else if any (of_grab k) rows
    then checked_rows (update (of_grab k) (note_import now path) rows)
    else checked_rows (rows ++ (note_import now path (new_grab now k no_source) ∷ []))
