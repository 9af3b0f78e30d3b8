-- ===== src/Model/Types.antt =====
-- The types of internal/model that the gateway uses. A string type with named constants is a data
-- type with a constructor for each; a `[]byte` is a list of bytes, nil and empty being the same.
use rehydrator.Base.{Text, Bool, true, false}

-- ProtocolTorrent, ProtocolUsenet
pub data Protocol : Type 0 where
  torrent usenet : Protocol

abbrev pub is_torrent : Protocol → Bool
is_torrent torrent = true
is_torrent usenet = false

-- `unset` is the empty string, `other` any string that is no named constant.
pub data SourceKind : Type 0 where
  nzb_file torrent_file magnet_link unresolved recovery_required unset : SourceKind
  other : Text → SourceKind

-- The fields of `TorrentMetadata` that the code of the gateway reads or writes. A protocol is a
-- string there, and may be empty or unknown.
pub record TorrentMetadata : Type 0 where
  pub protocol : Text
  pub nzb : Text
  pub nzb_filename : Text
  pub kind : SourceKind
  pub torrent : Text
  pub torrent_filename : Text
  pub info_hash : Text
  pub magnet : Text
  pub torrent_url : Text
  pub source : Text
  pub source_title : Text
  pub download_id : Text
