-- ===== src/Model/InfoHash.antt =====
-- `NormalizeInfoHash` of internal/model/torrent.go and `DownloadKey` of internal/model/nzb.go.
use rehydrator.Base.{
  ℕ, Bool, ◌&&◌, ◌||◌, Option, none, some, leb, ◌==◌, if◌then◌else◌, length, all, Text,
}
use rehydrator.Base.Strings.{to_lower, trim_space}

-- hex.DecodeString of 40 bytes succeeds exactly if all of them are hexadecimal digits
abbrev pub is_hex : ℕ → Bool
is_hex c = (leb b'0' c && leb c b'9') || (leb b'a' c && leb c b'f') || (leb b'A' c && leb c b'F')

abbrev pub is_hash : Text → Bool
is_hash s = length s == 40 && all is_hex s

unfoldable pub normalize_info_hash : Text → Option Text
unfolding to_lower trim_space
normalize_info_hash hash = let h = to_lower (trim_space hash) in if is_hash h then some h else none

abbrev pub or_id : Option Text → Text → Text
or_id none id = id
or_id (some hash) id = hash

unfoldable pub download_key : Text → Text
unfolding trim_space normalize_info_hash
download_key id = or_id (normalize_info_hash (trim_space id)) (trim_space id)
