-- ===== src/Model/Source.antt =====
-- `ValidateSource` and `ResolveMagnet` of internal/model/torrent.go, `validateNZB` and
-- `DownloadProtocol` of internal/model/nzb.go. What the code calls of other packages is a parameter:
-- `sha1_hex` is the hex digest of SHA-1, `parse_url` is url.Parse with the scheme and the values of
-- the query key `xt`, and `read_xml` lists the tokens of an xml.Decoder, with whether the input
-- ended without an error.
use rehydrator.Base.{
  ℕ, is_some, zero, suc, ◌+◌, ◌-◌, ◌*◌, ◌%◌, ◌≤◌, ◌<◌, min, ◌≡◌, refl, sym, ap, ◌∙◌, subst, ◌≢◌,
  ◌↔◌, ◌⊎◌, inl, inr, Bool, true, false, not, ◌&&◌, ◌||◌, Option, none, some, List, [], ◌∷◌, ◌++◌,
  map, append-nil, append_assoc, arith, ltb, leb, ◌==◌, if◌then◌else◌, ==_iff, ==_refl, leb→le,
  le→leb, lt→ltb, Bool-cases, Option-cases, &&-eq-true, ||-eq-false, length, take, drop, all, any,
  length-append, length-drop, take-append, String, drop-append, All, All-append, ℤ, pos, negsuc,
  is_negative, int_eq, eq_of_int_eq, Text, codes, text_eq, eq_of_text_eq, text_eq_refl, text_eq_iff,
  text_eq_swap,
}
use rehydrator.Base.Strings.{drop_bytes, to_lower, trim_space, equal_fold, has_prefix}
use rehydrator.Model.Types.{
  SourceKind, nzb_file, torrent_file, magnet_link, unresolved, recovery_required, unset, other,
  TorrentMetadata,
}
use rehydrator.Model.InfoHash.{is_hash}
use rehydrator.Model.Bencode.{Scan, ok, bad, out_of_fuel, torrent_file_info_hash}
pub mod Parts
pub mod Again

-- A result, ErrSourceRecoveryRequired, or any other error.
pub data Checked {ℓ} (A : Type ℓ) : Type ℓ where
  valid : A → Checked A
  recovery : Checked A
  rejected : Checked A

pub record Url : Type 0 where
  pub scheme : Text
  pub xt : List Text

-- the tokens that the code tells apart
pub data Token : Type 0 where
  start : Text → Token
  end : Token
  chars : Text → Token

abbrev pub blank : Text → Bool
blank s = text_eq (trim_space s) []

-- DownloadProtocol: the empty text is no known protocol
unfoldable pub download_protocol : Text → Text → Text
unfolding to_lower trim_space
download_protocol protocol client =
    let p = to_lower (trim_space protocol) in
    let c = to_lower client in
    if text_eq p (codes "usenet") || text_eq p (codes "nzb") || text_eq p (codes "1")
    then codes "usenet"
    else if text_eq p (codes "torrent") || text_eq p (codes "2")
    then codes "torrent"
    else if text_eq c (codes "sabnzbd") || text_eq c (codes "nzbget")
    then codes "usenet"
    else []

-- the open elements, the innermost one first
abbrev pub in_segment : List Text → Bool
in_segment (d ∷ c ∷ b ∷ a ∷ []) =
    text_eq a (codes "nzb")
    && text_eq b (codes "file")
    && text_eq c (codes "segments")
    && text_eq d (codes "segment")
in_segment _ = false

-- The loop over the tokens: the root that was seen and the number of segments, or an error.
unfoldable pub walk : Bool → List Text → ℕ → List Token → Option (Bool × ℕ)
unfolding trim_space
walk root stack segments [] = some (root, segments)
walk root [] segments (start name ∷ ts) =
    let rest = walk true (name ∷ []) segments ts in
    if root || not (text_eq name (codes "nzb")) then none else rest
walk root (top ∷ stack) segments (start name ∷ ts) = walk root (name ∷ top ∷ stack) segments ts
walk root stack segments (end ∷ ts) = walk root (drop 1 stack) segments ts
walk root stack segments (chars s ∷ ts) =
    walk root stack (if in_segment stack && not (blank s) then segments + 1 else segments) ts

abbrev pub has_segments : Option (Bool × ℕ) → Bool
has_segments none = false
has_segments (some (root, segments)) = root && ltb 0 segments

abbrev pub max_file : ℕ
max_file = 52428800

abbrev pub filename_or : Text → Text → Text
filename_or name default = if text_eq name [] then default else name

abbrev pub speaks : Text → Text → Bool
speaks protocol name = text_eq protocol [] || text_eq protocol name

-- the fields that an NZB must have and must not have
abbrev pub misfits_nzb : TorrentMetadata → Bool
misfits_nzb t =
    text_eq t.nzb []
    || ltb max_file (length t.nzb)
    || not (text_eq t.torrent [])
    || not (text_eq t.torrent_filename [])
    || not (text_eq t.magnet [])
    || not (text_eq t.info_hash [])
    || not (text_eq t.torrent_url [])

abbrev pub lists_segments : List Token × Bool → Bool
lists_segments (tokens, clean_end) = clean_end && has_segments (walk false [] 0 tokens)

abbrev pub stored_nzb : TorrentMetadata → TorrentMetadata
stored_nzb t = record t {
  protocol = codes "usenet";
  nzb_filename = filename_or t.nzb_filename (codes "download.nzb");
}

unfoldable pub validate_nzb : (Text → List Token × Bool) → TorrentMetadata → Checked TorrentMetadata
unfolding walk
validate_nzb read_xml t =
    if not (speaks t.protocol (codes "usenet"))
      || misfits_nzb t
      || not (lists_segments (read_xml t.nzb))
    then rejected
    else valid (stored_nzb t)

-- the text behind the 9 bytes of the prefix of the first xt with it
unfoldable pub btih : List Text → Text
unfolding has_prefix to_lower drop_bytes
btih [] = []
btih (x ∷ xs) =
    if has_prefix (to_lower x) (codes "urn:btih:") then to_lower (drop_bytes 9 x) else btih xs

abbrev pub resolve_url : Text → Text → Option Url → Checked (Text × Text)
resolve_url magnet hash none = rejected
resolve_url magnet hash (some u) =
    if not (equal_fold u.scheme (codes "magnet"))
      || not (is_hash (btih u.xt))
      || not (text_eq hash [] || text_eq hash (btih u.xt))
    then rejected
    else valid (magnet, btih u.xt)

-- the magnet and its infohash
unfoldable pub resolve_magnet : (Text → Option Url) → Text → Text → Checked (Text × Text)
unfolding trim_space to_lower
resolve_magnet parse_url magnet hash =
    let m = trim_space magnet in
    let h = to_lower (trim_space hash) in
    if not (text_eq h [] || is_hash h)
    then rejected
    else if not (text_eq m [])
    then resolve_url m h (parse_url m)
    else if text_eq h []
    then rejected
    else recovery

abbrev pub stored_file : TorrentMetadata → Text → TorrentMetadata
stored_file t hash = record t {
  info_hash = hash;
  torrent_filename = filename_or t.torrent_filename (codes "download.torrent");
}

abbrev pub with_file_hash : TorrentMetadata → Scan Text → Checked TorrentMetadata
with_file_hash t (ok hash) =
    if not (text_eq t.info_hash [] || equal_fold (trim_space t.info_hash) hash)
    then rejected
    else valid (stored_file t hash)
with_file_hash t bad = rejected
with_file_hash t out_of_fuel = rejected

unfoldable pub validate_file : (Text → Text) → TorrentMetadata → Checked TorrentMetadata
unfolding torrent_file_info_hash
validate_file sha1_hex t =
    if text_eq t.torrent [] || not (text_eq t.magnet []) || ltb max_file (length t.torrent)
    then rejected
    else with_file_hash t (torrent_file_info_hash sha1_hex t.torrent)

abbrev pub with_magnet : TorrentMetadata → Checked (Text × Text) → Checked TorrentMetadata
with_magnet t (valid (magnet, hash)) = valid (record t { magnet = magnet; info_hash = hash })
with_magnet t recovery = recovery
with_magnet t rejected = rejected

unfoldable pub validate_magnet : (Text → Option Url) → TorrentMetadata → Checked TorrentMetadata
unfolding resolve_magnet
validate_magnet parse_url t =
    if not (text_eq t.torrent []) || not (text_eq t.torrent_filename [])
    then rejected
    else with_magnet t (resolve_magnet parse_url t.magnet t.info_hash)

abbrev pub validate_torrent :
    (Text → Text) → (Text → Option Url) → TorrentMetadata → SourceKind → Checked TorrentMetadata
validate_torrent sha1_hex parse_url t torrent_file = validate_file sha1_hex t
validate_torrent sha1_hex parse_url t magnet_link = validate_magnet parse_url t
validate_torrent sha1_hex parse_url t unresolved = recovery
validate_torrent sha1_hex parse_url t recovery_required = recovery
validate_torrent sha1_hex parse_url t unset = recovery
validate_torrent sha1_hex parse_url t nzb_file = rejected
validate_torrent sha1_hex parse_url t (other kind) = rejected

-- the fields that no torrent source may have
abbrev pub misfits_torrent : TorrentMetadata → Bool
misfits_torrent t =
    not (speaks t.protocol (codes "torrent"))
    || not (text_eq t.nzb [])
    || not (text_eq t.nzb_filename [])
    || not (blank t.torrent_url)

abbrev pub is_nzb : SourceKind → Bool
is_nzb nzb_file = true
is_nzb _ = false

unfoldable pub validate_source :
    (Text → Text)
    → (Text → Option Url)
    → (Text → List Token × Bool)
    → TorrentMetadata
    → Checked TorrentMetadata
unfolding validate_nzb trim_space
validate_source sha1_hex parse_url read_xml t =
    if is_nzb t.kind
    then validate_nzb read_xml t
    else if misfits_torrent t
    then rejected
    else validate_torrent sha1_hex parse_url (record t { protocol = codes "torrent" }) t.kind
