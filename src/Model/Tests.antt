-- ===== src/Model/Tests.antt =====
-- The sources' theorems and definitions at concrete inputs.
use rehydrator.Base.{◌≡◌, refl, Bool, true, Option, some, List, [], ◌∷◌, ◌++◌, arith, Text, codes}
use rehydrator.Model.Types.{TorrentMetadata, magnet_link, nzb_file}
use rehydrator.Base.Strings.{equal_fold}
use rehydrator.Model.Source.{
  validate_magnet, valid, Url, Token, start, end, chars, validate_source, validate_nzb, btih,
  download_protocol,
}
use rehydrator.Model.Source.Again.{validate_source_again}
use rehydrator.Model.Bencode.{
  ok, bad, skip, torrent_file_info_hash, torrent_info, info_loop, read_string, keep_info, digits,
  after_digits, value, skip_items, skip_int, read_body, validate_gateway_torrent, find_info,
  check_info, check_entry,
}
use rehydrator.Model.Bencode.Grammar.{
  IsString, Value, string, list, dictionary, no_items, item, no_entries,
}
use rehydrator.Model.Bencode.Fuel.{Shrinks, skip-Shrinks}
use rehydrator.Model.Bencode.Complete.{skip_lem}
use rehydrator.Model.Bencode.Metainfo.{Field, infos}
use rehydrator.Model.Bencode.Accepted.{IsMetainfo, torrent_file_info_hash_lem}
use rehydrator.Base.{◌↔◌}

IsString-spam : IsString (codes "spam") (codes "4:spam")
unfolding value
IsString-spam = record {
  size = codes "4";
  size_digits = (refl, tt);
  size_some = refl;
  size_value = refl;
  in_range = omega arith;
  shape = refl;
}

list_spam : Value 1 (codes "l4:spame")
list_spam =
    list (codes "4:spam")
      (item (codes "4:spam") [] (string (codes "spam") IsString-spam) (no_items refl) refl) refl

skip_lem_example : skip 40 0 (codes "l4:spame" ++ codes "rest") ≡ ok (codes "rest")
skip_lem_example =
    skip_lem 0 1 (codes "l4:spame") (codes "rest") 40 list_spam (omega arith) (omega arith)

skip-Shrinks_example : Shrinks 2 (skip 6 0 (codes "le"))
skip-Shrinks_example = skip-Shrinks 6 0 (codes "le") (omega arith)

-- negative zero and leading zeros are let through
skip_lenient : skip 20 0 (codes "i-007e1") ≡ ok (codes "1")
unfolding skip skip_int digits after_digits
skip_lenient = refl

skip_truncated : skip 20 0 (codes "5:spam") ≡ bad
unfolding skip read_string digits after_digits read_body value
skip_truncated = refl

abbrev key_info : Field
key_info = record {
  key = codes "info";
  key_text = codes "4:info";
  value = codes "de";
  key_string = record {
    size = codes "4";
    size_digits = (refl, tt);
    size_some = refl;
    size_value = unfold value in refl;
    in_range = omega arith;
    shape = refl;
  };
  value_valid = dictionary [] (no_entries refl) refl;
}

torrent_file_info_hash_lem_example :
    (torrent_file_info_hash (λ s. s) (codes "d4:infodee") ≡ ok (codes "de"))
    ↔ ((info : Text) × IsMetainfo (codes "d4:infodee") info × (codes "de" ≡ info))
torrent_file_info_hash_lem_example =
    torrent_file_info_hash_lem (λ s. s) (codes "d4:infodee") (codes "de")

infos_of_key : infos (key_info ∷ []) ≡ codes "de" ∷ []
unfolding infos
infos_of_key = refl

-- the info dictionary is taken as it stands in the file
hash_runs : torrent_file_info_hash (λ s. s) (codes "d4:infod1:ai1eee") ≡ ok (codes "d1:ai1ee")
unfolding torrent_file_info_hash torrent_info info_loop read_string skip skip_items skip_int
    keep_info digits after_digits value read_body
hash_runs = refl

hash_missing : torrent_file_info_hash (λ s. s) (codes "d1:ai1ee") ≡ bad
unfolding torrent_file_info_hash torrent_info info_loop read_string skip skip_items skip_int
    keep_info digits after_digits value read_body
hash_missing = refl

v2_refused : validate_gateway_torrent (codes "d4:infod12:meta versioni2eee") ≡ bad
unfolding validate_gateway_torrent find_info check_info check_entry torrent_info info_loop
    read_string skip skip_items skip_int keep_info digits after_digits value read_body
v2_refused = refl

v1_accepted : validate_gateway_torrent (codes "d4:infod6:pieces20:aaaaaaaaaabbbbbbbbbbee") ≡ ok tt
unfolding validate_gateway_torrent find_info check_info check_entry torrent_info info_loop
    read_string skip skip_items skip_int keep_info digits after_digits value read_body
v1_accepted = refl

abbrev a_hash : Text
a_hash = codes "0123456789abcdef0123456789abcdef01234567"

abbrev a_magnet : Text
a_magnet = codes "magnet:?xt=urn:btih:0123456789ABCDEF0123456789ABCDEF01234567"

-- a magnet with an untrimmed link and no hash
abbrev saved : TorrentMetadata
saved = record {
  protocol = [];
  nzb = [];
  nzb_filename = [];
  kind = magnet_link;
  torrent = [];
  torrent_filename = [];
  info_hash = [];
  magnet = codes " " ++ a_magnet;
  torrent_url = [];
  source = [];
  source_title = codes "title";
  download_id = [];
}

abbrev accepted : TorrentMetadata
accepted = record (saved) { protocol = codes "torrent"; magnet = a_magnet; info_hash = a_hash }

abbrev parse : Text → Option Url
parse s = some (record {
  scheme = codes "magnet";
  xt = codes "urn:btih:0123456789ABCDEF0123456789ABCDEF01234567" ∷ [];
})

-- the tokens of a minimal NZB
abbrev tokens : Text → List Token × Bool
tokens s = (
  start (codes "nzb")
      ∷ start (codes "file")
      ∷ start (codes "segments")
      ∷ start (codes "segment")
      ∷ chars (codes "id@host")
      ∷ end
      ∷ end
      ∷ end
      ∷ end
      ∷ [],
  true,
)

saved-accepted : validate_source (λ s. a_hash) parse tokens saved ≡ valid accepted
unfolding validate_source validate_magnet equal_fold btih
saved-accepted = refl

nzb_accepted :
    validate_nzb tokens (record (saved) { kind = nzb_file; nzb = codes "x"; magnet = [] })
    ≡ valid (record (saved) {
      protocol = codes "usenet";
      kind = nzb_file;
      nzb = codes "x";
      nzb_filename = codes "download.nzb";
      magnet = [];
    })
unfolding validate_nzb
nzb_accepted = refl

client_protocol : download_protocol (codes "unknown") (codes "SABnzbd") ≡ codes "usenet"
unfolding download_protocol
client_protocol = refl

validate_source_again_example : validate_source (λ s. a_hash) parse tokens accepted ≡ valid accepted
validate_source_again_example =
    validate_source_again (λ s. a_hash) parse tokens saved accepted (λ s. refl) saved-accepted
