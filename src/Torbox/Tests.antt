-- ===== src/Torbox/Tests.antt =====
-- The theorems and definitions on the provider's answers, at concrete inputs.
use rehydrator.Torbox.Listing.{
  get, read_page, after_page, is_active, unavailable, Entry, Page, entries, States, availability,
  find_active,
}
use rehydrator.Torbox.Listing.Complete.{Rests, unavailable_lem}
use rehydrator.Base.{
  ℕ, zero, suc, ◌≡◌, refl, true, false, none, some, List, [], ◌∷◌, String, All, pos, Text, codes,
}
use rehydrator.Base.Strings.{has_prefix, to_lower, trim_space, contains, trim_prefix}
use rehydrator.Base.Paths.{clean, dot}
use rehydrator.Torbox.Types.{UsenetFile, UsenetDownload}
use rehydrator.Torbox.Failure.{
  failure_message, ready, disk_message, failed_message, reported_state, is_terminal, explain,
  fails_as,
}
use rehydrator.Torbox.Catalog.{validate_files, is_bad_file, has_forbidden}
use rehydrator.Torbox.Catalog.Safe.{IsSafeFile, Distinct, validate_files_safe}

abbrev two_files : List UsenetFile
two_files =
    record { id = pos 1; name = codes "a/b.mkv"; size = pos 5 }
    ∷ record { id = pos 2; name = codes "c.srt"; size = pos 1 }
    ∷ []

two_files_valid : validate_files two_files ≡ true
unfolding validate_files is_bad_file has_prefix has_forbidden clean
two_files_valid = refl

validate_files_safe_example : All IsSafeFile two_files × Distinct two_files
validate_files_safe_example = validate_files_safe two_files two_files_valid

climbing_refused :
    validate_files (record { id = pos 1; name = codes "../x"; size = pos 5 } ∷ []) ≡ false
unfolding validate_files is_bad_file has_prefix has_forbidden clean
climbing_refused = refl

-- A file named `.` is accepted.
dot_accepted : validate_files (record { id = pos 1; name = dot; size = pos 5 } ∷ []) ≡ true
unfolding validate_files is_bad_file has_prefix has_forbidden clean
dot_accepted = refl

abbrev download_in : String → UsenetDownload
download_in state = record {
  raw_state = [];
  finished = none;
  cached = none;
  id = pos 7;
  name = codes "release";
  state = codes state;
  present = some true;
  files = two_files;
}

failure_runs : failure_message (download_in " Failed (CRC)") ≡ some failed_message
unfolding failure_message reported_state is_terminal explain fails_as to_lower trim_space contains
    has_prefix trim_prefix
failure_runs = refl

failure_disk : failure_message (download_in "failed - disk full") ≡ some disk_message
unfolding failure_message reported_state is_terminal explain fails_as to_lower trim_space contains
    has_prefix trim_prefix
failure_disk = refl

not_a_failure : failure_message (download_in "failed_over") ≡ none
unfolding failure_message reported_state is_terminal explain fails_as to_lower trim_space contains
    has_prefix trim_prefix
not_a_failure = refl

ready_runs : ready (download_in "Cached") ≡ true
unfolding ready failure_message reported_state is_terminal explain fails_as to_lower trim_space
    contains has_prefix trim_prefix
ready_runs = refl

abbrev a_hash : Text
a_hash = codes "0123456789abcdef0123456789abcdef01234567"

abbrev gone_entry : Entry
gone_entry = record {
  id = pos 7;
  hash = codes " 0123456789ABCDEF0123456789ABCDEF01234567";
  present = some false;
  state = codes "Expired";
}

abbrev active_entry : Entry
active_entry = record (gone_entry) { id = pos 8; state = codes "Downloading" }

-- two pages, the second one empty
abbrev listing : Entry → ℕ → ℕ → Page
listing e zero offset = entries (e ∷ [])
listing e (suc page) offset = entries []

abbrev gone_found : States
gone_found =
    (
      a_hash,
      record { status = unavailable; reason = codes "download_not_present"; torrent_id = pos 7 },
    )
    ∷ []

gone_listed : availability false (listing gone_entry) (a_hash ∷ []) ≡ some gone_found
unfolding availability read_page after_page is_active
gone_listed = refl

-- a running download is adopted on sight
active_adopted : find_active (listing active_entry) a_hash ≡ some (pos 8)
unfolding find_active read_page after_page is_active
active_adopted = refl

-- without an empty page nothing is known
endless : find_active (λ page offset. entries (gone_entry ∷ [])) a_hash ≡ none
unfolding find_active read_page after_page is_active
endless = refl

unavailable_lem_example : Rests (listing gone_entry) a_hash 0 0
unfolding get
unavailable_lem_example =
    unavailable_lem false (listing gone_entry) (a_hash ∷ []) a_hash gone_found gone_listed refl
