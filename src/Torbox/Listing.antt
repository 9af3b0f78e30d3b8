-- ===== src/Torbox/Listing.antt =====
-- `availability` and `LookupTorrent` of internal/torbox/health.go, and `FindActive` of
-- internal/torbox/torrent_gateway.go. The HTTP requests are an argument: `fetch page offset` is the
-- answer to the request number `page`, which asks for the entries from `offset` on.
use rehydrator.Base.{
  is_positive, ℕ, is_some, zero, suc, ◌+◌, ◌-◌, ◌*◌, ◌%◌, ◌≤◌, ◌<◌, min, ◌≡◌, refl, sym, ap, ◌∙◌,
  subst, ◌≢◌, ◌↔◌, ◌⊎◌, inl, inr, Bool, true, false, not, ◌&&◌, ◌||◌, Option, none, some, List, [],
  ◌∷◌, ◌++◌, map, append-nil, append_assoc, arith, ltb, leb, ◌==◌, if◌then◌else◌, ==_iff, ==_refl,
  leb→le, le→leb, lt→ltb, Bool-cases, Option-cases, &&-eq-true, ||-eq-false, length, take, drop,
  all, any, length-append, length-drop, take-append, String, drop-append, All, All-append, ℤ, pos,
  negsuc, is_negative, int_eq, eq_of_int_eq, Text, codes, text_eq, eq_of_text_eq, text_eq_refl,
  text_eq_iff, text_eq_swap,
}
pub mod Complete
use rehydrator.Base.Strings.{to_lower, trim_space}
use rehydrator.Model.InfoHash.{normalize_info_hash}

pub data Availability : Type 0 where
  available unavailable unknown : Availability

pub record Observation : Type 0 where
  pub status : Availability
  pub reason : Text
  pub torrent_id : ℤ

pub record Entry : Type 0 where
  pub id : ℤ
  pub hash : Text
  pub present : Option Bool
  pub state : Text

-- A request fails, or the answer cannot be used, or it lists entries.
pub data Page : Type 0 where
  unusable : Page
  entries : List Entry → Page

-- map[string]Observation
abbrev pub States : Type 0
States = List (Text × Observation)

unfoldable pub get : Text → States → Option Observation
get h [] = none
get h ((k, o) ∷ s) = if text_eq h k then some o else get h s

unfoldable pub put : Text → Observation → States → States
put h o [] = (h, o) ∷ []
put h o ((k, p) ∷ s) = let rest = put h o s in if text_eq h k then (k, o) ∷ s else (k, p) ∷ rest

-- the key under which an entry is looked up
unfoldable pub key_of : Entry → Text
unfolding to_lower trim_space
key_of e = to_lower (trim_space e.hash)

unfoldable pub is_active : Entry → Bool
unfolding to_lower
is_active e =
    any (λ s. text_eq (to_lower e.state) s)
      (codes "downloading"
        ∷ codes "metadl"
        ∷ codes "checkingresumedata"
        ∷ codes "queueddl"
        ∷ codes "stalleddl"
        ∷ codes "allocating"
        ∷ [])

abbrev pub is_available : Availability → Bool
is_available available = true
is_available _ = false

abbrev pub is_unavailable : Availability → Bool
is_unavailable unavailable = true
is_unavailable _ = false

abbrev pub active_download : Entry → Observation → Observation
active_download e o = if is_available o.status then o else record {
  status = unknown;
  reason = codes "incomplete_or_active_download";
  torrent_id = e.id;
}

-- the observation that replaces `o` when the entry is met
abbrev pub judge_present : Option Bool → Entry → Observation → Observation
judge_present none e o = active_download e o
judge_present (some true) e o = record {
  status = available;
  reason = codes "download_present";
  torrent_id = e.id;
}
judge_present (some false) e o =
    if is_active e
    then active_download e o
    else if is_unavailable o.status
    then record { status = unavailable; reason = codes "download_not_present"; torrent_id = e.id }
    else o

abbrev pub judge : Entry → Observation → Observation
judge e o = judge_present e.present e o

abbrev pub put_judged : Entry → Option Observation → States → States
put_judged e none s = s
put_judged e (some o) s = put (key_of e) (judge e o) s

unfoldable pub observe : Entry → States → States
unfolding get
observe e s = put_judged e (get (key_of e) s) s

-- the identifiers that were seen, the states, and the new identifiers of the page
pub record Progress : Type 0 where
  pub seen : List ℤ
  pub states : States
  pub fresh : ℕ

abbrev pub is_seen : ℤ → List ℤ → Bool
is_seen i = any (int_eq i)

unfoldable pub note : Entry → Progress → Progress
unfolding observe
note e p = record {
  seen = if is_seen e.id p.seen then p.seen else e.id ∷ p.seen;
  states = observe e p.states;
  fresh = if is_seen e.id p.seen then p.fresh else p.fresh + 1;
}

abbrev pub map_option {ℓ κ} : {A : Type ℓ} {B : Type κ} → (A → B) → Option A → Option B
map_option f none = none
map_option f (some a) = some (f a)

-- the entries of one page; an entry without identity or hash is an error
unfoldable pub absorb : List Entry → Progress → Option Progress
unfolding note normalize_info_hash key_of
absorb [] p = some p
absorb (e ∷ es) p =
    let rest = absorb es (note e p) in
    if is_positive e.id && is_some (normalize_info_hash (key_of e)) then rest else none

-- stopOnPositive: every wanted hash has a torrent
unfoldable pub is_matched : States → Bool
is_matched = all (λ (k, o). is_positive o.torrent_id && not (is_unavailable o.status))

-- an answer with its number of entries
unfoldable pub read_page : List ℤ → States → Page → Option (ℕ × Progress)
unfolding absorb
read_page seen states unusable = none
read_page seen states (entries es) =
    map_option (λ p. (length es, p))
      (absorb es (record { seen = seen; states = states; fresh = 0 }))

-- what follows a page: the result, an error, or the next page
unfoldable pub after_page : Bool → ℕ → Progress → Option States → Option States
unfolding is_matched
after_page stop size p rest =
    if stop && is_matched p.states
    then some p.states
    else if size == 0
    then some p.states
    else if p.fresh == 0
    then none
    else rest

abbrev pub for_page : Bool → Option (ℕ × Progress) → (ℕ → Progress → Option States) → Option States
for_page stop none more = none
for_page stop (some (size, p)) more = after_page stop size p (more size p)

-- The loop over the pages, `left` of 100. None of its errors is a result.
unfoldable pub list_pages : Bool → (ℕ → ℕ → Page) → ℕ → ℕ → ℕ → List ℤ → States → Option States
list_pages stop fetch zero page offset seen states = none
list_pages stop fetch (suc left) page offset seen states =
    for_page stop (read_page seen states (fetch page offset))
      (λ size p. list_pages stop fetch left (page + 1) (offset + size) p.seen p.states)

-- the wanted hashes before any page
unfoldable pub wanted : List Text → States → Option States
unfolding put normalize_info_hash
wanted [] s = some s
wanted (h ∷ hs) s = elim (normalize_info_hash h) [
  | none ↦ none
  | some k ↦ wanted hs (
      put k (record { status = unavailable; reason = codes "not_in_account"; torrent_id = pos 0 })
        s)
]

abbrev pub list_wanted : Bool → (ℕ → ℕ → Page) → Option States → Option States
list_wanted stop fetch none = none
list_wanted stop fetch (some []) = some []
list_wanted stop fetch (some (w ∷ ws)) = list_pages stop fetch 100 0 0 [] (w ∷ ws)

-- `availability` with a key that is set
unfoldable pub availability : Bool → (ℕ → ℕ → Page) → List Text → Option States
unfolding wanted list_pages
availability stop fetch hashes = list_wanted stop fetch (wanted hashes [])

-- `LookupTorrent`: the hash is its only wanted key
abbrev pub observation_of : Text → Option States → Option Observation
observation_of h none = none
observation_of h (some s) = get h s

unfoldable pub lookup_torrent : (ℕ → ℕ → Page) → Text → Option Observation
unfolding normalize_info_hash availability get
lookup_torrent fetch hash = elim (normalize_info_hash hash) [
  | none ↦ none
  | some h ↦ observation_of h (availability true fetch (h ∷ []))
]

-- `FindActive`: 0 is no active torrent, an error is none
abbrev pub active_id : Observation → ℤ
active_id o = if is_unavailable o.status then pos 0 else o.torrent_id

unfoldable pub find_active : (ℕ → ℕ → Page) → Text → Option ℤ
unfolding lookup_torrent
find_active fetch hash = map_option active_id (lookup_torrent fetch hash)
