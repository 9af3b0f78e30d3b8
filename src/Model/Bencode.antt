-- ===== src/Model/Bencode.antt =====
-- internal/model/torrent_file.go: the bencode reader, the infohash of a torrent file, and the check
-- of v1 metainfo. The reader's position is the rest of the data, `data[pos:]`.
use rehydrator.Base.{
  ℕ, is_some, zero, suc, ◌+◌, ◌-◌, ◌*◌, ◌%◌, ◌≤◌, ◌<◌, min, ◌≡◌, refl, sym, ap, ◌∙◌, subst, ◌≢◌,
  ◌↔◌, ◌⊎◌, inl, inr, Bool, true, false, not, ◌&&◌, ◌||◌, Option, none, some, List, [], ◌∷◌, ◌++◌,
  map, append-nil, append_assoc, arith, ltb, leb, ◌==◌, if◌then◌else◌, ==_iff, ==_refl, leb→le,
  le→leb, lt→ltb, Bool-cases, Option-cases, &&-eq-true, ||-eq-false, length, take, drop, all, any,
  length-append, length-drop, take-append, drop-append, All, All-append, ℤ, pos, negsuc,
  is_negative, int_eq, eq_of_int_eq, Text, codes, text_eq, eq_of_text_eq, text_eq_refl, text_eq_iff,
  text_eq_swap,
}
pub mod Grammar
pub mod Fuel
pub mod Complete
pub mod Lexemes
pub mod Sound
pub mod Metainfo
pub mod Accepted

-- `out_of_fuel` is no result of the code: `Fuel` shows that it does not occur.
pub data Scan {ℓ} (A : Type ℓ) : Type ℓ where
  ok : A → Scan A
  bad : Scan A
  out_of_fuel : Scan A

infixl 5 ◌>>=◌
abbrev pub ◌>>=◌ {ℓ κ} : {A : Type ℓ} {B : Type κ} → Scan A → (A → Scan B) → Scan B
ok a >>= f = f a
bad >>= f = bad
out_of_fuel >>= f = out_of_fuel

abbrev pub is_digit : ℕ → Bool
is_digit c = leb b'0' c && leb c b'9'

-- the digits in front of a text
unfoldable pub digits : Text → Text
digits [] = []
digits (c ∷ s) = if is_digit c then c ∷ digits s else []

unfoldable pub after_digits : Text → Text
after_digits [] = []
after_digits (c ∷ s) = if is_digit c then after_digits s else c ∷ s

abbrev pub value_from : ℕ → Text → ℕ
value_from n [] = n
value_from n (c ∷ s) = value_from (n * 10 + (c - b'0')) s

-- the number of some digits
unfoldable pub value : Text → ℕ
value = value_from 0

-- above this strconv.Atoi reports a range error
abbrev pub max_int : ℕ
max_int = 9223372036854775807

-- what follows the digits of a string, and the number that they stand for
unfoldable pub read_body : ℕ → Text → Scan (Text × Text)
read_body size [] = bad
read_body size (c ∷ s) =
    if not (c == b':')
    then bad
    else if ltb max_int size || ltb (length s) size
    then bad
    else ok (take size s, drop size s)

-- readString: the string, and what follows it
unfoldable pub read_string : Text → Scan (Text × Text)
unfolding digits after_digits value read_body
read_string s = if text_eq (digits s) [] then bad else read_body (value (digits s)) (after_digits s)

abbrev pub skip_sign : Text → Text
skip_sign [] = []
skip_sign (c ∷ s) = if c == b'-' then s else c ∷ s

abbrev pub expect_end : Text → Scan Text
expect_end [] = bad
expect_end (c ∷ s) = if c == b'e' then ok s else bad

-- the case 'i' of `skip`, after the letter
unfoldable pub skip_int : Text → Scan Text
unfolding digits after_digits
skip_int s =
    if text_eq (digits (skip_sign s)) [] then bad else expect_end (after_digits (skip_sign s))

abbrev pub max_depth : ℕ
max_depth = 100

-- `skip`, and the loop over the items of a container, from the first item on
unfoldable mutual
  pub skip : ℕ → ℕ → Text → Scan Text
  skip zero depth s = out_of_fuel
  skip (suc f) depth [] = bad
  skip (suc f) depth (c ∷ s) =
      let dictionary = skip_items f true depth s in
      let list = skip_items f false depth s in
      if ltb max_depth depth
      then bad
      else if c == b'd'
      then dictionary
      else if c == b'l'
      then list
      else if c == b'i'
      then skip_int s
      else (read_string (c ∷ s) >>= λ (v, rest). ok rest)

  pub skip_items : ℕ → Bool → ℕ → Text → Scan Text
  skip_items zero dictionary depth s = out_of_fuel
  skip_items (suc f) dictionary depth [] = bad
  skip_items (suc f) dictionary depth (c ∷ s) =
      let keyed = read_string (c ∷ s) >>= λ (key, rest).
      skip f (depth + 1) rest >>= λ r. skip_items f dictionary depth r in
      let plain = skip f (depth + 1) (c ∷ s) >>= λ r. skip_items f dictionary depth r in
      if c == b'e' then ok s else if dictionary then keyed else plain

-- enough for any text: see `Fuel`
abbrev pub fuel_for : Text → ℕ
fuel_for s = 2 * length s + 2

abbrev pub starts_with_d : Text → Bool
starts_with_d [] = false
starts_with_d (c ∷ s) = c == b'd'

-- the entry that was read, `value` being data[start:p.pos]
unfoldable pub keep_info : Text → Text → Option Text → Scan (Option Text)
keep_info key value info =
    if not (text_eq key (codes "info"))
    then ok info
    else if is_some info || not (starts_with_d value)
    then bad
    else ok (some value)

-- after the loop: nothing may follow the closing `e`, and `info` was found
abbrev pub closed : Option Text → Text → Scan Text
closed none s = bad
closed (some info) [] = ok info
closed (some info) (c ∷ s) = bad

abbrev pub consumed : Text → Text → Text
consumed start rest = take (length start - length rest) start

-- the loop of TorrentFileInfoHash; what it returns is hashed
unfoldable pub info_loop : ℕ → Option Text → Text → Scan Text
info_loop zero info s = out_of_fuel
info_loop (suc f) info [] = bad
info_loop (suc f) info (c ∷ s) =
    let more = read_string (c ∷ s) >>= λ (key, start). skip (fuel_for start) 0 start >>= λ rest.
    keep_info key (consumed start rest) info >>= λ info'. info_loop f info' rest in
    if c == b'e' then closed info s else more

-- the original bytes of the info dictionary
unfoldable pub torrent_info : Text → Scan Text
torrent_info [] = bad
torrent_info (c ∷ s) =
    if ltb (length s) 1 || not (c == b'd') then bad else info_loop (suc (length s)) none s

-- TorrentFileInfoHash; `sha1_hex` is the hex digest of crypto/sha1
unfoldable pub torrent_file_info_hash : (Text → Text) → Text → Scan Text
torrent_file_info_hash sha1_hex s = torrent_info s >>= λ info. ok (sha1_hex info)

-- one entry of the info dictionary in ValidateGatewayTorrent: are there pieces so far?
unfoldable pub check_entry : Text → Text → Bool → Scan (Bool × Text)
check_entry key start pieces =
    if text_eq key (codes "meta version")
    then bad
    else if text_eq key (codes "pieces")
    then (read_string start >>= λ (v, rest).
        if length v == 0 || not (length v % 20 == 0) then bad else ok (true, rest))
    else (skip (fuel_for start) 0 start >>= λ rest. ok (pieces, rest))

unfoldable pub check_info : ℕ → Bool → Text → Scan Bool
check_info zero pieces s = out_of_fuel
check_info (suc f) pieces [] = ok pieces
check_info (suc f) pieces (c ∷ s) =
    let more = read_string (c ∷ s) >>= λ (key, start).
    check_entry key start pieces >>= λ (p, rest). check_info f p rest in
    if c == b'e' then ok pieces else more

abbrev pub require_pieces : Bool → Scan (Unit {0})
require_pieces true = ok tt
require_pieces false = bad

unfoldable pub find_info : ℕ → Text → Scan (Unit {0})
find_info zero s = out_of_fuel
find_info (suc f) [] = bad
find_info (suc f) (c ∷ s) =
    let more = read_string (c ∷ s) >>= λ (key, start).
    if text_eq key (codes "info")
    then (check_info (suc (length start)) false (drop 1 start) >>= require_pieces)
    else (skip (fuel_for start) 0 start >>= λ rest. find_info f rest) in
    if c == b'e' then bad else more

-- ValidateGatewayTorrent
unfoldable pub validate_gateway_torrent : Text → Scan (Unit {0})
validate_gateway_torrent s = torrent_info s >>= λ _. find_info (suc (length s)) (drop 1 s)
