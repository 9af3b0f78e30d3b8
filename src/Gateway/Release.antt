-- ===== src/Gateway/Release.antt =====
-- `releaseFolder` and `validReleaseFolder` of internal/gateway/release_folder.go. A job's name is a
-- list of runes; the limit of 180 is on the bytes of its UTF-8 encoding.
pub mod Valid
use rehydrator.Base.{
  ℕ, Text, codes, text_eq, ◌+◌, ◌-◌, Bool, true, false, not, ◌&&◌, ◌||◌, List, [], ◌∷◌, ltb, leb,
  length, take, if◌then◌else◌, ◌==◌, any,
}
use rehydrator.Base.Strings.{
  rune_len, byte_len, to_lower, trim_space, has_suffix, trim, trim_right, contains_rune, split,
}
use rehydrator.Base.Paths.{slash, dot, dotdot}
use rehydrator.Db.Jobs.{Job}

-- unicode.IsControl
abbrev pub is_control : ℕ → Bool
is_control r = ltb r 0x20 || (leb 0x7f r && ltb r 0xa0)

-- name[:len(name)-len(suffix)] if the lowered name has the suffix, which is of ASCII bytes
unfoldable pub cut_suffix : Text → Text
cut_suffix name =
    if has_suffix (to_lower name) (codes ".nzb")
    then take (length name - 4) name
    else if has_suffix (to_lower name) (codes ".torrent")
    then take (length name - 8) name
    else name

-- strings.ContainsRune(`/\:*?"<>|`, r)
abbrev pub reserved : Text
reserved = b'/' ∷ 0x5c ∷ b':' ∷ b'*' ∷ b'?' ∷ 0x22 ∷ b'<' ∷ b'>' ∷ b'|' ∷ []

unfoldable pub replace_rune : ℕ → ℕ
unfolding contains_rune
replace_rune r = if is_control r || contains_rune reserved r then b'-' else r

-- the loop over the runes; `written` is out.Len()
unfoldable pub write_runes : ℕ → Text → Text
unfolding replace_rune
write_runes written [] = []
write_runes written (r ∷ s) =
    let r' = replace_rune r in
    let rest = write_runes (written + rune_len r') s in
    if ltb 180 (written + rune_len r') then [] else r' ∷ rest

-- strings.Trim(…, " .")
abbrev pub is_edge : ℕ → Bool
is_edge c = c == 0x20 || c == b'.'

abbrev pub release_name : Text → Text
release_name name =
    if text_eq name [] || text_eq name dot || text_eq name dotdot then codes "release" else name

-- the name, or else the file's name
unfoldable pub base_name : Text → Text → Text
base_name name filename = let n = trim_space name in if text_eq n [] then filename else n

unfoldable pub release_folder : Job → Text
release_folder j =
    release_name (trim is_edge (write_runes 0 (cut_suffix (base_name j.name j.filename))))

-- filepath.Base: the element after the last slash, trailing slashes apart
abbrev pub last_part : List Text → Text
last_part [] = []
last_part (p ∷ []) = p
last_part (p ∷ q ∷ ps) = last_part (q ∷ ps)

unfoldable pub base : Text → Text
unfolding trim split
base s =
    if text_eq s []
    then dot
    else let stripped = trim_right (λ c. c == slash) s in
      if text_eq stripped [] then slash ∷ [] else last_part (split slash stripped)

-- strings.ContainsAny(name, "/\\\x00")
unfoldable pub is_valid_release_folder : Text → Bool
is_valid_release_folder name =
    not (text_eq name [])
    && not (text_eq name dot)
    && not (text_eq name dotdot)
    && text_eq (base name) name
    && not (any (λ c. c == slash || c == 0x5c || c == 0) name)
