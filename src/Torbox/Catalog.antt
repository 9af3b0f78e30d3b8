-- ===== src/Torbox/Catalog.antt =====
-- `ValidateUsenetFiles` of internal/torbox/usenet.go: which file lists of the provider are taken.
pub mod Safe
use rehydrator.Base.{
  Text, codes, text_eq, Bool, true, false, not, ◌||◌, List, [], ◌∷◌, any, is_negative,
  if◌then◌else◌, ◌==◌,
}
use rehydrator.Base.Strings.{has_prefix}
use rehydrator.Base.Paths.{clean, dotdot}
use rehydrator.Torbox.Types.{UsenetFile}

-- strings.ContainsAny(name, "\\\x00")
unfoldable pub has_forbidden : Text → Bool
has_forbidden = any (λ c. c == 0x5c || c == 0)

-- the conditions on one file, `seen` apart
unfoldable pub is_bad_file : UsenetFile → Bool
is_bad_file f =
    is_negative f.id
    || is_negative f.size
    || text_eq f.name []
    || has_prefix f.name (codes "/")
    || has_forbidden f.name
    || not (text_eq (clean f.name) f.name)
    || text_eq f.name dotdot
    || has_prefix f.name (codes "../")

-- the loop over the files, with the names seen so far
unfoldable pub validate_from : List Text → List UsenetFile → Bool
validate_from seen [] = true
validate_from seen (f ∷ fs) =
    let rest = validate_from (f.name ∷ seen) fs in
    if is_bad_file f || any (text_eq f.name) seen then false else rest

unfoldable pub validate_files : List UsenetFile → Bool
unfolding validate_from
validate_files files = validate_from [] files
