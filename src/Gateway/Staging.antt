-- ===== src/Gateway/Staging.antt =====
-- The links below the download directory: `createLinks`, `safeStagingParents`, `storage` and
-- `catalogPath` of internal/gateway/service.go, `removeStagedLinks` and `torrentSavePath` of
-- internal/gateway/qbit.go. The file system is a list of paths with what stands there. The
-- configured root exists and is trusted; below it the code looks at every parent itself, so a path
-- names one node. Calls that fail for another reason than what stands at the path (permissions, a
-- full disk) are not values of the model.
use rehydrator.Base.{
  ℕ, is_some, zero, suc, ◌+◌, ◌-◌, ◌*◌, ◌%◌, ◌≤◌, ◌<◌, min, ◌≡◌, refl, sym, ap, ◌∙◌, subst, ◌≢◌,
  ◌↔◌, ◌⊎◌, inl, inr, Bool, true, false, not, ◌&&◌, ◌||◌, Option, none, some, List, [], ◌∷◌, ◌++◌,
  map, append-nil, append_assoc, arith, ltb, leb, ◌==◌, if◌then◌else◌, ==_iff, ==_refl, leb→le,
  le→leb, lt→ltb, Bool-cases, Option-cases, &&-eq-true, ||-eq-false, length, take, drop, all, any,
  length-append, length-drop, take-append, String, drop-append, All, All-append, ℤ, pos, negsuc,
  is_negative, int_eq, eq_of_int_eq, Text, codes, text_eq, eq_of_text_eq, text_eq_refl, text_eq_iff,
  text_eq_swap,
}
use rehydrator.Base.Strings.{split}
use rehydrator.Base.Paths.{clean, join, slash, dot, dotdot}
use rehydrator.Model.Types.{is_torrent}
use rehydrator.Db.Jobs.{Job}
use rehydrator.Torbox.Types.{UsenetFile}
pub mod Kept
pub mod Cleanup

pub data Node : Type 0 where
  directory regular : Node
  link : Text → Node

abbrev pub Fs : Type 0
Fs = List (Text × Node)

pub record Paths : Type 0 where
  pub download_path : Text
  pub mount_path : Text
  pub categories : List Text

unfoldable pub node_at : Text → Fs → Option Node
node_at p [] = none
node_at p ((q, n) ∷ s) = if text_eq p q then some n else node_at p s

unfoldable pub delete : Text → Fs → Fs
delete p [] = []
delete p ((q, n) ∷ s) = let rest = delete p s in if text_eq p q then rest else (q, n) ∷ rest

-- filepath.Join
abbrev pub nonempty : List Text → List Text
nonempty [] = []
nonempty (p ∷ ps) = let rest = nonempty ps in if text_eq p [] then rest else p ∷ rest

abbrev pub clean_joined : List Text → Text
clean_joined [] = []
clean_joined (p ∷ ps) = clean (join (p ∷ ps))

unfoldable pub join_paths : List Text → Text
unfolding clean join
join_paths ps = clean_joined (nonempty ps)

unfoldable pub storage : Paths → Job → Text
unfolding join_paths
storage c j =
    let root = join_paths (c.download_path ∷ j.category ∷ j.id ∷ []) in
    if text_eq j.release_folder [] then root else join_paths (root ∷ j.release_folder ∷ [])

unfoldable pub catalog_path : Job → Text
catalog_path j =
    if is_torrent j.protocol then codes "torrents/" ++ j.id else codes "usenet/" ++ j.id

unfoldable pub torrent_save_path : Paths → Job → Text
unfolding join_paths
torrent_save_path c j =
    if text_eq j.release_folder []
    then join_paths (c.download_path ∷ j.category ∷ [])
    else join_paths (c.download_path ∷ j.category ∷ j.id ∷ [])

-- where a file is staged, and where its link leads
unfoldable pub destination : Paths → Job → UsenetFile → Text
unfolding storage join_paths
destination c j f = join_paths (storage c j ∷ f.name ∷ [])

unfoldable pub target : Paths → Job → UsenetFile → Text
unfolding catalog_path join_paths
target c j f = join_paths (c.mount_path ∷ catalog_path j ∷ f.name ∷ [])

-- the elements of a path, and all of them but the last (filepath.Dir)
abbrev pub parts_of : Text → List Text
parts_of p = split slash p

abbrev pub but_last : List Text → List Text
but_last [] = []
but_last (p ∷ []) = []
but_last (p ∷ q ∷ ps) = p ∷ but_last (q ∷ ps)

-- filepath.Rel on the elements of two cleaned rooted paths
abbrev pub ups : List Text → List Text
ups [] = []
ups (p ∷ ps) = dotdot ∷ ups ps

unfoldable pub relative : List Text → List Text → List Text
relative [] ts = ts
relative (b ∷ bs) [] = ups (b ∷ bs)
relative (b ∷ bs) (t ∷ ts) =
    let rest = relative bs ts in if text_eq b t then rest else ups (b ∷ bs) ++ t ∷ ts

abbrev pub escapes : List Text → Bool
escapes [] = false
escapes (p ∷ ps) = text_eq p dotdot

-- The error of an operation, if any, and what it left.
abbrev pub Outcome : Type 0
Outcome = Option Text × Fs

abbrev pub is_directory : Option Node → Bool
is_directory (some directory) = true
is_directory _ = false

-- os.Mkdir, which may find the path taken
unfoldable pub make : Text → Fs → Fs
unfolding node_at
make p s = if is_some (node_at p s) then s else (p, directory) ∷ s

-- the loop over the parents
unfoldable pub make_parents : Text → List Text → Fs → Outcome
unfolding make node_at
make_parents current [] s = (none, s)
make_parents current (part ∷ parts) s =
    let path = current ++ slash ∷ part in
    let rest = make_parents path parts (make path s) in
    if is_directory (node_at path (make path s))
    then rest
    else (some (codes "download parent is not a real directory"), make path s)

-- safeStagingParents(root, filepath.Dir(path)); an empty relative path is "."
unfoldable pub safe_parents : Paths → Text → Fs → Outcome
unfolding relative make_parents split clean
safe_parents c path s =
    let root = clean c.download_path in
    let below = relative (parts_of root) (but_last (parts_of path)) in
    if escapes below
    then (some (codes "download path escaped configured root"), s)
    else make_parents root below s

-- createLinks at one file, its parents being there
abbrev pub place : Text → Text → Option Node → Fs → Outcome
place dest to none s = (none, (dest, link to) ∷ s)
place dest to (some directory) s = (some (codes "cloud download path already exists"), s)
place dest to (some regular) s = (some (codes "cloud download path already exists"), s)
place dest to (some (link there)) s =
    if text_eq there to
    then (none, s)
    else (some (codes "cloud download path has a different symlink"), s)

abbrev pub and_then : Outcome → (Fs → Outcome) → Outcome
and_then (none, s) f = f s
and_then (some e, s) f = (some e, s)

unfoldable pub create_link : Paths → Job → UsenetFile → Fs → Outcome
unfolding node_at safe_parents
create_link c j f s =
    and_then (safe_parents c (destination c j f) s)
      (λ t. place (destination c j f) (target c j f) (node_at (destination c j f) t) t)

unfoldable pub link_files : Paths → Job → List UsenetFile → Fs → Outcome
unfolding create_link
link_files c j [] s = (none, s)
link_files c j (f ∷ fs) s = and_then (create_link c j f s) (λ t. link_files c j fs t)

unfoldable pub create_links : Paths → Job → Fs → Outcome
unfolding link_files
create_links c j s =
    if any (text_eq j.category) c.categories
    then link_files c j j.files s
    else (some (codes "unconfigured cloud category"), s)

-- the error of os.Readlink at something else than a link
abbrev pub no_link : Text → Text
no_link dest = codes "readlink " ++ (dest ++ codes ": invalid argument")

-- removeStagedLinks at one file
abbrev pub unlink : Text → Text → Option Node → Fs → Outcome
unlink dest to none s = (none, s)
unlink dest to (some directory) s = (some (no_link dest), s)
unlink dest to (some regular) s = (some (no_link dest), s)
unlink dest to (some (link there)) s =
    if text_eq there to then (none, delete dest s) else (some (codes "unexpected staging link"), s)

unfoldable pub remove_link : Paths → Job → UsenetFile → Fs → Outcome
unfolding node_at delete safe_parents
remove_link c j f s =
    and_then (safe_parents c (destination c j f) s)
      (λ t. unlink (destination c j f) (target c j f) (node_at (destination c j f) t) t)

unfoldable pub unlink_files : Paths → Job → List UsenetFile → Fs → Outcome
unfolding remove_link
unlink_files c j [] s = (none, s)
unlink_files c j (f ∷ fs) s = and_then (remove_link c j f s) (λ t. unlink_files c j fs t)

unfoldable pub remove_staged_links : Paths → Job → Fs → Outcome
unfolding unlink_files
remove_staged_links c j s = unlink_files c j j.files s
