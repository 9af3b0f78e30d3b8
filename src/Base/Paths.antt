-- ===== src/Base/Paths.antt =====
-- Go's `path` package on slash-separated texts: Clean, Base and the pieces of a path.
pub mod Clean
use Prim.Native.Nat.{ℕ}
use mathlib.Core.Bool.{Bool, false, ◌||◌}
use mathlib.Core.List.{List, [], ◌∷◌, ◌++◌, reverse}
use rehydrator.Base.Tests.{◌==◌, if◌then◌else◌}
use rehydrator.Base.Texts.{Text, text_eq}
use rehydrator.Base.Strings.{split}

abbrev pub slash : ℕ
slash = b'/'

abbrev pub dot : Text
dot = b'.' ∷ []

abbrev pub dotdot : Text
dotdot = b'.' ∷ b'.' ∷ []

-- strings.Join with a slash
unfoldable pub join : List Text → Text
join [] = []
join (p ∷ []) = p
join (p ∷ q ∷ ps) = p ++ slash ∷ join (q ∷ ps)

abbrev pub starts_with_slash : Text → Bool
starts_with_slash [] = false
starts_with_slash (c ∷ s) = c == slash

-- `..` removes the element before it; at the start of a rooted path it is dropped.
unfoldable pub back_up : Bool → List Text → List Text
back_up rooted [] = if rooted then [] else dotdot ∷ []
back_up rooted (p ∷ ps) = if text_eq p dotdot then dotdot ∷ p ∷ ps else ps

-- the elements that are kept, the last one first
unfoldable pub clean_parts : Bool → List Text → List Text → List Text
unfolding back_up
clean_parts rooted stack [] = stack
clean_parts rooted stack (p ∷ ps) =
    clean_parts rooted
      (if text_eq p [] || text_eq p dot
        then stack
        else if text_eq p dotdot
        then back_up rooted stack
        else p ∷ stack)
      ps

abbrev pub or_dot : Text → Text
or_dot [] = dot
or_dot (c ∷ s) = c ∷ s

-- path.Clean
unfoldable pub clean : Text → Text
unfolding split clean_parts join
clean s =
    let rooted = starts_with_slash s in
    let out = join (reverse (clean_parts rooted [] (split slash s))) in
    if rooted then slash ∷ out else or_dot out
