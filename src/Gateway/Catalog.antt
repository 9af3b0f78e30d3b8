-- ===== src/Gateway/Catalog.antt =====
-- `sameCatalog` of internal/gateway/service.go: has the provider's file list changed since the
-- import paths were handed out?
mod Sizes
pub mod Same
use rehydrator.Base.{
  ℕ, ℤ, Text, text_eq, text_eq_refl, text_eq_iff, Bool, true, false, not, ◌&&◌, List, [], ◌∷◌,
  Option, none, some, length, all, int_eq, eq_of_int_eq, if◌then◌else◌, ◌==◌, ◌≡◌, refl, sym, ◌∙◌,
  ap, arith, All, Bool-cases, inl, inr, &&-eq-true, suc,
}
use rehydrator.Torbox.Types.{UsenetFile}
use rehydrator.Torbox.Catalog.Safe.{Distinct}

abbrev pub or_else : Option ℤ → Option ℤ → Option ℤ
or_else none o = o
or_else (some n) o = some n

-- names[n] of the map that the first loop fills: the last file of a name decides
unfoldable pub size_of : Text → List UsenetFile → Option ℤ
size_of n [] = none
size_of n (f ∷ fs) = or_else (size_of n fs) (if text_eq f.name n then some f.size else none)

abbrev pub size_is : Option ℤ → ℤ → Bool
size_is none n = false
size_is (some m) n = int_eq m n

unfoldable pub same_catalog : List UsenetFile → List UsenetFile → Bool
same_catalog before after =
    (length before == length after) && all (λ f. size_is (size_of f.name before) f.size) after
