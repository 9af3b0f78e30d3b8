-- ===== src/Gateway/Catalog/Sizes.antt =====
-- Laws of `size_of`: the size under a name, when files are removed or stand in front.
use rehydrator.Base.{
  ◌≢◌, ℤ, Text, text_eq, text_eq_refl, false, List, [], ◌∷◌, Option, none, some, length,
  eq_of_text_eq, if◌then◌else◌, ◌≡◌, refl, sym, ◌∙◌, ap, arith, All, Bool-cases, inl, inr, suc,
}
use rehydrator.Torbox.Types.{UsenetFile}
use rehydrator.Torbox.Catalog.Safe.{Distinct}
use rehydrator.Gateway.Catalog.{or_else, size_of}

pub or_else-none : (o : Option ℤ) → or_else o none ≡ o
or_else-none none = refl
or_else-none (some n) = refl

-- the files of other names
unfoldable pub remove : Text → List UsenetFile → List UsenetFile
remove n [] = []
remove n (f ∷ fs) = if text_eq f.name n then remove n fs else f ∷ remove n fs

pub size_of-remove_ne :
    (n m : Text) (fs : List UsenetFile)
    → text_eq m n ≡ false
    → size_of n (remove m fs) ≡ size_of n fs
unfolding size_of remove
size_of-remove_ne n m [] h = refl
size_of-remove_ne n m (f ∷ fs) h = elim (Bool-cases (text_eq f.name m)) [
  | inl e ↦
      let other : text_eq f.name n ≡ false = rw (eq_of_text_eq f.name m e) h in
      rw (e, size_of-remove_ne n m fs h, other) (sym (or_else-none (size_of n fs)))
  | inr e ↦ rw (e, size_of-remove_ne n m fs h)
]

pub size_of_fresh :
    (n : Text) (fs : List UsenetFile) → All (λ g. text_eq g.name n ≡ false) fs → size_of n fs ≡ none
unfolding size_of
size_of_fresh n [] h = refl
size_of_fresh n (f ∷ fs) h = rw (size_of_fresh n fs h.1, h.0)

pub remove_fresh :
    (n : Text) (fs : List UsenetFile) → All (λ g. text_eq g.name n ≡ false) fs → remove n fs ≡ fs
unfolding remove
remove_fresh n [] h = refl
remove_fresh n (f ∷ fs) h = rw (h.0, remove_fresh n fs h.1)

pub length-remove :
    (n : Text) (fs : List UsenetFile) {s : ℤ}
    → Distinct fs
    → size_of n fs ≡ some s
    → suc (length (remove n fs)) ≡ length fs
unfolding size_of remove Distinct
length-remove n [] d h = cc
length-remove n (f ∷ fs) d h = elim (Bool-cases (text_eq f.name n)) [
  | inl e ↦
      let others : All (λ g. text_eq g.name n ≡ false) fs = rw (eq_of_text_eq f.name n e) at d.0 in
      rw (e, remove_fresh n fs others) refl
  | inr e ↦ rw e (ap suc (length-remove n fs d.1 (sym (or_else-none (size_of n fs)) ∙ (rw e at h))))
]

pub All-remove :
    (P : UsenetFile → Type 0) (n : Text) (fs : List UsenetFile) → All P fs → All P (remove n fs)
unfolding remove
All-remove P n [] h = tt
All-remove P n (f ∷ fs) h = elim (Bool-cases (text_eq f.name n)) [
  | inl e ↦ rw e (All-remove P n fs h.1)
  | inr e ↦ rw e (h.0, All-remove P n fs h.1)
]

pub Distinct-remove : (n : Text) (fs : List UsenetFile) → Distinct fs → Distinct (remove n fs)
unfolding remove Distinct
Distinct-remove n [] d = tt
Distinct-remove n (f ∷ fs) d = elim (Bool-cases (text_eq f.name n)) [
  | inl e ↦ rw e (Distinct-remove n fs d.1)
  | inr e ↦ rw e (All-remove _ n fs d.0, Distinct-remove n fs d.1)
]

pub size_of-remove_self : (n : Text) (fs : List UsenetFile) → size_of n (remove n fs) ≡ none
unfolding size_of remove
size_of-remove_self n [] = refl
size_of-remove_self n (f ∷ fs) = elim (Bool-cases (text_eq f.name n)) [
  | inl e ↦ rw e (size_of-remove_self n fs)
  | inr e ↦ rw (e, size_of-remove_self n fs, e)
]

pub size_of_head : (f : UsenetFile) (fs : List UsenetFile) → size_of f.name (f ∷ fs) ≢ none
unfolding size_of
size_of_head f fs h = ground (arith, text_eq_refl f.name)

pub size_of-head_new :
    (g : UsenetFile) (gs : List UsenetFile)
    → Distinct (g ∷ gs)
    → size_of g.name (g ∷ gs) ≡ some g.size
unfolding size_of Distinct
size_of-head_new g gs e = rw (size_of_fresh g.name gs e.0, text_eq_refl g.name)

pub size_of-tail :
    (g : UsenetFile) (gs : List UsenetFile) (n : Text)
    → text_eq g.name n ≡ false
    → size_of n (g ∷ gs) ≡ size_of n gs
unfolding size_of
size_of-tail g gs n t = rw t (or_else-none (size_of n gs))
