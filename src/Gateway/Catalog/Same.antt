-- ===== src/Gateway/Catalog/Same.antt =====
-- `same_catalog` decides that two lists of distinct names hold the same sizes under the same names.
use rehydrator.Base.{text_eq_swap}
use rehydrator.Base.{subst}
use rehydrator.Base.{
  ==_iff, ==_refl, ◌↔◌, &&-eq-true, ℤ, Text, text_eq, Bool, true, false, List, [], ◌∷◌, Option,
  none, some, length, all, int_eq_refl, eq_of_int_eq, eq_of_text_eq, ◌==◌, ◌≡◌, refl, sym, ◌∙◌, ap,
  arith, All, Bool-cases, inl, inr, &&-eq-true,
}
use rehydrator.Torbox.Types.{UsenetFile}
use rehydrator.Torbox.Catalog.Safe.{Distinct}
use rehydrator.Gateway.Catalog.{size_of, size_is, same_catalog}
use rehydrator.Gateway.Catalog.Sizes.{
  or_else-none, remove, size_of-remove_ne, size_of_fresh, length-remove, Distinct-remove,
  size_of-remove_self, size_of_head, size_of-head_new, size_of-tail,
}

-- each file of `after` has its size in `before`
abbrev Covered : List UsenetFile → List UsenetFile → Type 0
Covered before = All (λ f. size_of f.name before ≡ some f.size)

Covered-remove :
    (before : List UsenetFile) (n : Text) (fs : List UsenetFile)
    → All (λ g. text_eq g.name n ≡ false) fs
    → Covered before fs
    → Covered (remove n before) fs
Covered-remove before n [] a h = tt
Covered-remove before n (f ∷ fs) a h = (
  size_of-remove_ne f.name n before (text_eq_swap f.name n a.0) ∙ h.0,
  Covered-remove before n fs a.1 h.1,
)

-- With as many files of distinct names on both sides, what is covered is all.
same_sizes :
    (before after : List UsenetFile)
    → Distinct before
    → Distinct after
    → length before ≡ length after
    → Covered before after
    → (n : Text) → size_of n before ≡ size_of n after
unfolding size_of Distinct
same_sizes [] [] d e l c n = refl
same_sizes (f ∷ fs) [] d e l c n = absurd (omega arith)
same_sizes before (g ∷ gs) d e l c n =
    let rest : List UsenetFile = remove g.name before in
    let shorter : length rest ≡ length gs = omega (arith, length-remove g.name before d c.0) in
    let ih : size_of n rest ≡ size_of n gs =
      same_sizes rest gs (Distinct-remove g.name before d) e.1 shorter
        (Covered-remove before g.name gs e.0 c.1) n in
    elim (Bool-cases (text_eq g.name n)) [
      | inl t ↦
          subst (λ m. size_of m before ≡ size_of m (g ∷ gs)) (eq_of_text_eq g.name n t)
            (c.0 ∙ sym (size_of-head_new g gs e))
      | inr t ↦
          rw t (sym (size_of-remove_ne n g.name before t) ∙ ih ∙ sym (or_else-none (size_of n gs)))
    ]

same_lengths :
    (before after : List UsenetFile)
    → Distinct before
    → Distinct after
    → ((n : Text) → size_of n before ≡ size_of n after)
    → length before ≡ length after
unfolding Distinct
same_lengths [] [] d e h = refl
same_lengths (f ∷ fs) [] d e h = absurd (size_of_head f fs (h f.name ∙ unfold size_of in refl))
same_lengths before (g ∷ gs) d e h =
    let rest : List UsenetFile = remove g.name before in
    let there : size_of g.name before ≡ some g.size = h g.name ∙ size_of-head_new g gs e in
    let ih : length rest ≡ length gs =
      same_lengths rest gs (Distinct-remove g.name before d) e.1 (λ n.
        elim (Bool-cases (text_eq g.name n)) [
          | inl t ↦
              rw (← eq_of_text_eq g.name n t)
                (size_of-remove_self g.name before ∙ sym (size_of_fresh g.name gs e.0))
          | inr t ↦ size_of-remove_ne n g.name before t ∙ h n ∙ size_of-tail g gs n t
        ]) in
    omega (arith, length-remove g.name before d there)

Covered-cons :
    (g : UsenetFile) (gs fs : List UsenetFile)
    → All (λ f. text_eq f.name g.name ≡ false) fs
    → Covered gs fs
    → Covered (g ∷ gs) fs
Covered-cons g gs [] a c = tt
Covered-cons g gs (f ∷ fs) a c =
    (size_of-tail g gs f.name (text_eq_swap f.name g.name a.0) ∙ c.0, Covered-cons g gs fs a.1 c.1)

Covered-self : (fs : List UsenetFile) → Distinct fs → Covered fs fs
unfolding Distinct
Covered-self [] d = tt
Covered-self (f ∷ fs) d = (size_of-head_new f fs d, Covered-cons f fs fs d.0 (Covered-self fs d.1))

covers : List UsenetFile → List UsenetFile → Bool
covers before = all (λ f. size_is (size_of f.name before) f.size)

size_is_lem : (o : Option ℤ) (n : ℤ) → size_is o n ≡ true → o ≡ some n
size_is_lem none n h = cc
size_is_lem (some m) n h = ap some (eq_of_int_eq m n h)

Covered-of_covers : (before fs : List UsenetFile) → covers before fs ≡ true → Covered before fs
unfolding covers
Covered-of_covers before [] h = tt
Covered-of_covers before (f ∷ fs) h =
    let (a, b) = &&-eq-true _ (covers before fs) h in
    (size_is_lem (size_of f.name before) f.size a, Covered-of_covers before fs b)

covers_of_Covered : (before fs : List UsenetFile) → Covered before fs → covers before fs ≡ true
unfolding covers
covers_of_Covered before [] h = refl
covers_of_Covered before (f ∷ fs) h = rw (h.0, int_eq_refl f.size) (covers_of_Covered before fs h.1)

Covered-along :
    (before after fs : List UsenetFile)
    → ((n : Text) → size_of n before ≡ size_of n after)
    → Covered after fs
    → Covered before fs
Covered-along before after [] h c = tt
Covered-along before after (f ∷ fs) h c = (h f.name ∙ c.0, Covered-along before after fs h c.1)

-- For two file lists with distinct names, the gateway finds the same catalog exactly when every
-- name has the same size, or is absent, in both: no file was added, removed, renamed or resized,
-- in whatever order the provider lists them.
pub same_catalog_iff :
    (before after : List UsenetFile)
    → Distinct before
    → Distinct after
    → (same_catalog before after ≡ true) ↔ ((n : Text) → size_of n before ≡ size_of n after)
unfolding same_catalog covers
same_catalog_iff before after d e = (
  λ h n.
      let (l, c) = &&-eq-true (length before == length after) (covers before after) h in
      same_sizes before after d e ((==_iff _ _).0 l) (Covered-of_covers before after c) n,
  λ h.
      let l : length before ≡ length after = same_lengths before after d e h in
      let c : covers before after ≡ true =
        covers_of_Covered before after
          (Covered-along before after after h (Covered-self after e)) in
      rw (l, ==_refl (length after)) c,
)
