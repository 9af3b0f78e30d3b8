-- ===== src/Base/Paths/Clean.antt =====
-- What a cleaned path is made of: the elements that `clean` keeps, and `split` after `join`.
use rehydrator.Base.{sym}
use mathlib.Core.List.{reverse-append}
use rehydrator.Base.Paths.{starts_with_slash}
use rehydrator.Base.Paths.{clean}
use rehydrator.Base.Paths.{or_dot}
use mathlib.Core.List.{reverse}
use rehydrator.Base.Strings.{has_prefix}
use rehydrator.Base.{
  text_eq_refl, Text, text_eq, true, false, ◌||◌, List, [], ◌∷◌, ◌++◌, All, All-append, Bool-cases,
  if◌then◌else◌, ◌==◌, ◌≡◌, refl, ap, ◌∙◌, ◌⊎◌, inl, inr, arith,
}
use rehydrator.Base.Strings.{split}
use rehydrator.Base.Paths.{slash, dot, dotdot, join, back_up, clean_parts}

-- An element that stays below its directory: not empty, not `.`, not `..`, and with no slash.
pub record IsProper (t : Text) : Type 0 where
  pub not_empty : text_eq t [] ≡ false
  pub not_dot : text_eq t dot ≡ false
  pub not_dotdot : text_eq t dotdot ≡ false
  pub no_slash : All (λ c. (c == slash) ≡ false) t

abbrev pub NoSlash : Text → Type 0
NoSlash t = All (λ c. (c == slash) ≡ false) t

split-NoSlash : (s : Text) → All NoSlash (split slash s)
unfolding split
split-NoSlash [] = (tt, tt)
split-NoSlash (c ∷ s) = elim (Bool-cases (c == slash)) [
  | inl e ↦ rw e (tt, split-NoSlash s)
  | inr e ↦ rw e (extend (split slash s) e (split-NoSlash s))
]
  where
    extend :
        (parts : List Text)
        → (c == slash) ≡ false
        → All NoSlash parts
        → All NoSlash (elim parts [ [] ↦ (c ∷ []) ∷ [] | part ∷ parts ↦ (c ∷ part) ∷ parts ])
    extend [] e h = ((e, tt), tt)
    extend (part ∷ parts) e h = ((e, h.0), h.1)

-- What the stack of an unrooted path holds: proper elements over a run of `..`.
abbrev Dots : List Text → Type 0
Dots = All (λ t. t ≡ dotdot)

data Stack : List Text → Type 0 where
  bottom : {s : List Text} → Dots s → Stack s
  push : {t : Text} {s : List Text} → IsProper t → Stack s → Stack (t ∷ s)

back_up-Stack : {s : List Text} → Stack s → Stack (back_up false s)
unfolding back_up
back_up-Stack {s = []} (bottom d) = bottom (refl, tt)
back_up-Stack {s = t ∷ s} (bottom d) =
    let e : text_eq t dotdot ≡ true = rw d.0 refl in rw e (bottom (refl, d))
back_up-Stack (push p h) = rw (p.not_dotdot) h

clean_parts-Stack : (ps s : List Text) → All NoSlash ps → Stack s → Stack (clean_parts false s ps)
unfolding clean_parts
clean_parts-Stack [] s n h = h
clean_parts-Stack (p ∷ ps) s n h =
    clean_parts-Stack ps _ n.1
      (step (Bool-cases (text_eq p [] || text_eq p dot)) (Bool-cases (text_eq p dotdot)))
  where
    step :
        ((text_eq p [] || text_eq p dot) ≡ true) ⊎ ((text_eq p [] || text_eq p dot) ≡ false)
        → (text_eq p dotdot ≡ true) ⊎ (text_eq p dotdot ≡ false)
        → Stack (
            if text_eq p [] || text_eq p dot
            then s
            else if text_eq p dotdot
            then back_up false s
            else p ∷ s)
    step (inl e) _ = rw e h
    step (inr e) (inl d) = rw (e, d) (back_up-Stack h)
    step (inr e) (inr d) =
        rw (e, d)
          (push
            (record {
              not_empty = ground arith;
              not_dot = ground arith;
              not_dotdot = d;
              no_slash = n.0;
            })
            h)

split-append : (t u : Text) → NoSlash t → split slash (t ++ slash ∷ u) ≡ t ∷ split slash u
unfolding split
split-append [] u h = refl
split-append (c ∷ t) u h = rw (h.0, split-append t u h.1)

pub split_self : (t : Text) → NoSlash t → split slash t ≡ t ∷ []
unfolding split
split_self [] h = refl
split_self (c ∷ t) h = rw (h.0, split_self t h.1)

-- Splitting undoes joining, for elements with no slash.
pub split-join :
    (p : Text) (ps : List Text) → All NoSlash (p ∷ ps) → split slash (join (p ∷ ps)) ≡ p ∷ ps
unfolding join
split-join p [] h = split_self p h.0
split-join p (q ∷ ps) h = split-append p (join (q ∷ ps)) h.0 ∙ ap (λ r. p ∷ r) (split-join q ps h.1)

reverse-cons : (t : Text) (s : List Text) → reverse (t ∷ s) ≡ reverse s ++ t ∷ []
reverse-cons t s = reverse-append (t ∷ []) s

All-reverse : (P : Text → Type 0) (s : List Text) → All P s → All P (reverse s)
All-reverse P [] h = tt
All-reverse P (t ∷ s) h =
    rw (reverse-cons t s) (All-append P (reverse s) (t ∷ []) (All-reverse P s h.1) (h.0, tt))

-- The elements are all proper, or the first of them is `..`.
data Shape : List Text → Type 0 where
  below : {ps : List Text} → All IsProper ps → Shape ps
  above : {p : Text} {ps : List Text} → p ≡ dotdot → Shape (p ∷ ps)

Shape-snoc : {ps : List Text} (p : Text) → Shape ps → IsProper p → Shape (ps ++ p ∷ [])
Shape-snoc {ps} p (below h) q = below (All-append IsProper ps (p ∷ []) h (q, tt))
Shape-snoc p (above e) q = above e

Shape-Dots : (ps : List Text) → Dots ps → Shape ps
Shape-Dots [] h = below tt
Shape-Dots (p ∷ ps) h = above h.0

Stack-Shape : {s : List Text} → Stack s → Shape (reverse s)
Stack-Shape (bottom {s = s} d) = Shape-Dots (reverse s) (All-reverse (λ t. t ≡ dotdot) s d)
Stack-Shape (push {t = t} {s = s} p h) = rw (reverse-cons t s) (Shape-snoc t (Stack-Shape h) p)

All-NoSlash : (ps : List Text) → All IsProper ps → All NoSlash ps
All-NoSlash [] h = tt
All-NoSlash (p ∷ ps) h = (h.0.no_slash, All-NoSlash ps h.1)

or_dot-join :
    (p : Text) (ps : List Text) → text_eq p [] ≡ false → or_dot (join (p ∷ ps)) ≡ join (p ∷ ps)
unfolding join
or_dot-join [] ps h = cc
or_dot-join (c ∷ p) [] h = refl
or_dot-join (c ∷ p) (q ∷ ps) h = refl

pub has_prefix-append : (s t : Text) → has_prefix (s ++ t) s ≡ true
unfolding has_prefix
has_prefix-append [] [] = refl
has_prefix-append [] (c ∷ t) = refl
has_prefix-append (c ∷ s) t = ground (arith, has_prefix-append s t)

climbs :
    (p : Text) (ps : List Text)
    → p ≡ dotdot
    → (join (p ∷ ps) ≡ dotdot) ⊎ (has_prefix (join (p ∷ ps)) (b'.' ∷ b'.' ∷ slash ∷ []) ≡ true)
unfolding join
climbs p [] e = inl e
climbs p (q ∷ ps) e = inr (rw e (has_prefix-append (b'.' ∷ b'.' ∷ slash ∷ []) (join (q ∷ ps))))

-- A text that is its own `clean` form, is relative and does not climb is `.`, or all its elements
-- are proper.
pub clean_fixed :
    (t : Text)
    → starts_with_slash t ≡ false
    → clean t ≡ t
    → text_eq t dotdot ≡ false
    → has_prefix t (b'.' ∷ b'.' ∷ slash ∷ []) ≡ false
    → (t ≡ dot) ⊎ All IsProper (split slash t)
unfolding clean
clean_fixed t rooted fixed not_up not_above =
    conclude (reverse (clean_parts false [] (split slash t)))
      (Stack-Shape (clean_parts-Stack (split slash t) [] (split-NoSlash t) (bottom tt)))
      (rw rooted at fixed)
  where
    conclude :
        (ps : List Text)
        → Shape ps
        → or_dot (join ps) ≡ t
        → (t ≡ dot) ⊎ All IsProper (split slash t)
    conclude [] h e = inl (unfold join in sym e)
    conclude (p ∷ ps) (below h) e =
        inr (rw (← e, or_dot-join p ps h.0.not_empty, split-join p ps (All-NoSlash (p ∷ ps) h)) h)
    conclude (p ∷ ps) (above u) e =
        let q : join (p ∷ ps) ≡ t = sym (or_dot-join p ps (rw u refl)) ∙ e in
        elim (climbs p ps u) [
          | inl c ↦ absurd (cc (text_eq_refl dotdot, c, q, not_up))
          | inr c ↦ absurd (cc (c, q, not_above))
        ]
