-- ===== src/Gateway/Staging/Kept.antt =====
-- Staging overwrites nothing, and cleaning up takes away only its own links.
use rehydrator.Base.{
  ◌≡◌, refl, sym, ap, ◌∙◌, subst, inl, inr, true, Option, none, some, List, [], ◌∷◌, ◌++◌,
  Bool-cases, Option-cases, any, All, Text, text_eq, eq_of_text_eq, text_eq_refl,
}
use rehydrator.Gateway.Staging.{
  clean, slash, Node, directory, regular, link, Fs, Paths, node_at, destination, target, relative,
  Outcome, is_directory, make, make_parents, safe_parents, place, and_then, create_link, link_files,
  create_links, escapes, parts_of, but_last,
}
use rehydrator.Torbox.Types.{UsenetFile}
use rehydrator.Db.Jobs.{Job}

-- what stood somewhere stands there still
abbrev pub Keeps : Fs → Fs → Type 0
Keeps s t = (p : Text) (n : Node) → node_at p s ≡ some n → node_at p t ≡ some n

node_at_new : (p : Text) (n : Node) (s : Fs) → node_at p ((p, n) ∷ s) ≡ some n
unfolding node_at
node_at_new p n s = rw (text_eq_refl p) refl

Keeps-new : (q : Text) (m : Node) (s : Fs) → node_at q s ≡ none → Keeps s ((q, m) ∷ s)
unfolding node_at
Keeps-new q m s free p n h = elim (Bool-cases (text_eq p q)) [
  | inl e ↦ absurd (cc (h, free, ap (λ x. node_at x s) (eq_of_text_eq p q e)))
  | inr e ↦ rw e h
]

Keeps-make : (p : Text) (s : Fs) → Keeps s (make p s)
unfolding make
Keeps-make p s = elim (Option-cases (node_at p s)) [
  | inl e ↦ rw e (Keeps-new p directory s e)
  | inr (n, e) ↦ rw e (λ q m h. h)
]

Keeps-make_parents :
    (current : Text) (parts : List Text) (s : Fs) → Keeps s (make_parents current parts s).1
unfolding make_parents
Keeps-make_parents current [] s = λ p n h. h
Keeps-make_parents current (part ∷ parts) s =
    let path : Text = current ++ slash ∷ part in
    elim (Bool-cases (is_directory (node_at path (make path s)))) [
      | inl e ↦
          rw e (λ p n h. Keeps-make_parents path parts (make path s) p n (Keeps-make path s p n h))
      | inr e ↦ rw e (Keeps-make path s)
    ]

pub Keeps-safe_parents : (c : Paths) (path : Text) (s : Fs) → Keeps s (safe_parents c path s).1
unfolding safe_parents
Keeps-safe_parents c path s =
    let below : List Text =
      relative (parts_of (clean c.download_path)) (but_last (parts_of path)) in
    elim (Bool-cases (escapes below)) [
      | inl e ↦ rw e (λ p n h. h)
      | inr e ↦ rw e (Keeps-make_parents (clean c.download_path) below s)
    ]

Keeps-and_then :
    (s : Fs) (o : Outcome) (f : Fs → Outcome)
    → Keeps s o.1
    → ((t : Fs) → Keeps t (f t).1)
    → Keeps s (and_then o f).1
Keeps-and_then s (none, t) f k l = λ p n h. l t p n (k p n h)
Keeps-and_then s (some e, t) f k l = k

Keeps-place :
    (dest to : Text) (o : Option Node) (s : Fs) → node_at dest s ≡ o → Keeps s (place dest to o s).1
Keeps-place dest to none s e = Keeps-new dest (link to) s e
Keeps-place dest to (some directory) s e = λ p n h. h
Keeps-place dest to (some regular) s e = λ p n h. h
Keeps-place dest to (some (link there)) s e = elim (Bool-cases (text_eq there to)) [
  | inl l ↦ rw l (λ p n h. h)
  | inr l ↦ rw l (λ p n h. h)
]

Keeps-create_link :
    (c : Paths) (j : Job) (f : UsenetFile) (s : Fs) → Keeps s (create_link c j f s).1
unfolding create_link
Keeps-create_link c j f s =
    Keeps-and_then s (safe_parents c (destination c j f) s) _
      (Keeps-safe_parents c (destination c j f) s)
      (λ t. Keeps-place (destination c j f) (target c j f) _ t refl)

Keeps-link_files :
    (c : Paths) (j : Job) (fs : List UsenetFile) (s : Fs) → Keeps s (link_files c j fs s).1
unfolding link_files
Keeps-link_files c j [] s = λ p n h. h
Keeps-link_files c j (f ∷ fs) s =
    Keeps-and_then s (create_link c j f s) _ (Keeps-create_link c j f s) (Keeps-link_files c j fs)

-- a step that ended without error
passed :
    (o : Outcome) (f : Fs → Outcome)
    → (and_then o f).0 ≡ none
    → (t : Fs) × (o ≡ (none, t)) × ((f t).0 ≡ none) × (and_then o f ≡ f t)
passed (none, t) f e = (t, refl, e, refl)
passed (some x, t) f e = absurd (cc e)

placed :
    (dest to : Text) (o : Option Node) (s : Fs)
    → node_at dest s ≡ o
    → (place dest to o s).0 ≡ none
    → node_at dest (place dest to o s).1 ≡ some (link to)
placed dest to none s e = λ h. node_at_new dest (link to) s
placed dest to (some directory) s e = λ h. absurd (cc h)
placed dest to (some regular) s e = λ h. absurd (cc h)
placed dest to (some (link there)) s e = elim (Bool-cases (text_eq there to)) [
  | inl l ↦ rw l (λ h. e ∙ ap (λ t. some (link t)) (eq_of_text_eq there to l))
  | inr l ↦ rw l (λ h. absurd (cc h))
]

create_link_lem :
    (c : Paths) (j : Job) (f : UsenetFile) (s : Fs)
    → (create_link c j f s).0 ≡ none
    → node_at (destination c j f) (create_link c j f s).1 ≡ some (link (target c j f))
unfolding create_link
create_link_lem c j f s e =
    let (t, o, h, r) = passed (safe_parents c (destination c j f) s) _ e in
    ap (λ x. node_at (destination c j f) x.1) r
    ∙ placed (destination c j f) (target c j f) _ t refl h

link_files_lem :
    (c : Paths) (j : Job) (fs : List UsenetFile) (s : Fs)
    → (link_files c j fs s).0 ≡ none
    → All (λ f. node_at (destination c j f) (link_files c j fs s).1 ≡ some (link (target c j f))) fs
unfolding link_files
link_files_lem c j [] s e = tt
link_files_lem c j (f ∷ fs) s e =
    let (t, o, h, r) = passed (create_link c j f s) (λ u. link_files c j fs u) e in
    let here = create_link_lem c j f s (ap (λ x. x.0) o) in
    let there = ap (λ x. node_at (destination c j f) x.1) o in
    let final = ap (λ x. x.1) r in
    subst (λ u. All (λ g. node_at (destination c j g) u ≡ some (link (target c j g))) (f ∷ fs))
      (sym final) (Keeps-link_files c j fs t _ _ (sym there ∙ here), link_files_lem c j fs t h)

-- Staging a job's files changes nothing that stands anywhere already, whether it succeeds or stops
-- with an error. If it succeeds, every file's destination is a link to the file's place in the
-- published catalog, and the job's category is a configured one.
pub create_links_lem :
    (c : Paths) (j : Job) (s : Fs)
    → Keeps s (create_links c j s).1
      × ((create_links c j s).0 ≡ none
          → (any (text_eq j.category) c.categories ≡ true)
            × All
                (λ f.
                  node_at (destination c j f) (create_links c j s).1 ≡ some (link (target c j f)))
                j.files)
unfolding create_links
create_links_lem c j s = elim (Bool-cases (any (text_eq j.category) c.categories)) [
  | inl e ↦ rw e (Keeps-link_files c j j.files s, λ h. (refl, link_files_lem c j j.files s h))
  | inr e ↦ rw e ((λ p n h. h), λ h. absurd (cc h))
]
