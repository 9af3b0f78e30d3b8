-- ===== src/Gateway/Staging/Cleanup.antt =====
-- Cleaning up takes away only the links of the job itself.
use rehydrator.Base.{
  ◌≡◌, refl, sym, ap, ◌∙◌, ◌⊎◌, inl, inr, false, Option, none, some, List, [], ◌∷◌, if◌then◌else◌,
  Bool-cases, Text, text_eq, eq_of_text_eq,
}
use rehydrator.Torbox.Types.{UsenetFile}
use rehydrator.Db.Jobs.{Job}
use rehydrator.Gateway.Staging.{
  Node, directory, regular, link, Fs, Paths, node_at, delete, destination, target, Outcome,
  safe_parents, and_then, unlink, remove_link, unlink_files, remove_staged_links,
}
use rehydrator.Gateway.Staging.Kept.{Keeps-safe_parents}

-- the link of one of the files
abbrev pub IsStaged : Paths → Job → List UsenetFile → Text → Node → Type 0
IsStaged c j [] p n = ⊥
IsStaged c j (f ∷ fs) p n =
    ((p ≡ destination c j f) × (n ≡ link (target c j f))) ⊎ IsStaged c j fs p n

-- what stood somewhere stands there still, or is one of the links
abbrev pub Spares : (Text → Node → Type 0) → Fs → Fs → Type 0
Spares P s t = (p : Text) (n : Node) → node_at p s ≡ some n → (node_at p t ≡ some n) ⊎ P p n

node_at-delete : (p q : Text) (s : Fs) → text_eq p q ≡ false → node_at p (delete q s) ≡ node_at p s
unfolding node_at delete
node_at-delete p q [] h = refl
node_at-delete p q ((x, n) ∷ s) h = elim (Bool-cases (text_eq q x)) [
  | inl e ↦
      let other : text_eq p x ≡ false = ap (text_eq p) (sym (eq_of_text_eq q x e)) ∙ h in
      rw (e, other) (node_at-delete p q s h)
  | inr e ↦ rw e (ap (λ r. if text_eq p x then some n else r) (node_at-delete p q s h))
]

Spares-unlink :
    (dest to : Text) (o : Option Node) (s : Fs)
    → node_at dest s ≡ o
    → Spares (λ p n. (p ≡ dest) × (n ≡ link to)) s (unlink dest to o s).1
Spares-unlink dest to none s e = λ p n h. inl h
Spares-unlink dest to (some directory) s e = λ p n h. inl h
Spares-unlink dest to (some regular) s e = λ p n h. inl h
Spares-unlink dest to (some (link there)) s e = elim (Bool-cases (text_eq there to)) [
  | inl l ↦ rw l (λ p n h. elim (Bool-cases (text_eq p dest)) [
    | inl x ↦
        let same : p ≡ dest = eq_of_text_eq p dest x in
        let at : some (link there) ≡ some n = sym e ∙ ap (λ q. node_at q s) (sym same) ∙ h in
        let is : link there ≡ n = cc at in inr (same, sym is ∙ ap link (eq_of_text_eq there to l))
    | inr x ↦ inl (node_at-delete p dest s x ∙ h)
  ])
  | inr l ↦ rw l (λ p n h. inl h)
]

Spares-and_then :
    (P Q : Text → Node → Type 0) (s : Fs) (o : Outcome) (f : Fs → Outcome)
    → Spares P s o.1
    → ((t : Fs) → Spares Q t (f t).1)
    → Spares (λ p n. P p n ⊎ Q p n) s (and_then o f).1
Spares-and_then P Q s (none, t) f k l = λ p n h. elim (k p n h) [
  | inl g ↦ elim (l t p n g) [ inl i ↦ inl i | inr q ↦ inr (inr q) ]
  | inr q ↦ inr (inl q)
]
Spares-and_then P Q s (some e, t) f k l =
    λ p n h. elim (k p n h) [ inl g ↦ inl g | inr q ↦ inr (inl q) ]

Spares-weaken :
    (P Q : Text → Node → Type 0) (s t : Fs)
    → ((p : Text) (n : Node) → P p n → Q p n)
    → Spares P s t
    → Spares Q s t
Spares-weaken P Q s t w k p n h = elim (k p n h) [ inl g ↦ inl g | inr q ↦ inr (w p n q) ]

Spares-remove_link :
    (c : Paths) (j : Job) (f : UsenetFile) (s : Fs)
    → Spares (λ p n. (p ≡ destination c j f) × (n ≡ link (target c j f))) s (remove_link c j f s).1
unfolding remove_link
Spares-remove_link c j f s =
    Spares-weaken (λ p n. ⊥ ⊎ ((p ≡ destination c j f) × (n ≡ link (target c j f)))) _ s _
      (λ p n. λ w. elim w [ inl x ↦ absurd x | inr y ↦ y ])
      (Spares-and_then (λ p n. ⊥) _ s (safe_parents c (destination c j f) s) _
        (λ p n h. inl (Keeps-safe_parents c (destination c j f) s p n h))
        (λ t. Spares-unlink (destination c j f) (target c j f) _ t refl))

Spares-unlink_files :
    (c : Paths) (j : Job) (fs : List UsenetFile) (s : Fs)
    → Spares (IsStaged c j fs) s (unlink_files c j fs s).1
unfolding unlink_files
Spares-unlink_files c j [] s = λ p n h. inl h
Spares-unlink_files c j (f ∷ fs) s =
    Spares-and_then _ (IsStaged c j fs) s (remove_link c j f s) _ (Spares-remove_link c j f s)
      (Spares-unlink_files c j fs)

-- Removing the staged links of a job leaves everything in the file system as it is, except links
-- that stand at the destination of one of the job's files and lead to that file's place in the
-- published catalog: no directory, regular file or foreign link is taken away, also when the
-- removal stops with an error.
pub remove_staged_links_lem :
    (c : Paths) (j : Job) (s : Fs) → Spares (IsStaged c j j.files) s (remove_staged_links c j s).1
unfolding remove_staged_links
remove_staged_links_lem c j s = Spares-unlink_files c j j.files s
