-- ===== src/Csi/Probe/Bounded.antt =====
-- The reads that are outstanding are few, and each on a path of its own.
use rehydrator.Base.{
  ℕ, suc, ◌+◌, ◌≤◌, ◌<◌, max, ◌≡◌, refl, sym, ap, ◌∙◌, subst, inl, inr, false, List, [], ◌∷◌, arith,
  ltb, Bool-cases, ||-eq-false, length, any, Text, text_eq, text_eq_refl, text_eq_swap,
}
use rehydrator.Csi.Probe.{
  ReadProbe, new_read_probe, started, check, without, release, Reads, Takes, here, there, Step,
  begin, return, Reach, stay, next,
}

abbrev pub NoRepeat : List Text → Type 0
NoRepeat [] = Unit
NoRepeat (k ∷ ks) = (any (text_eq k) ks ≡ false) × NoRepeat ks

pub record IsSound (s : Reads) : Type 0 where
  pub known : s.probe.active ≡ s.running
  pub counted : s.probe.slots ≡ length s.running
  pub bounded : s.probe.slots ≤ s.probe.limit
  pub apart : NoRepeat s.running

without_absent : (k : Text) (ks : List Text) → any (text_eq k) ks ≡ false → without k ks ≡ ks
unfolding without
without_absent k [] h = refl
without_absent k (x ∷ xs) h =
    let both = ||-eq-false (text_eq k x) (any (text_eq k) xs) h in
    rw both.0 (ap (λ ys. x ∷ ys) (without_absent k xs both.1))

-- a path that is in no list is not the one taken
Takes-any :
    {path : Text} {ks rest : List Text} (k : Text)
    → Takes path ks rest
    → any (text_eq k) ks ≡ false
    → (text_eq k path ≡ false) × (any (text_eq k) rest ≡ false)
Takes-any {path} k (here {ks}) h = ||-eq-false (text_eq k path) (any (text_eq k) ks) h
Takes-any {path} k (there {k = x} {ks = ks} {rest = rest} t) h =
    let both = ||-eq-false (text_eq k x) (any (text_eq k) ks) h in
    let later = Takes-any k t both.1 in (later.0, rw (both.0, later.1) refl)

Takes-without :
    {path : Text} {ks rest : List Text}
    → Takes path ks rest
    → NoRepeat ks
    → (without path ks ≡ rest) × (length ks ≡ suc (length rest)) × NoRepeat rest
unfolding without
Takes-without {path} (here {ks}) d =
    (rw (text_eq_refl path) (without_absent path ks d.0), refl, d.1)
Takes-without {path} (there {k = x} {ks = ks} {rest = rest} t) d =
    let later = Takes-without t d.1 in
    let apart = Takes-any x t d.0 in
    (
      rw (text_eq_swap x path apart.0) (ap (λ ys. x ∷ ys) later.0),
      ap suc later.1,
      (apart.1, later.2),
    )

-- a check that starts a read
check_started :
    (path : Text) (p q : ReadProbe)
    → check path p ≡ started q
    → (any (text_eq path) p.active ≡ false)
      × (p.slots < p.limit)
      × (q ≡ record p { slots = p.slots + 1; active = path ∷ p.active })
unfolding check
check_started path p q = elim (Bool-cases (any (text_eq path) p.active)) [
  | inl e ↦ rw e (λ h. absurd (cc h))
  | inr e ↦ rw e (elim (Bool-cases (ltb p.slots p.limit)) [
    | inl l ↦ rw l (λ h. (refl, ground (arith, l), cc h))
    | inr l ↦ rw l (λ h. absurd (cc h))
  ])
]

Step-IsSound : {s t : Reads} → Step s t → IsSound s → IsSound t
unfolding release
Step-IsSound (begin {s} {p} path c) i =
    let (free, room, shape) = check_started path s.probe p c in
    subst (λ q. IsSound (record { probe = q; running = path ∷ s.running })) (sym shape)
      (record {
        known = ap (λ ks. path ∷ ks) i.known;
        counted = omega (arith, i.counted);
        bounded = omega (arith, room);
        apart = (ap (any (text_eq path)) (sym i.known) ∙ free, i.apart);
      })
Step-IsSound (return {s} {rest} path t) i =
    let (same, size, apart) = Takes-without t i.apart in
    record {
      known = ap (without path) i.known ∙ same;
      counted = omega (arith, i.counted, size);
      bounded = omega (arith, i.bounded);
      apart = apart;
    }

Reach-IsSound : {s t : Reads} → IsSound s → Reach s t → IsSound t
Reach-IsSound i stay = i
Reach-IsSound i (next r step) = Step-IsSound step (Reach-IsSound i r)

Step-limit : {s t : Reads} → Step s t → t.probe.limit ≡ s.probe.limit
unfolding release
Step-limit (begin {s} {p} path c) = ap (λ q. q.limit) (check_started path s.probe p c).2
Step-limit (return {s} {rest} path t) = refl

Reach-limit : {s t : Reads} → Reach s t → t.probe.limit ≡ s.probe.limit
Reach-limit stay = refl
Reach-limit (next r step) = Step-limit step ∙ Reach-limit r

abbrev pub fresh : ℕ → Reads
fresh limit = record { probe = new_read_probe limit; running = [] }

-- Whatever checks are started on a new probe and in whatever order the reads return, also after
-- their callers have given up, at most `limit` reads are outstanding, or one where the limit is
-- below one, no two of them on one path.
pub reads_bounded :
    (limit : ℕ) {s : Reads}
    → Reach (fresh limit) s
    → (length s.running ≤ max limit 1) × NoRepeat s.running
unfolding new_read_probe
reads_bounded limit {s} r =
    let start : IsSound (fresh limit) = record {
      known = refl;
      counted = refl;
      bounded = omega arith;
      apart = tt;
    } in
    let sound = Reach-IsSound start r in
    (ground (arith, sound.counted, sound.bounded, Reach-limit r), sound.apart)
