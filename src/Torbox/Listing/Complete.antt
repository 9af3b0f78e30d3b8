-- ===== src/Torbox/Listing/Complete.antt =====
-- When the account listing finds a torrent unavailable.
use rehydrator.Base.{
  is_positive, ℕ, is_some, zero, suc, ◌+◌, ◌≡◌, refl, ap, ◌∙◌, ◌⊎◌, inl, inr, Bool, true, false,
  not, ◌&&◌, Option, none, some, List, [], ◌∷◌, ◌++◌, arith, ◌==◌, if◌then◌else◌, ==_iff,
  Bool-cases, Option-cases, &&-eq-true, length, All, All-append, ℤ, Text, text_eq, eq_of_text_eq,
  text_eq_swap,
}
use rehydrator.Torbox.Listing.{
  normalize_info_hash, Availability, available, unavailable, unknown, Observation, Entry, Page,
  unusable, entries, States, get, put, key_of, is_active, is_available, is_unavailable,
  active_download, judge_present, judge, observe, Progress, note, absorb, is_matched, read_page,
  after_page, for_page, list_pages, wanted, list_wanted, availability,
}

-- The pages from one on, up to and with the empty page that ends the listing, in one list.
pub data Listed (fetch : ℕ → ℕ → Page) : ℕ → ℕ → List Entry → Type 0 where
  ends : {page offset : ℕ} → fetch page offset ≡ entries [] → Listed fetch page offset []
  more :
      {page offset : ℕ} {es rest : List Entry}
      → fetch page offset ≡ entries es
      → Listed fetch (page + 1) (offset + length es) rest
      → Listed fetch page offset (es ++ rest)

-- The provider says that the data is not there, and no download is running.
abbrev pub IsGone : Entry → Type 0
IsGone e = (e.present ≡ some false) × (is_active e ≡ false)

-- every entry with the hash is gone
abbrev pub AllGone : Text → List Entry → Type 0
AllGone h = All (λ e. text_eq (key_of e) h ≡ true → IsGone e)

abbrev is_lost : Option Observation → Bool
is_lost none = false
is_lost (some o) = is_unavailable o.status

-- the result finds the hash unavailable
abbrev pub lost : Text → States → Bool
lost h s = is_lost (get h s)

lost_empty : (h : Text) → lost h [] ≡ false
unfolding get
lost_empty h = refl

exclusive : (a : Availability) → is_available a ≡ true → is_unavailable a ≡ false
exclusive available h = refl
exclusive unavailable h = ground arith
exclusive unknown h = ground arith

active_download_lem :
    (e : Entry) (o : Observation) → is_unavailable (active_download e o).status ≡ false
active_download_lem e o = elim (Bool-cases (is_available o.status)) [
  | inl a ↦ rw a (exclusive o.status a)
  | inr a ↦ rw a refl
]

judge_lem :
    (p : Option Bool) (e : Entry) (o : Observation)
    → is_unavailable (judge_present p e o).status ≡ true
    → (is_unavailable o.status ≡ true) × (p ≡ some false) × (is_active e ≡ false)
judge_lem none e o = λ h. absurd (cc (h, active_download_lem e o))
judge_lem (some true) e o = λ h. ground arith
judge_lem (some false) e o = elim (Bool-cases (is_active e)) [
  | inl a ↦ rw a (λ h. absurd (cc (h, active_download_lem e o)))
  | inr a ↦ elim (Bool-cases (is_unavailable o.status)) [
    | inl u ↦ λ h. (u, refl, a)
    | inr u ↦ rw (a, u) (λ h. absurd (cc (h, u)))
  ]
]

text_eq_trans : (s t u : Text) → text_eq s t ≡ true → text_eq s u ≡ text_eq t u
text_eq_trans s t u h = ap (λ v. text_eq v u) (eq_of_text_eq s t h)

get-put :
    (h k : Text) (o : Observation) (s : States)
    → get h (put k o s) ≡ (if text_eq h k then some o else get h s)
unfolding get put
get-put h k o [] = refl
get-put h k o ((j, p) ∷ s) = elim (Bool-cases (text_eq k j)) [
  | inl e ↦
      let same : text_eq h k ≡ text_eq h j = ap (text_eq h) (eq_of_text_eq k j e) in
      rw e (rw same (elim (Bool-cases (text_eq h j)) [ inl f ↦ rw f refl | inr f ↦ rw f refl ]))
  | inr e ↦ rw e (
      rw (get-put h k o s) (elim (Bool-cases (text_eq h k)) [
        | inl f ↦ rw f (rw (text_eq_trans h k j f ∙ e) refl)
        | inr f ↦ rw f refl
      ]))
]

-- an observation of one entry
observe_lem :
    (h : Text) (e : Entry) (s : States)
    → lost h (observe e s) ≡ true
    → (lost h s ≡ true) × (text_eq (key_of e) h ≡ true → IsGone e)
unfolding observe
observe_lem h e s = elim (Option-cases (get (key_of e) s)) [
  | inl n ↦ rw n (λ l. (
    l,
    λ k. absurd (cc (l, ap is_lost n, ap (λ u. is_lost (get u s)) (eq_of_text_eq (key_of e) h k))),
  ))
  | inr (o, g) ↦ rw g (
      rw (get-put h (key_of e) (judge e o) s) (elim (Bool-cases (text_eq h (key_of e))) [
        | inl k ↦ rw k (λ l.
            let u = judge_lem e.present e o l in
            (
              cc (u.0, ap is_lost g, ap (λ v. is_lost (get v s)) (eq_of_text_eq h (key_of e) k)),
              λ _. (u.1, u.2),
            ))
        | inr k ↦ rw k (λ l. (l, λ e'. absurd (cc (e', text_eq_swap h (key_of e) k))))
      ]))
]

abbrev states_or : Option Progress → States
states_or none = []
states_or (some p) = p.states

absorb_lem :
    (h : Text) (es : List Entry) (p q : Progress)
    → absorb es p ≡ some q
    → lost h q.states ≡ true
    → (lost h p.states ≡ true) × AllGone h es
unfolding absorb note
absorb_lem h [] p q = λ e l. (cc (l, ap (λ r. lost h r.states) (some_is e)), tt)
  where
    some_is : some p ≡ some q → p ≡ q
    some_is e = cc e
absorb_lem h (x ∷ es) p q =
    elim (Bool-cases (is_positive x.id && is_some (normalize_info_hash (key_of x)))) [
      | inl i ↦ rw i (λ e l.
          let after = absorb_lem h es (note x p) q e l in
          let here = observe_lem h x p.states after.0 in (here.0, (here.1, after.1)))
      | inr i ↦ rw i (λ e l. absurd (cc e))
    ]

matched_head :
    (i : ℤ) (a : Availability)
    → (is_positive i && not (is_unavailable a)) ≡ true
    → is_unavailable a ≡ false
matched_head i a m = ground (arith, &&-eq-true (is_positive i) (not (is_unavailable a)) m)

is_matched_lem : (h : Text) (s : States) → is_matched s ≡ true → lost h s ≡ false
unfolding is_matched get
is_matched_lem h [] m = refl
is_matched_lem h ((k, o) ∷ s) m = elim (Bool-cases (text_eq h k)) [
  | inl e ↦ rw e (matched_head o.torrent_id o.status (&&-eq-true _ _ m).0)
  | inr e ↦ rw e (is_matched_lem h s (&&-eq-true _ _ m).1)
]

after_page_lem :
    (h : Text) (stop : Bool) (size : ℕ) (p : Progress) (rest : Option States) (t : States)
    → after_page stop size p rest ≡ some t
    → lost h t ≡ true
    → ((size ≡ 0) × (p.states ≡ t)) ⊎ (rest ≡ some t)
unfolding after_page
after_page_lem h stop size p rest t = elim (Bool-cases (stop && is_matched p.states)) [
  | inl m ↦ rw m (λ e l.
      let same : p.states ≡ t = cc e in
      absurd (
        cc (
          l,
          ap (lost h) same,
          is_matched_lem h p.states (&&-eq-true stop (is_matched p.states) m).1,
        )))
  | inr m ↦ rw m (elim (Bool-cases (size == 0)) [
    | inl z ↦ rw z (λ e l. inl ((==_iff size 0).0 z, cc e))
    | inr z ↦ rw z (elim (Bool-cases (p.fresh == 0)) [
      | inl w ↦ rw w (λ e l. absurd (cc e))
      | inr w ↦ rw w (λ e l. inr e)
    ])
  ])
]

-- the pages that a result rests on
abbrev pub Rests : (ℕ → ℕ → Page) → Text → ℕ → ℕ → Type 0
Rests fetch h page offset = (es : List Entry) × Listed fetch page offset es × AllGone h es

empty_of_length : (xs : List Entry) → length xs ≡ 0 → xs ≡ []
empty_of_length [] z = refl
empty_of_length (x ∷ xs) z = ground arith

abbrev page_start : List ℤ → States → Progress
page_start seen s = record { seen = seen; states = s; fresh = 0 }

read_page_lem :
    (stop : Bool) (fetch : ℕ → ℕ → Page) (h : Text) (left page offset : ℕ) (seen : List ℤ)
    (s t : States) (answer : Page)
    → fetch page offset ≡ answer
    → ((q : Progress) (n : ℕ)
        → list_pages stop fetch left (page + 1) n q.seen q.states ≡ some t
        → (lost h q.states ≡ true) × Rests fetch h (page + 1) n)
    → for_page stop
        (read_page seen s answer)
        (λ size p. list_pages stop fetch left (page + 1) (offset + size) p.seen p.states)
      ≡ some t
    → lost h t ≡ true
    → (lost h s ≡ true) × Rests fetch h page offset
unfolding read_page
read_page_lem stop fetch h left page offset seen s t unusable a ih = λ e l. absurd (cc e)
read_page_lem stop fetch h left page offset seen s t (entries es) a ih =
    elim (Option-cases (absorb es (page_start seen s))) [
      | inl n ↦ rw n (λ e l. absurd (cc e))
      | inr (p, q) ↦ rw q (λ e l. elim (after_page_lem h stop (length es) p _ t e l) [
        | inl (z, same) ↦
            let found = absorb_lem h es (page_start seen s) p q (ap (lost h) same ∙ l) in
            (found.0, ([], ends (a ∙ ap entries (empty_of_length es z)), tt))
        | inr r ↦
            let later = ih p (offset + length es) r in
            let found = absorb_lem h es (page_start seen s) p q later.0 in
            (
              found.0,
              (es ++ later.1.0, more a later.1.1, All-append _ es later.1.0 found.1 later.1.2),
            )
      ])
    ]

list_pages_lem :
    (stop : Bool) (fetch : ℕ → ℕ → Page) (h : Text) (left page offset : ℕ) (seen : List ℤ)
    (s t : States)
    → list_pages stop fetch left page offset seen s ≡ some t
    → lost h t ≡ true
    → (lost h s ≡ true) × Rests fetch h page offset
unfolding list_pages
list_pages_lem stop fetch h zero page offset seen s t e l = absurd (cc e)
list_pages_lem stop fetch h (suc left) page offset seen s t e l =
    read_page_lem stop fetch h left page offset seen s t (fetch page offset) refl
      (λ q n r. list_pages_lem stop fetch h left (page + 1) n q.seen q.states t r l) e l

-- If the availability check finds a hash unavailable, then the whole account was listed, from the
-- first page to an empty one, and the provider reported every entry with that hash as not present
-- and not in download.
pub unavailable_lem :
    (stop : Bool) (fetch : ℕ → ℕ → Page) (hashes : List Text) (h : Text) (t : States)
    → availability stop fetch hashes ≡ some t
    → lost h t ≡ true
    → Rests fetch h 0 0
unfolding availability
unavailable_lem stop fetch hashes h t = from_wanted (wanted hashes [])
  where
    from_wanted :
        (w : Option States)
        → list_wanted stop fetch w ≡ some t
        → lost h t ≡ true
        → Rests fetch h 0 0
    from_wanted none e l = absurd (cc e)
    from_wanted (some []) e l =
        let same : [] ≡ t = cc e in absurd (cc (l, ap (lost h) same, lost_empty h))
    from_wanted (some (x ∷ xs)) e l = (list_pages_lem stop fetch h 100 0 0 [] (x ∷ xs) t e l).1
