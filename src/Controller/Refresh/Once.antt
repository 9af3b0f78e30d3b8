-- ===== src/Controller/Refresh/Once.antt =====
-- A path is refreshed once in a window.
use rehydrator.Base.{
  ℕ, ◌+◌, ◌*◌, ◌≤◌, ◌<◌, ◌≡◌, refl, sym, ◌∙◌, subst, inl, inr, Bool, true, false, not, ◌&&◌, ◌||◌,
  Option, none, some, List, [], ◌∷◌, arith, ltb, ◌==◌, if◌then◌else◌, ==_refl, Bool-cases,
  &&-eq-true, any, All, Text, text_eq, eq_of_text_eq, text_eq_refl, text_eq_swap,
}
use rehydrator.Db.Rows.{filter}
use rehydrator.Controller.Refresh.{
  Reservation, purge, is_reserved, delete_key, put_key, after_query, reserve_refresh,
}

-- a call: its time, its key, and the answer of the database
pub record Call : Type 0 where
  pub time : ℕ
  pub key : Text
  pub recent : Option Bool

-- the answers to the calls with the key, one after the other with the calls of other keys
unfoldable pub answers : ℕ → Text → List Call → List Reservation → List Bool
answers minutes key [] es = []
answers minutes key (c ∷ cs) es =
    let done = reserve_refresh c.time minutes c.key c.recent es in
    let rest = answers minutes key cs (done.0) in if text_eq c.key key then done.1 ∷ rest else rest

abbrev is_entry : Text → ℕ → Reservation → Bool
is_entry key until r = text_eq r.key key && (r.until == until)

any-filter :
    (p q : Reservation → Bool) (es : List Reservation)
    → ((r : Reservation) → p r ≡ true → q r ≡ true)
    → any p es ≡ true
    → any p (filter q es) ≡ true
any-filter p q [] f h = h
any-filter p q (r ∷ es) f h = elim (Bool-cases (p r)) [
  | inl e ↦ rw (f r e, e) refl
  | inr e ↦
      let rest = any-filter p q es f (subst (λ b. (b || any p es) ≡ true) e h) in
      elim (Bool-cases (q r)) [ inl k ↦ rw (k, e) rest | inr k ↦ rw k rest ]
]

any-imp :
    (p q : Reservation → Bool) (es : List Reservation)
    → ((r : Reservation) → p r ≡ true → q r ≡ true)
    → any p es ≡ true
    → any q es ≡ true
any-imp p q [] f h = h
any-imp p q (r ∷ es) f h = elim (Bool-cases (p r)) [
  | inl e ↦ rw (f r e) refl
  | inr e ↦
      rw (any-imp p q es f (subst (λ b. (b || any p es) ≡ true) e h))
        (elim (Bool-cases (q r)) [ inl k ↦ rw k refl | inr k ↦ rw k refl ])
]

purge_keeps :
    (now until : ℕ) (key : Text) (es : List Reservation)
    → now < until
    → any (is_entry key until) es ≡ true
    → any (is_entry key until) (purge now es) ≡ true
unfolding purge
purge_keeps now until key es early =
    any-filter (is_entry key until) (λ r. not (ltb r.until now)) es (λ r h. ground arith)

still_reserved :
    (now until : ℕ) (key : Text) (es : List Reservation)
    → now < until
    → any (is_entry key until) es ≡ true
    → is_reserved now key es ≡ true
unfolding is_reserved
still_reserved now until key es early =
    any-imp (is_entry key until) (λ r. text_eq r.key key && ltb now r.until) es
      (λ r h. ground arith)

other_key :
    (key other k : Text)
    → text_eq other key ≡ false
    → text_eq k key ≡ true
    → text_eq k other ≡ false
other_key key other k apart same = rw (eq_of_text_eq k key same) (text_eq_swap other key apart)

delete_keeps :
    (until : ℕ) (key other : Text) (es : List Reservation)
    → text_eq other key ≡ false
    → any (is_entry key until) es ≡ true
    → any (is_entry key until) (delete_key other es) ≡ true
unfolding delete_key
delete_keeps until key other es apart =
    any-filter (is_entry key until) (λ r. not (text_eq r.key other)) es
      (λ r h.
        rw
          (other_key key other r.key apart
            ((&&-eq-true (text_eq r.key key) (r.until == until) h).0))
          refl)

-- a call of another key
other_keeps :
    (until : ℕ) (key other : Text) (at : ℕ) (recent : Option Bool) (es : List Reservation)
    → text_eq other key ≡ false
    → any (is_entry key until) es ≡ true
    → any (is_entry key until) ((after_query other (put_key other at es) recent).0) ≡ true
unfolding put_key
other_keeps until key other at none es apart h =
    rw (apart, delete_keeps until key other es apart h) refl
other_keeps until key other at (some false) es apart h =
    rw (apart, delete_keeps until key other es apart h) refl
other_keeps until key other at (some true) es apart h =
    delete_keeps until key other (put_key other at es) apart
      (rw (apart, delete_keeps until key other es apart h) refl)

-- a call before the end of a reservation keeps it, and is refused if its key is the reserved one
during :
    (now minutes until : ℕ) (key other : Text) (recent : Option Bool) (es : List Reservation)
    → 1 ≤ minutes
    → now < until
    → any (is_entry key until) es ≡ true
    → (any (is_entry key until) ((reserve_refresh now minutes other recent es).0) ≡ true)
      × (text_eq other key && (reserve_refresh now minutes other recent es).1 ≡ false)
unfolding reserve_refresh
during now minutes until key other recent es some_minutes early h =
    let window : (minutes == 0) ≡ false = ground arith in
    let kept : any (is_entry key until) (purge now es) ≡ true =
      purge_keeps now until key es early h in
    rw window (elim (Bool-cases (is_reserved now other (purge now es))) [
      | inl e ↦ rw e (kept, refused (text_eq other key))
      | inr e ↦ rw e (elim (Bool-cases (text_eq other key)) [
        | inl k ↦ absurd (
            cc (
              sym e
              ∙ subst (λ t. is_reserved now t (purge now es) ≡ true)
                  (sym (eq_of_text_eq other key k))
                  (still_reserved now until key (purge now es) early kept)))
        | inr k ↦ (
          other_keeps until key other (now + minutes * 60) recent (purge now es) k kept,
          rw k refl,
        )
      ])
    ])
  where
    refused : (b : Bool) → (b && false) ≡ false
    refused true = refl
    refused false = refl

every_refused :
    (minutes until : ℕ) (key : Text) (cs : List Call) (es : List Reservation)
    → 1 ≤ minutes
    → All (λ c. c.time < until) cs
    → any (is_entry key until) es ≡ true
    → All (λ b. b ≡ false) (answers minutes key cs es)
unfolding answers
every_refused minutes until key [] es some_minutes early h = tt
every_refused minutes until key (c ∷ cs) es some_minutes early h =
    let step = during c.time minutes until key c.key c.recent es some_minutes early.0 h in
    let rest =
      every_refused minutes until key cs ((reserve_refresh c.time minutes c.key c.recent es).0)
        some_minutes early.1 step.0 in
    elim (Bool-cases (text_eq c.key key)) [
      | inl k ↦ rw k (
        subst (λ b. (b && (reserve_refresh c.time minutes c.key c.recent es).1) ≡ false) k (step.1),
        rest,
      )
      | inr k ↦ rw k rest
    ]

put_entry :
    (until : ℕ) (key : Text) (es : List Reservation)
    → any (is_entry key until) (put_key key until es) ≡ true
unfolding put_key
put_entry until key es = rw (text_eq_refl key, ==_refl until) refl

granted_entry :
    (now minutes : ℕ) (key : Text) (recent : Option Bool) (es : List Reservation)
    → 1 ≤ minutes
    → (reserve_refresh now minutes key recent es).1 ≡ true
    → any (is_entry key (now + minutes * 60)) ((reserve_refresh now minutes key recent es).0) ≡ true
unfolding reserve_refresh
granted_entry now minutes key recent es some_minutes =
    let window : (minutes == 0) ≡ false = ground arith in
    rw window (elim (Bool-cases (is_reserved now key (purge now es))) [
      | inl e ↦ rw e (λ h. absurd (cc h))
      | inr e ↦ rw e (λ h. entry recent h)
    ])
  where
    entry :
        (answer : Option Bool)
        → (after_query key (put_key key (now + minutes * 60) (purge now es)) answer).1 ≡ true
        → any
            (is_entry key (now + minutes * 60))
            ((after_query key (put_key key (now + minutes * 60) (purge now es)) answer).0)
          ≡ true
    entry (some true) h = absurd (cc h)
    entry (some false) h = put_entry (now + minutes * 60) key (purge now es)
    entry none h = put_entry (now + minutes * 60) key (purge now es)

-- Once the refresh of a path is reserved, every further call for that path is refused before the
-- window is over, whatever other paths are reserved in between and whatever the database answers.
pub once_in_window :
    (now minutes : ℕ) (key : Text) (recent : Option Bool) (es : List Reservation) (cs : List Call)
    → 1 ≤ minutes
    → (reserve_refresh now minutes key recent es).1 ≡ true
    → All (λ c. c.time < now + minutes * 60) cs
    → All (λ b. b ≡ false) (answers minutes key cs ((reserve_refresh now minutes key recent es).0))
once_in_window now minutes key recent es cs some_minutes h early =
    every_refused minutes (now + minutes * 60) key cs
      ((reserve_refresh now minutes key recent es).0) some_minutes early
      (granted_entry now minutes key recent es some_minutes h)
