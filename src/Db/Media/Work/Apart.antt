-- ===== src/Db/Media/Work/Apart.antt =====
-- Two claims of rearm work, one after the other, and the rows that they return.
use rehydrator.Base.{
  All-map, ℕ, suc, ◌≤◌, ◌≡◌, refl, sym, ap, ◌∙◌, inl, inr, Bool, true, false, ◌||◌, List, [], ◌∷◌,
  map, Bool-cases, length, any, All, text_eq,
}
use rehydrator.Db.Rows.{All-update, select_by}
use rehydrator.Db.Rows.Select.{select_by-All, length-select_by, All-any}
use rehydrator.Db.Media.{Item, set_items, is_in}
use rehydrator.Db.Media.Work.{
  chosen, stamp, claim_items, at_least, updated_earlier, is_due_rearm, start_rearm,
  rearm_work_items, is_due_prune, start_prune, expires_earlier, prune_work_items,
}

-- rows that a claim marked are not selected by a test that the mark fails
apart :
    (now : ℕ) (cs : List Item) (change : Item → Item) (before : Item → Item → Bool)
    (test : Item → Bool) (n : ℕ) (rows : List Item)
    → ((m : Item) → test (stamp now change m) ≡ false)
    → All
        (λ m. chosen cs m ≡ false)
        (select_by before test n (set_items now (chosen cs) change rows))
unfolding set_items
apart now cs change before test n rows shut =
    All-map (λ m. (test m ≡ true → chosen cs m ≡ false) × (test m ≡ true))
      (λ m. chosen cs m ≡ false) (select_by before test n (set_items now (chosen cs) change rows))
      (λ m h. h.0 h.1)
      (select_by-All (λ m. test m ≡ true → chosen cs m ≡ false) before test n
        (set_items now (chosen cs) change rows)
        (All-update {0, 0, 0} (λ m. Unit) (λ m. test m ≡ true → chosen cs m ≡ false) (chosen cs)
          (stamp now change) (λ m u e t. absurd (cc (sym t ∙ shut m))) (λ m u e t. e) rows
          (All-any (λ m. Unit) rows (λ m. tt))))

chosen-stamp :
    (now : ℕ) (change : Item → Item) (cs : List Item) (m : Item)
    → ((c : Item) → (change c).id ≡ c.id)
    → chosen (map (stamp now change) cs) m ≡ chosen cs m
chosen-stamp now change [] m same = refl
chosen-stamp now change (c ∷ cs) m same =
    rw (same c) (ap (λ b. text_eq c.id m.id || b) (chosen-stamp now change cs m same))

All-stamp :
    (P : Item → Type 0) (now : ℕ) (change : Item → Item) (rows : List Item)
    → ((m : Item) → P m → P (stamp now change m))
    → All P rows
    → All P (map (stamp now change) rows)
All-stamp P now change [] f h = tt
All-stamp P now change (m ∷ rows) f h = (f m h.0, All-stamp P now change rows f h.1)

length-stamp :
    (now : ℕ) (change : Item → Item) (rows : List Item)
    → length (map (stamp now change) rows) ≡ length rows
length-stamp now change [] = refl
length-stamp now change (m ∷ rows) = ap suc (length-stamp now change rows)

-- two claims of the same kind, of which the change keeps the IDs
claims_apart :
    (now later : ℕ) (before before_later : Item → Item → Bool) (test test_later : Item → Bool)
    (n n_later : ℕ) (change change_later : Item → Item) (rows : List Item)
    → ((m : Item) → (change m).id ≡ m.id)
    → ((m : Item) → (change_later m).id ≡ m.id)
    → ((m : Item) → test_later (stamp now change m) ≡ false)
    → All
        (λ m. chosen (claim_items now before test n change rows).items m ≡ false)
        (claim_items later before_later test_later n_later change_later
          (claim_items now before test n change rows).table).items
      × (length (claim_items now before test n change rows).items ≤ n)
unfolding claim_items
claims_apart now later before before_later test test_later n n_later change change_later rows same
      same_later shut =
    let cs : List Item = select_by before test n rows in
    let bound : length cs ≤ n = length-select_by before test n rows in
    (
      All-stamp (λ m. chosen (map (stamp now change) cs) m ≡ false) later change_later
          (select_by before_later test_later n_later (set_items now (chosen cs) change rows))
          (λ m h.
            chosen-stamp now change cs (stamp later change_later m) same
            ∙ (ap (λ i. any (λ c. text_eq c.id i) cs) (same_later m)
                ∙ (sym (chosen-stamp now change cs m same) ∙ h)))
          (All-map (λ m. chosen cs m ≡ false) (λ m. chosen (map (stamp now change) cs) m ≡ false)
            (select_by before_later test_later n_later (set_items now (chosen cs) change rows))
            (λ m h. chosen-stamp now change cs m same ∙ h)
            (apart now cs change before_later test_later n_later rows shut)),
      rw (length-stamp now change cs) bound,
    )

-- A second claim of rearm work, at any time and with any limits, returns no row that the first one
-- returned, and the first one returns at most as many rows as its limit, or one if that is zero.
pub rearm_claims_apart :
    (now later : ℕ) (locked locked_later : Item → Bool)
    (limit max_retries limit_later max_later : ℕ) (rows : List Item)
    → All
        (λ m. chosen (rearm_work_items now locked limit max_retries rows).items m ≡ false)
        (rearm_work_items later locked_later limit_later max_later
          (rearm_work_items now locked limit max_retries rows).table).items
      × (length (rearm_work_items now locked limit max_retries rows).items ≤ at_least 1 limit)
unfolding rearm_work_items is_due_rearm start_rearm is_in
rearm_claims_apart now later locked locked_later limit max_retries limit_later max_later rows =
    claims_apart now later updated_earlier updated_earlier (is_due_rearm now max_retries locked)
      (is_due_rearm later max_later locked_later) (at_least 1 limit) (at_least 1 limit_later)
      (start_rearm now) (start_rearm later) rows (λ m. refl) (λ m. refl)
      (λ m. elim (Bool-cases m.rearm_requested) [ inl e ↦ rw e refl | inr e ↦ rw e refl ])

-- A second claim of prune work, at any time and with any limit, returns no row that the first one
-- returned, and the first one returns at most as many rows as its limit, or one if that is zero.
pub prune_claims_apart :
    (now later : ℕ) (locked locked_later : Item → Bool) (limit limit_later : ℕ) (rows : List Item)
    → All
        (λ m. chosen (prune_work_items now locked limit rows).items m ≡ false)
        (prune_work_items later locked_later limit_later
          (prune_work_items now locked limit rows).table).items
      × (length (prune_work_items now locked limit rows).items ≤ at_least 1 limit)
unfolding prune_work_items is_due_prune start_prune is_in
prune_claims_apart now later locked locked_later limit limit_later rows =
    claims_apart now later expires_earlier expires_earlier (is_due_prune now locked)
      (is_due_prune later locked_later) (at_least 1 limit) (at_least 1 limit_later)
      (start_prune now) (start_prune later) rows (λ m. refl) (λ m. refl) (λ m. refl)
