-- ===== src/Db/Media/Health/Counted.antt =====
-- The rows of a table that are queued for a rearm, and what an UPDATE does to their number.
use rehydrator.Base.{
  ℕ, ◌+◌, ◌≤◌, ◌≡◌, refl, ◌∙◌, subst, inl, inr, Bool, true, false, ◌&&◌, List, [], ◌∷◌, arith,
  Bool-cases, ||-eq-false, any, Text, eq_of_text_eq,
}
use rehydrator.Db.Rows.{update, rows_affected}
use rehydrator.Db.Media.{Item, broken, is_in, set_items, named}

-- a row that is queued for a rearm of its lost file
abbrev pub is_queued : Item → Bool
is_queued m = is_in broken m.state && m.rearm_requested

unfoldable pub queued_rows : List Item → ℕ
unfolding rows_affected
queued_rows rows = rows_affected is_queued rows

abbrev pub has_id : Text → List Item → Bool
has_id id rows = any (named id) rows

-- the ID is the primary key
unfoldable pub Keyed : List Item → Type 0
Keyed [] = Unit
Keyed (m ∷ rows) = (has_id m.id rows ≡ false) × Keyed rows

pub has_id-set_items :
    (now : ℕ) (test : Item → Bool) (change : Item → Item) (id : Text) (rows : List Item)
    → ((m : Item) → (change m).id ≡ m.id)
    → has_id id (set_items now test change rows) ≡ has_id id rows
unfolding set_items update
has_id-set_items now test change id [] same = refl
has_id-set_items now test change id (m ∷ rows) same =
    let ih : has_id id (set_items now test change rows) ≡ has_id id rows =
      has_id-set_items now test change id rows same in
    elim (Bool-cases (test m)) [ inl e ↦ rw (e, same m, ih) refl | inr e ↦ rw (e, ih) refl ]

pub Keyed-set_items :
    (now : ℕ) (test : Item → Bool) (change : Item → Item) (rows : List Item)
    → ((m : Item) → (change m).id ≡ m.id)
    → Keyed rows
    → Keyed (set_items now test change rows)
unfolding Keyed set_items update
Keyed-set_items now test change [] same k = tt
Keyed-set_items now test change (m ∷ rows) same k =
    let rest = Keyed-set_items now test change rows same k.1 in
    let ids = has_id-set_items now test change m.id rows same in
    elim (Bool-cases (test m)) [
      | inl e ↦ rw (e, same m) (ids ∙ k.0, rest)
      | inr e ↦ rw e (ids ∙ k.0, rest)
    ]

-- an update to rows that are not queued queues none
pub queued_rows-moved :
    (now : ℕ) (test : Item → Bool) (change : Item → Item) (rows : List Item)
    → ((m : Item) → is_queued (record (change m) { updated_at = now }) ≡ false)
    → queued_rows (set_items now test change rows) ≤ queued_rows rows
unfolding queued_rows set_items update rows_affected
queued_rows-moved now test change [] moved = omega arith
queued_rows-moved now test change (m ∷ rows) moved =
    let ih = queued_rows-moved now test change rows moved in
    elim (Bool-cases (test m)) [
      | inl e ↦
          rw (e, moved m)
            (elim (Bool-cases (is_queued m)) [ inl q ↦ rw q (omega arith) | inr q ↦ rw q ih ])
      | inr e ↦
          rw e (elim (Bool-cases (is_queued m)) [ inl q ↦ rw q (omega arith) | inr q ↦ rw q ih ])
    ]

-- an update queues at most the rows that it affects
pub queued_rows-affected :
    (now : ℕ) (test : Item → Bool) (change : Item → Item) (rows : List Item)
    → queued_rows (set_items now test change rows) ≤ queued_rows rows + rows_affected test rows
unfolding queued_rows set_items update rows_affected
queued_rows-affected now test change [] = omega arith
queued_rows-affected now test change (m ∷ rows) =
    let ih = queued_rows-affected now test change rows in
    elim (Bool-cases (test m)) [
      | inl e ↦ rw e (elim (Bool-cases (is_queued (record (change m) { updated_at = now }))) [
        | inl r ↦ rw r (elim (Bool-cases (is_queued m)) [
          | inl q ↦ rw q (omega arith)
          | inr q ↦ rw q (omega arith)
        ])
        | inr r ↦ rw r (elim (Bool-cases (is_queued m)) [
          | inl q ↦ rw q (omega arith)
          | inr q ↦ rw q (omega arith)
        ])
      ])
      | inr e ↦
          rw e (elim (Bool-cases (is_queued m)) [ inl q ↦ rw q (omega arith) | inr q ↦ rw q ih ])
    ]

none_affected :
    (test : Item → Bool) (id : Text) (rows : List Item)
    → ((m : Item) → test m ≡ true → named id m ≡ true)
    → has_id id rows ≡ false
    → rows_affected test rows ≡ 0
unfolding rows_affected
none_affected test id [] f h = refl
none_affected test id (m ∷ rows) f h =
    let (here, later) = ||-eq-false (named id m) (has_id id rows) h in
    elim (Bool-cases (test m)) [
      | inl e ↦ absurd (cc (f m e, here))
      | inr e ↦ rw e (none_affected test id rows f later)
    ]

-- an update of one ID affects one row
pub one_affected :
    (test : Item → Bool) (id : Text) (rows : List Item)
    → ((m : Item) → test m ≡ true → named id m ≡ true)
    → Keyed rows
    → rows_affected test rows ≤ 1
unfolding rows_affected Keyed
one_affected test id [] f k = omega arith
one_affected test id (m ∷ rows) f k = elim (Bool-cases (test m)) [
  | inl e ↦
      let here : m.id ≡ id = eq_of_text_eq m.id id (f m e) in
      let rest : rows_affected test rows ≡ 0 =
        none_affected test id rows f (subst (λ i. has_id i rows ≡ false) here k.0) in
      rw e (omega arith)
  | inr e ↦ rw e (one_affected test id rows f k.1)
]
