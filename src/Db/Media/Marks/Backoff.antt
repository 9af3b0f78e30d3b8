-- ===== src/Db/Media/Marks/Backoff.antt =====
-- How `MarkFailed` spaces the tries of a row, and when it gives the row up.
use rehydrator.Base.{
  All-map, ℕ, ◌+◌, ◌≤◌, ◌≡◌, refl, sym, ◌∙◌, subst, ◌⊎◌, inl, inr, Bool, false, ◌&&◌, Option, none,
  some, List, [], ◌∷◌, ◌++◌, arith, leb, le→leb, Bool-cases, length, any, All, Text, ◌^◌,
}
use native.Mathlib.Nat.{pow-le-pow_right}
use rehydrator.Db.Media.{Item, failed, set_items, named}
use rehydrator.Db.Rows.{All-update}
use rehydrator.Db.Media.Marks.{backoff, is_last_try, overflows, fail_item, mark_failed}
use rehydrator.Db.Media.Work.{is_due_rearm, start_rearm}

power_small : (n : ℕ) → n ≤ 25 → 2 ^ n ≤ 33554432
power_small n small = pow-le-pow_right {n = 2} (omega arith) small

-- the delay of a row that may be tried again is an int4 as long as there are at most 27 tries
in_range : (max_retries : ℕ) (m : Item) → max_retries ≤ 27 → overflows max_retries m ≡ false
unfolding overflows is_last_try
in_range max_retries m few = elim (Bool-cases (leb max_retries (m.retry_count + 1))) [
  | inl e ↦ rw e refl
  | inr e ↦
      let small : m.retry_count ≤ 25 = ground arith in
      let power : 2 ^ m.retry_count ≤ 33554432 = power_small m.retry_count small in ground arith
]

none_overflow :
    (max_retries : ℕ) (id : Text) (rows : List Item)
    → max_retries ≤ 27
    → any (λ m. named id m && overflows max_retries m) rows ≡ false
none_overflow max_retries id [] few = refl
none_overflow max_retries id (m ∷ rows) few =
    rw (in_range max_retries m few, none_overflow max_retries id rows few)
      (elim (Bool-cases (named id m)) [ inl e ↦ rw e refl | inr e ↦ rw e refl ])

pub mark_failed_in_range :
    (now : ℕ) (id error : Text) (max_retries : ℕ) (rows : List Item)
    → max_retries ≤ 27
    → (mark_failed now id error max_retries rows
        ≡ some (set_items now (named id) (fail_item now error max_retries) rows))
      × ((m : Item) → (60 ≤ backoff m.retry_count) × (backoff m.retry_count ≤ 3600))
unfolding mark_failed backoff
mark_failed_in_range now id error max_retries rows few =
    (rw (none_overflow max_retries id rows few) refl, λ m. (ground arith, ground arith))

-- one try of a row: it is claimed at one time, and fails at another with an error
pub record Try : Type 0 where
  pub start : ℕ
  pub end : ℕ
  pub error : Text

-- the claim of the row and MarkFailed after it, on the table
unfoldable pub try_row : ℕ → Text → Try → List Item → Option (List Item)
try_row max_retries id t rows =
    mark_failed t.end id t.error max_retries
      (set_items t.start (named id) (start_rearm t.start) rows)

abbrev pub then_rows : Option (List Item) → (List Item → Option (List Item)) → Option (List Item)
then_rows none f = none
then_rows (some rows) f = f rows

unfoldable pub try_rows : ℕ → Text → List Try → List Item → Option (List Item)
unfolding try_row
try_rows max_retries id [] rows = some rows
try_rows max_retries id (t ∷ ts) rows =
    then_rows (try_row max_retries id t rows) (λ after. try_rows max_retries id ts after)

-- rows of the ID are at most `left` tries before the limit
abbrev IsNear : ℕ → Text → ℕ → Item → Type 0
IsNear max_retries id left m = (named id m ≡ false) ⊎ (max_retries ≤ m.retry_count + left)

-- rows of the ID are FAILED, and beyond the limit
abbrev IsOver : ℕ → Text → Item → Type 0
IsOver max_retries id m =
    (named id m ≡ false) ⊎ ((m.state ≡ failed) × (max_retries ≤ m.retry_count))

try_row-some :
    (max_retries : ℕ) (id : Text) (t : Try) (rows : List Item)
    → max_retries ≤ 27
    → try_row max_retries id t rows
      ≡ some (
          set_items t.end
            (named id)
            (fail_item t.end t.error max_retries)
            (set_items t.start (named id) (start_rearm t.start) rows))
unfolding try_row
try_row-some max_retries id t rows few =
    (mark_failed_in_range t.end id t.error max_retries
      (set_items t.start (named id) (start_rearm t.start) rows) few).0

-- one more failure brings the rows of the ID one try nearer to the limit
IsNear-step :
    (max_retries : ℕ) (id : Text) (t : Try) (left : ℕ) (rows : List Item)
    → All (IsNear max_retries id (left + 1)) rows
    → All (IsNear max_retries id left) (
        set_items t.end
          (named id)
          (fail_item t.end t.error max_retries)
          (set_items t.start (named id) (start_rearm t.start) rows))
unfolding set_items fail_item start_rearm
IsNear-step max_retries id t left rows h =
    All-update (IsNear max_retries id (left + 1)) (IsNear max_retries id left) (named id) _
      (λ m p e. elim p [ inl x ↦ absurd (cc (sym x ∙ e)) | inr x ↦ inr (omega arith) ])
      (λ m p e. inl e) _
      (All-update (IsNear max_retries id (left + 1)) (IsNear max_retries id (left + 1)) (named id) _
        (λ m p e. p) (λ m p e. p) rows h)

last_step :
    (max_retries : ℕ) (id : Text) (t : Try) (rows : List Item)
    → All (IsNear max_retries id 1) rows
    → All (IsOver max_retries id) (
        set_items t.end
          (named id)
          (fail_item t.end t.error max_retries)
          (set_items t.start (named id) (start_rearm t.start) rows))
unfolding set_items fail_item start_rearm is_last_try
last_step max_retries id t rows h =
    All-update (IsNear max_retries id 1) (IsOver max_retries id) (named id) _
      (λ m p e. elim p [
        | inl x ↦ absurd (cc (sym x ∙ e))
        | inr x ↦ inr (rw (le→leb max_retries (m.retry_count + 1) x) refl, omega arith)
      ])
      (λ m p e. inl e) _
      (All-update (IsNear max_retries id 1) (IsNear max_retries id 1) (named id) _ (λ m p e. p)
        (λ m p e. p) rows h)

tries-IsOver :
    (max_retries : ℕ) (id : Text) (ts : List Try) (t : Try) (rows : List Item)
    → max_retries ≤ 27
    → All (IsNear max_retries id (length ts + 1)) rows
    → (after : List Item) × (try_rows max_retries id (ts ++ (t ∷ [])) rows ≡ some after)
      × All (IsOver max_retries id) after
unfolding try_rows
tries-IsOver max_retries id [] t rows few h =
    rw (try_row-some max_retries id t rows few) (_, refl, last_step max_retries id t rows h)
tries-IsOver max_retries id (u ∷ ts) t rows few h = rw (try_row-some max_retries id u rows few) (
    tries-IsOver max_retries id ts t _ few (
      IsNear-step max_retries id u (length ts + 1) rows
        (subst (λ n. All (IsNear max_retries id n) rows) (omega arith) h)))

not_due :
    (now max_retries : ℕ) (locked : Item → Bool) (m : Item)
    → max_retries ≤ m.retry_count
    → is_due_rearm now max_retries locked m ≡ false
unfolding is_due_rearm
not_due now max_retries locked m over = ground arith

-- A row is claimed and its rearm fails, as often as its limit of tries allows, the limit being 27
-- at most. No failure is refused by the database, and after the last one every row of that ID is
-- FAILED and no claim of rearm work selects it again.
pub tries_end :
    (max_retries : ℕ) (id : Text) (ts : List Try) (t : Try) (rows : List Item) (now : ℕ)
    (locked : Item → Bool)
    → max_retries ≤ 27
    → All (λ m. (named id m ≡ false) ⊎ (max_retries ≤ m.retry_count + (length ts + 1))) rows
    → (after : List Item) × (try_rows max_retries id (ts ++ (t ∷ [])) rows ≡ some after)
      × All
          (λ m.
            (named id m ≡ false)
            ⊎ ((m.state ≡ failed) × (is_due_rearm now max_retries locked m ≡ false)))
          after
tries_end max_retries id ts t rows now locked few near =
    let (after, e, over) = tries-IsOver max_retries id ts t rows few near in
    (
      after,
      e,
      All-map (IsOver max_retries id) _ after
          (λ m p. elim p [
            | inl x ↦ inl x
            | inr x ↦ inr (x.0, not_due now max_retries locked m x.1)
          ])
          over,
    )
