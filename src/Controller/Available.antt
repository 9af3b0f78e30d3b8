-- ===== src/Controller/Available.antt =====
-- When a handler marks a row AVAILABLE.
use rehydrator.Base.{
  ℕ, ◌≤◌, ◌≡◌, refl, sym, ◌∙◌, subst, ◌⊎◌, inl, inr, Bool, true, false, ◌&&◌, ◌||◌, List, [], ◌∷◌,
  if◌then◌else◌, Bool-cases, &&-eq-true, any, All, Text,
}
use rehydrator.Db.Rows.{All-update}
use rehydrator.Db.Rows.Select.{All-any}
use rehydrator.Db.Media.{Item, available, set_items, named, or_empty, is_in}
use rehydrator.Db.Media.Marks.{
  mark_waiting_visibility, mark_available, mark_requested_metadata_pending,
  mark_source_recovery_required, fail_item, is_last_try,
}
use rehydrator.Db.Media.Marks.Backoff.{mark_failed_in_range}
use rehydrator.Controller.{
  Options, Gateway, Fault, recovery_required, other_fault, item_has_usable_path, ready_id,
  rearm_ready, with_probe,
}
use rehydrator.Controller.Outcome.{
  Verdict, metadata_pending, failure, waiting, settled, record_outcome,
}
use rehydrator.Controller.Visibility.{check_visibility, decide_visibility, handle_visibility}

abbrev pub is_settled_outcome : Verdict → Bool
is_settled_outcome (settled hash) = true
is_settled_outcome _ = false

-- what a row of the ID tells when it is AVAILABLE after the outcome
abbrev pub Told : Text → Verdict → Item → Type 0
Told id outcome n =
    named id n ≡ true → is_in available n.state ≡ true → is_settled_outcome outcome ≡ true

marked :
    (now : ℕ) (id : Text) (change : Item → Item) (outcome : Verdict) (rows : List Item)
    → ((n : Item) → is_in available (change n).state ≡ true → is_settled_outcome outcome ≡ true)
    → All (Told id outcome) (set_items now (named id) change rows)
unfolding set_items
marked now id change outcome rows f =
    All-update {0, 0, 0} (λ n. Unit) (Told id outcome) (named id)
      (λ n. record (change n) { updated_at = now }) (λ n u e same open_state. f n open_state)
      (λ n u e same open_state. absurd (cc (sym same ∙ e))) rows
      (All-any (λ n. Unit) rows (λ n. tt))

fail_item-state :
    (now : ℕ) (error : Text) (max_retries : ℕ) (n : Item)
    → is_in available (fail_item now error max_retries n).state ≡ false
unfolding fail_item is_in
fail_item-state now error max_retries n = elim (Bool-cases (is_last_try max_retries n)) [
  | inl e ↦ rw e refl
  | inr e ↦ rw e refl
]

pub record_outcome-Told :
    (o : Options) (now : ℕ) (id : Text) (outcome : Verdict) (rows : List Item)
    → o.max_retries ≤ 27
    → All (Told id outcome) (record_outcome o now id outcome rows)
unfolding record_outcome mark_requested_metadata_pending mark_source_recovery_required
    mark_waiting_visibility mark_available is_in
record_outcome-Told o now id metadata_pending rows few =
    marked now id _ metadata_pending rows (λ n e. absurd (cc e))
record_outcome-Told o now id (Verdict.recovery reasons) rows few =
    marked now id _ (Verdict.recovery reasons) rows (λ n e. absurd (cc e))
record_outcome-Told o now id (failure error) rows few =
    rw ((mark_failed_in_range now id error o.max_retries rows few).0) (
      marked now id (fail_item now error o.max_retries) (failure error) rows
        (λ n e. absurd (cc (sym e ∙ fail_item-state now error o.max_retries n))))
record_outcome-Told o now id (waiting error) rows few =
    marked now id _ (waiting error) rows (λ n e. absurd (cc e))
record_outcome-Told o now id (settled hash) rows few =
    marked now id _ (settled hash) rows (λ n e. refl)

pub if_settled :
    (b : Bool) (x y : Verdict)
    → is_settled_outcome y ≡ false
    → is_settled_outcome (if b then x else y) ≡ true
    → (b ≡ true) × (is_settled_outcome x ≡ true)
if_settled true x y e h = (refl, h)
if_settled false x y e h = absurd (cc (sym e ∙ h))

check_visibility-settled :
    (second first : Bool) (m : Item) (answer : Bool ⊎ Fault)
    → is_settled_outcome (check_visibility second m (with_probe first answer)) ≡ true
    → (answer ≡ inl true) × ((first ≡ true) × (second ≡ true))
check_visibility-settled second first m (inr (recovery_required error)) h = absurd (cc h)
check_visibility-settled second first m (inr (other_fault error)) h = absurd (cc h)
check_visibility-settled second first m (inl false) h = absurd (cc h)
check_visibility-settled second false m (inl true) h = absurd (cc h)
check_visibility-settled true true m (inl true) h = (refl, (refl, refl))
check_visibility-settled false true m (inl true) h = absurd (cc h)

-- a row of the ID that is AVAILABLE
abbrev pub is_available_row : Text → Item → Bool
is_available_row id n = named id n && is_in available n.state

pub Told-of_any :
    (id : Text) (outcome : Verdict) (rows : List Item)
    → All (Told id outcome) rows
    → any (is_available_row id) rows ≡ true
    → is_settled_outcome outcome ≡ true
Told-of_any id outcome [] h e = absurd (cc e)
Told-of_any id outcome (n ∷ rows) h e = elim (Bool-cases (is_available_row id n)) [
  | inl k ↦ let both = &&-eq-true (named id n) (is_in available n.state) k in h.0 (both.0) (both.1)
  | inr k ↦
      Told-of_any id outcome rows h.1
        (subst (λ b. (b || any (is_available_row id) rows) ≡ true) k e)
]

-- After the visibility check of a row, a row of its ID is AVAILABLE only if its path is usable, the
-- gateway answers that the download is ready, and both probes found the path readable. At most 27
-- tries are configured.
pub visible_before_available :
    (o : Options) (g : Gateway) (first second : Bool) (now : ℕ) (m : Item) (rows : List Item)
    → o.max_retries ≤ 27
    → any (is_available_row m.id) (handle_visibility o g first second now m rows) ≡ true
    → (item_has_usable_path m ≡ true)
      × ((g.ready (ready_id m (or_empty m.info_hash)) ≡ inl true)
          × ((first ≡ true) × (second ≡ true)))
unfolding handle_visibility decide_visibility rearm_ready
visible_before_available o g first second now m rows few h =
    let outcome : Verdict = decide_visibility g first second m in
    let step =
      if_settled (item_has_usable_path m)
        (check_visibility second m (rearm_ready g first m (or_empty m.info_hash))) metadata_pending
        refl
        (Told-of_any m.id outcome (record_outcome o now m.id outcome rows)
          (record_outcome-Told o now m.id outcome rows few) h) in
    (
      step.0,
      check_visibility-settled second first m (g.ready (ready_id m (or_empty m.info_hash))) step.1,
    )
