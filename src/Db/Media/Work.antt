-- ===== src/Db/Media/Work.antt =====
-- The statements of internal/db/repo.go that claim rows for a worker, and those that queue many
-- rows at once. A claim locks the rows that it selects and skips those that other transactions
-- hold (FOR UPDATE SKIP LOCKED): `locked` tells which, and the claim is one step on the table.
pub mod Apart
use rehydrator.Base.{
  is_positive, All-map, max, ℕ, is_some, zero, suc, ◌+◌, ◌-◌, ◌*◌, ◌%◌, ◌≤◌, ◌<◌, min, ◌≡◌, refl,
  sym, ap, ◌∙◌, subst, ◌≢◌, ◌↔◌, ◌⊎◌, inl, inr, Bool, true, false, not, ◌&&◌, ◌||◌, Option, none,
  some, List, [], ◌∷◌, ◌++◌, map, append-nil, append_assoc, arith, ltb, leb, ◌==◌, if◌then◌else◌,
  ==_iff, ==_refl, leb→le, le→leb, lt→ltb, Bool-cases, Option-cases, &&-eq-true, ||-eq-false,
  length, take, drop, all, any, length-append, length-drop, take-append, String, drop-append, All,
  All-append, ℤ, pos, negsuc, is_negative, int_eq, eq_of_int_eq, Text, codes, text_eq,
  eq_of_text_eq, text_eq_refl, text_eq_iff, text_eq_swap,
}
use rehydrator.Db.Rows.{select_by, rows_affected}
use rehydrator.Db.Media.{
  Item, State, requested, available, hot, cooling, archived, broken, rearming,
  waiting_for_visibility, pruning, failed, is_in, one_of, set_items, null_or_past, expired, named,
  is_tracked, or_empty,
}
use rehydrator.Db.Media.Marks.{is_torrent_row, queue_rearm}

-- m.id = candidates.id for one of the candidates
abbrev pub chosen : List Item → Item → Bool
chosen candidates m = any (λ c. text_eq c.id m.id) candidates

-- What a claim returns (RETURNING, in the order of the candidates) and the table after it.
pub record Claimed : Type 0 where
  pub items : List Item
  pub table : List Item

abbrev pub stamp : ℕ → (Item → Item) → Item → Item
stamp now change m = record (change m) { updated_at = now }

unfoldable pub claim_items :
    ℕ → (Item → Item → Bool) → (Item → Bool) → ℕ → (Item → Item) → List Item → Claimed
unfolding select_by
claim_items now earlier test limit change rows =
    let candidates = select_by earlier test limit rows in
    record {
      items = map (stamp now change) candidates;
      table = set_items now (chosen candidates) change rows;
    }

-- if limit <= 0 { limit = least }; limits are never negative here
abbrev pub at_least : ℕ → ℕ → ℕ
at_least least zero = least
at_least least (suc limit) = suc limit

-- ORDER BY updated_at ASC
abbrev pub updated_earlier : Item → Item → Bool
updated_earlier m n = ltb m.updated_at n.updated_at

unfoldable pub is_due_rearm : ℕ → ℕ → (Item → Bool) → Item → Bool
is_due_rearm now max_retries locked m =
    m.rearm_requested
    && one_of (archived ∷ broken ∷ failed ∷ []) m.state
    && is_tracked m
    && ltb m.retry_count max_retries
    && null_or_past now m.next_retry_at
    && not (locked m)

unfoldable pub start_rearm : ℕ → Item → Item
start_rearm now m = record m { state = rearming; last_checked = some now; last_error = none }

-- RearmWorkItems
unfoldable pub rearm_work_items : ℕ → (Item → Bool) → ℕ → ℕ → List Item → Claimed
unfolding is_due_rearm start_rearm
rearm_work_items now locked limit max_retries =
    claim_items now updated_earlier (is_due_rearm now max_retries locked) (at_least 1 limit)
      (start_rearm now)

unfoldable pub is_due_prune : ℕ → (Item → Bool) → Item → Bool
is_due_prune now locked m =
    is_in available m.state
    && is_torrent_row m
    && not m.rearm_requested
    && expired now m.cached_until
    && not (text_eq (or_empty m.info_hash) [])
    && not (locked m)

unfoldable pub start_prune : ℕ → Item → Item
start_prune now m = record m { state = pruning; last_checked = some now; last_error = none }

-- ORDER BY cached_until ASC; the test leaves no row where it is NULL
abbrev pub date_before : Option ℕ → Option ℕ → Bool
date_before (some s) (some t) = ltb s t
date_before _ _ = false

abbrev pub expires_earlier : Item → Item → Bool
expires_earlier m n = date_before m.cached_until n.cached_until

-- PruneWorkItems
unfoldable pub prune_work_items : ℕ → (Item → Bool) → ℕ → List Item → Claimed
unfolding is_due_prune start_prune
prune_work_items now locked limit =
    claim_items now expires_earlier (is_due_prune now locked) (at_least 1 limit) (start_prune now)

unfoldable pub is_due_visibility : ℕ → (Item → Bool) → Item → Bool
is_due_visibility now locked m =
    is_in waiting_for_visibility m.state
    && m.rearm_requested
    && is_tracked m
    && null_or_past now m.next_retry_at
    && not (locked m)

unfoldable pub note_check : ℕ → Item → Item
note_check now m = record m { last_checked = some now }

-- VisibilityWorkItems
unfoldable pub visibility_work_items : ℕ → (Item → Bool) → ℕ → List Item → Claimed
unfolding is_due_visibility note_check
visibility_work_items now locked limit =
    claim_items now updated_earlier (is_due_visibility now locked) (at_least 1 limit)
      (note_check now)

-- the condition of both statements of a full rearm; a media type has no third value
unfoldable pub is_rearm_candidate : Text → Item → Bool
is_rearm_candidate tenant m =
    text_eq m.tenant tenant
    && is_tracked m
    && one_of (available ∷ hot ∷ cooling ∷ archived ∷ broken ∷ failed ∷ []) m.state

-- CountFullRearmCandidates
unfoldable pub count_full_rearm_candidates : Text → List Item → ℕ
unfolding rows_affected is_rearm_candidate
count_full_rearm_candidates tenant = rows_affected (is_rearm_candidate tenant)

-- QueueFullRearm: the table, and the number of rows affected
unfoldable pub queue_full_rearm : ℕ → Text → List Item → List Item × ℕ
unfolding queue_rearm rows_affected is_rearm_candidate
queue_full_rearm now tenant rows = (
  set_items now (is_rearm_candidate tenant) (queue_rearm now) rows,
  rows_affected (is_rearm_candidate tenant) rows,
)

unfoldable pub is_retryable : Text → Item → Bool
is_retryable tenant m =
    text_eq m.tenant tenant
    && one_of (broken ∷ failed ∷ waiting_for_visibility ∷ []) m.state
    && is_tracked m

unfoldable pub retry_item : Item → Item
retry_item m = record m {
  rearm_requested = if one_of (broken ∷ failed ∷ []) m.state then true else m.rearm_requested;
  retry_count = 0;
  next_retry_at = none;
  last_error = none;
}

-- RetryFailed
unfoldable pub retry_failed : ℕ → Text → ℕ → List Item → List Item × ℕ
unfolding is_retryable retry_item
retry_failed now tenant limit rows =
    let claimed =
      claim_items now updated_earlier (is_retryable tenant) (at_least 10 limit) retry_item rows in
    (claimed.table, length claimed.items)
