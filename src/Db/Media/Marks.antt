-- ===== src/Db/Media/Marks.antt =====
-- The statements of internal/db/repo.go that record the outcome of work on one row. `error` and
-- `reason` are the texts that the source stores as last_error.
pub mod Backoff
use rehydrator.Base.{
  ◌^◌, is_positive, All-map, max, ℕ, is_some, zero, suc, ◌+◌, ◌-◌, ◌*◌, ◌%◌, ◌≤◌, ◌<◌, min, ◌≡◌,
  refl, sym, ap, ◌∙◌, subst, ◌≢◌, ◌↔◌, ◌⊎◌, inl, inr, Bool, true, false, not, ◌&&◌, ◌||◌, Option,
  none, some, List, [], ◌∷◌, ◌++◌, map, append-nil, append_assoc, arith, ltb, leb, ◌==◌,
  if◌then◌else◌, ==_iff, ==_refl, leb→le, le→leb, lt→ltb, Bool-cases, Option-cases, &&-eq-true,
  ||-eq-false, length, take, drop, all, any, length-append, length-drop, take-append, String,
  drop-append, All, All-append, ℤ, pos, negsuc, is_negative, int_eq, eq_of_int_eq, Text, codes,
  text_eq, eq_of_text_eq, text_eq_refl, text_eq_iff, text_eq_swap,
}
use rehydrator.Db.Media.{
  Item, State, requested, available, archived, broken, rearming, waiting_for_visibility, pruning,
  failed, one_of, set_items, null_if_empty, coalesce, named,
}

-- RecordPlaybackIntent
unfoldable pub record_playback_intent : ℕ → Text → List Item → List Item
record_playback_intent now id = set_items now (named id) (λ m. record m {
  last_play_intent_at = some now;
  play_intent_count = m.play_intent_count + 1;
  last_checked = some now;
})

-- the columns that the statements set which queue a row for a new rearm
unfoldable pub queue_rearm : ℕ → Item → Item
queue_rearm now m = record m {
  state = archived;
  rearm_requested = true;
  cached_until = none;
  retry_count = 0;
  next_retry_at = none;
  last_error = none;
  last_checked = some now;
}

-- MarkPlaybackRearmRequested
unfoldable pub mark_playback_rearm_requested : ℕ → Text → List Item → List Item
unfolding queue_rearm
mark_playback_rearm_requested now id =
    set_items now (λ m. named id m && one_of (requested ∷ archived ∷ broken ∷ failed ∷ []) m.state)
      (queue_rearm now)

-- MarkRearming
unfoldable pub mark_rearming : ℕ → Text → List Item → List Item
mark_rearming now id =
    set_items now (named id)
      (λ m. record m { state = rearming; last_checked = some now; last_error = none })

-- MarkWaitingVisibility
unfoldable pub mark_waiting_visibility : ℕ → Text → Text → ℕ → List Item → List Item
mark_waiting_visibility now id error next = set_items now (named id) (λ m. record m {
  state = waiting_for_visibility;
  rearm_requested = true;
  next_retry_at = some next;
  last_checked = some now;
  last_error = null_if_empty error;
})

abbrev pub is_torrent_row : Item → Bool
is_torrent_row m = text_eq m.source_protocol (codes "torrent")

-- MarkAvailable
unfoldable pub mark_available : ℕ → Text → Text → ℕ → List Item → List Item
mark_available now id hash until = set_items now (named id) (λ m. record m {
  state = available;
  rearm_requested = false;
  cached_until = some until;
  info_hash = if is_torrent_row m then coalesce (null_if_empty hash) m.info_hash else none;
  last_checked = some now;
  last_rehydrated = some now;
  retry_count = 0;
  next_retry_at = none;
  last_error = none;
})

-- MarkPruning
unfoldable pub mark_pruning : ℕ → Text → List Item → List Item
mark_pruning now id =
    set_items now (named id)
      (λ m. record m { state = pruning; last_checked = some now; last_error = none })

-- MarkArchived
unfoldable pub mark_archived : ℕ → Text → List Item → List Item
mark_archived now id = set_items now (named id) (λ m. record m {
  state = archived;
  rearm_requested = false;
  cached_until = none;
  last_checked = some now;
  last_pruned = some now;
  retry_count = 0;
  next_retry_at = none;
  last_error = none;
})

abbrev pub int4_max : ℕ
int4_max = 2147483647

-- LEAST(3600, GREATEST(60, POWER(2, retry_count)::int * 60)), as long as the product is an int4
unfoldable pub backoff : ℕ → ℕ
backoff retries = min 3600 (max 60 (2 ^ retries * 60))

-- the retries of the row are used up: the branch of both CASE expressions
unfoldable pub is_last_try : ℕ → Item → Bool
is_last_try max_retries m = leb max_retries (m.retry_count + 1)

-- the delay of the row is computed, and leaves the int4 range
unfoldable pub overflows : ℕ → Item → Bool
unfolding is_last_try
overflows max_retries m = not (is_last_try max_retries m) && ltb int4_max (2 ^ m.retry_count * 60)

unfoldable pub fail_item : ℕ → Text → ℕ → Item → Item
unfolding backoff is_last_try
fail_item now error max_retries m = record m {
  state = if is_last_try max_retries m then failed else broken;
  retry_count = m.retry_count + 1;
  next_retry_at = if is_last_try max_retries m then none else some (now + backoff m.retry_count);
  last_checked = some now;
  last_error = some error;
}

-- MarkFailed: none is the error of the database for an integer that is out of range
unfoldable pub mark_failed : ℕ → Text → Text → ℕ → List Item → Option (List Item)
unfolding overflows fail_item
mark_failed now id error max_retries rows =
    if any (λ m. named id m && overflows max_retries m) rows
    then none
    else some (set_items now (named id) (fail_item now error max_retries) rows)

-- MarkRequestedMetadataPending; its reason is not stored
unfoldable pub mark_requested_metadata_pending : ℕ → Text → List Item → List Item
mark_requested_metadata_pending now id = set_items now (named id) (λ m. record m {
  state = requested;
  rearm_requested = false;
  retry_count = 0;
  next_retry_at = none;
  last_checked = some now;
  last_error = none;
})

-- ErrSourceRecoveryRequired of internal/model/model.go
abbrev pub source_recovery_required : Text
source_recovery_required =
    codes "source recovery required: original torrent file, magnet, or NZB is missing"

-- reasons[0] where it is given and not empty
abbrev pub recovery_reason : List Text → Text
recovery_reason [] = source_recovery_required
recovery_reason ([] ∷ rs) = source_recovery_required
recovery_reason ((c ∷ t) ∷ rs) = c ∷ t

-- MarkSourceRecoveryRequired
unfoldable pub mark_source_recovery_required : ℕ → Text → List Text → List Item → List Item
mark_source_recovery_required now id reasons = set_items now (named id) (λ m. record m {
  state = failed;
  rearm_requested = false;
  last_error = some (recovery_reason reasons);
  next_retry_at = none;
  last_checked = some now;
})
