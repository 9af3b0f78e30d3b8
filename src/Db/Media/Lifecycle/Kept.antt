-- ===== src/Db/Media/Lifecycle/Kept.antt =====
-- How a statement keeps the life cycle: its change does on the rows that it meets, and a new row
-- starts consistent.
use rehydrator.Db.Rows.{select_by, All-update, filter}
use rehydrator.Base.{
  All-map, ℕ, ◌≡◌, inl, inr, Bool, true, not, Option, List, [], ◌∷◌, if◌then◌else◌, Bool-cases, any,
  All-append,
}
use rehydrator.Db.Rows.Select.{All-filter}
use rehydrator.Db.Media.{Item, State, requested, available, hot, cooling, set_items, is_in}
use rehydrator.Db.Media.Lifecycle.{Flags, IsConsistent, AreConsistent}
use rehydrator.Db.Media.Work.{chosen, claim_items}
use rehydrator.Db.Media.Imports.{upsert_item, is_settled}
use rehydrator.Db.Media.Requests.{is_media}
use rehydrator.Db.Media.Inventory.{Tracked, Tombstone, remove_items}

pub set_items-kept :
    (now : ℕ) (test : Item → Bool) (change : Item → Item) (rows : List Item)
    → ((m : Item) → IsConsistent m → test m ≡ true → IsConsistent (change m))
    → AreConsistent rows
    → AreConsistent (set_items now test change rows)
unfolding set_items AreConsistent
set_items-kept now test change rows f h =
    All-update IsConsistent IsConsistent test (λ m. record (change m) { updated_at = now })
      (λ m c t. f m c t) (λ m c t. c) rows h

pub claim_items-kept :
    (now : ℕ) (earlier : Item → Item → Bool) (test : Item → Bool) (n : ℕ) (change : Item → Item)
    (rows : List Item)
    → ((m : Item) → IsConsistent m → IsConsistent (change m))
    → AreConsistent rows
    → AreConsistent (claim_items now earlier test n change rows).table
unfolding claim_items
claim_items-kept now earlier test n change rows f h =
    set_items-kept now (chosen (select_by earlier test n rows)) change rows (λ m c t. f m c) h

pub upsert_item-kept :
    (now : ℕ) (new : Item) (change : Item → Item) (rows : List Item)
    → IsConsistent new
    → ((m : Item) → IsConsistent m → IsConsistent (change m))
    → AreConsistent rows
    → AreConsistent (upsert_item now new change rows)
unfolding upsert_item AreConsistent
upsert_item-kept now new change rows c f h =
    let key : Item → Bool = is_media new.tenant new.media_type new.arr_id in
    elim (Bool-cases (any key rows)) [
      | inl e ↦ rw e (set_items-kept now key change rows (λ m k t. f m k) h)
      | inr e ↦ rw e (All-append IsConsistent rows (new ∷ []) h (c, tt))
    ]

pub remove_items-kept :
    (test : Item → Bool) (bury : Item → Tombstone) (t : Tracked)
    → AreConsistent t.items
    → AreConsistent (remove_items test bury t).items
unfolding remove_items AreConsistent
remove_items-kept test bury t h =
    All-map (λ m. IsConsistent m × (not (test m) ≡ true)) IsConsistent
      (filter (λ m. not (test m)) t.items) (λ m c. c.0)
      (All-filter IsConsistent (λ m. not (test m)) t.items h)

-- a title that is expected and comes in
pub arrives :
    (s : State) (asked : Bool) (next : Option ℕ)
    → Flags s asked next
    → Flags (if is_settled s then available else s) asked next
unfolding is_in
arrives requested asked next h = h
arrives available asked next h = h
arrives hot asked next h = h
arrives cooling asked next h = h
arrives s asked next h = h

pub requested_arrives :
    (s : State) (asked : Bool) (next : Option ℕ)
    → Flags s asked next
    → Flags (if is_in requested s then available else s) asked next
unfolding is_in
requested_arrives requested asked next h = h
requested_arrives s asked next h = h
