-- ===== src/Db/Media/Inventory/Reasons.antt =====
-- Which rows a reconciliation with an inventory keeps and removes, apart from its statements.
use rehydrator.Base.{is_positive, ◌≡◌, ◌≢◌, ◌⊎◌, true, false, none, some, List, [], ◌∷◌, ℤ, Text}
use rehydrator.Db.Media.{Item, movie, series, requested}
use rehydrator.Db.Media.Inventory.{Tombstone, listed}

-- A table before and after, and the tombstones that are added, in the order of the rows
pub data Swept (Stays : Item → Type 0) (Goes : Item → Tombstone → Type 0)
    : List Item → List Item → List Tombstone → Type 0 where
  swept : Swept Stays Goes [] [] []
  stays :
      {m : Item} {rows after : List Item} {ts : List Tombstone}
      → Stays m
      → Swept Stays Goes rows after ts
      → Swept Stays Goes (m ∷ rows) (m ∷ after) ts
  goes :
      {m : Item} {t : Tombstone} {rows after : List Item} {ts : List Tombstone}
      → Goes m t
      → Swept Stays Goes rows after ts
      → Swept Stays Goes (m ∷ rows) after (t ∷ ts)

-- Why a movie stays: it is another tenant's, no movie, not yet known to Radarr, still requested, or
-- in the inventory.
pub data MovieStays (tenant : Text) (ids : List ℤ) (m : Item) : Type 0 where
  other_tenant : m.tenant ≢ tenant → MovieStays tenant ids m
  not_movie : m.media_type ≡ series → MovieStays tenant ids m
  no_arr_id : is_positive m.arr_id ≡ false → MovieStays tenant ids m
  only_requested : m.state ≡ requested → MovieStays tenant ids m
  in_inventory : listed ids m.arr_id ≡ true → MovieStays tenant ids m

-- Why an episode stays: the same, but for a row whose series is unknown, or whose series is in the
-- inventory and its file too if it has one.
pub data EpisodeStays (tenant : Text) (ids files : List ℤ) (m : Item) : Type 0 where
  other_tenant : m.tenant ≢ tenant → EpisodeStays tenant ids files m
  other_kind : m.media_type ≡ movie → EpisodeStays tenant ids files m
  only_requested : m.state ≡ requested → EpisodeStays tenant ids files m
  no_series : m.series_id ≡ none → EpisodeStays tenant ids files m
  in_inventory :
      (i : ℤ)
      → m.series_id ≡ some i
      → listed ids i ≡ true
      → (is_positive m.arr_id ≡ false) ⊎ (listed files m.arr_id ≡ true)
      → EpisodeStays tenant ids files m

-- what a row that goes is, and what its tombstone keeps of it
pub record MovieGoes (tenant : Text) (ids : List ℤ) (m : Item) (t : Tombstone) : Type 0 where
  pub same_tenant : m.tenant ≡ tenant
  pub is_movie : m.media_type ≡ movie
  pub known : is_positive m.arr_id ≡ true
  pub settled : m.state ≢ requested
  pub not_listed : listed ids m.arr_id ≡ false
  pub identity : (t.tenant ≡ tenant) × (t.arr_id ≡ m.arr_id) × (t.external_id ≡ m.tmdb_id)

pub record EpisodeGoes (tenant : Text) (ids files : List ℤ) (m : Item) (t : Tombstone)
    : Type 0 where
  pub same_tenant : m.tenant ≡ tenant
  pub is_episode : m.media_type ≡ series
  pub settled : m.state ≢ requested
  pub owner : ℤ
  pub owned : m.series_id ≡ some owner
  pub not_listed :
      (listed ids owner ≡ false) ⊎ ((is_positive m.arr_id ≡ true) × (listed files m.arr_id ≡ false))
  pub identity : (t.tenant ≡ tenant) × (t.arr_id ≡ m.arr_id) × (t.external_id ≡ m.tvdb_id)
