-- ===== src/Db/Media/Inventory/Removed.antt =====
-- What the reconciliation with the inventory of Radarr or Sonarr removes.
use rehydrator.Base.{
  is_positive, ◌≡◌, refl, sym, ap, ◌∙◌, ◌≢◌, ◌⊎◌, inl, inr, Bool, true, false, not, Option, none,
  some, List, [], ◌∷◌, ◌++◌, map, arith, Bool-cases, ℤ, Text, codes, text_eq, eq_of_text_eq,
  ne_of_text_eq,
}
use rehydrator.Db.Rows.{filter}
use rehydrator.Db.Media.{
  Item, MediaType, movie, series, State, requested, available, hot, cooling, archived, broken,
  rearming, waiting_for_visibility, pruning, failed, is_in, type_eq,
}
use rehydrator.Db.Media.Inventory.{
  Tombstone, Tracked, remove_items, listed, unlisted_series, is_missing_movie, is_missing_episode,
  movie_tombstone, series_tombstone, reconcile_radarr_inventory, reconcile_sonarr_inventory,
}
use rehydrator.Db.Media.Inventory.Reasons.{
  Swept, swept, stays, goes, MovieStays, not_movie, no_arr_id, EpisodeStays, other_kind, no_series,
  MovieGoes, EpisodeGoes,
}

sweep_rows :
    (Stays : Item → Type 0) (Goes : Item → Tombstone → Type 0) (test : Item → Bool)
    (bury : Item → Tombstone) (rows : List Item)
    → ((m : Item) → test m ≡ false → Stays m)
    → ((m : Item) → test m ≡ true → Goes m (bury m))
    → Swept Stays Goes rows (filter (λ m. not (test m)) rows) (map bury (filter test rows))
sweep_rows Stays Goes test bury [] s g = swept
sweep_rows Stays Goes test bury (m ∷ rows) s g = elim (Bool-cases (test m)) [
  | inl e ↦ rw e (goes (g m e) (sweep_rows Stays Goes test bury rows s g))
  | inr e ↦ rw e (stays (s m e) (sweep_rows Stays Goes test bury rows s g))
]

state_requested : (s : State) → is_in requested s ≡ true → s ≡ requested
unfolding is_in
state_requested requested h = refl
state_requested available h = absurd (cc h)
state_requested hot h = absurd (cc h)
state_requested cooling h = absurd (cc h)
state_requested archived h = absurd (cc h)
state_requested broken h = absurd (cc h)
state_requested rearming h = absurd (cc h)
state_requested waiting_for_visibility h = absurd (cc h)
state_requested pruning h = absurd (cc h)
state_requested failed h = absurd (cc h)

not_requested : (s : State) → is_in requested s ≡ false → s ≢ requested
unfolding is_in
not_requested s h p = cc (sym h ∙ ap (is_in requested) p)

is_movie_type : (t : MediaType) → type_eq t movie ≡ true → t ≡ movie
is_movie_type movie h = refl
is_movie_type series h = absurd (cc h)

no_movie_type : (t : MediaType) → type_eq t movie ≡ false → t ≡ series
no_movie_type movie h = absurd (cc h)
no_movie_type series h = refl

is_series_type : (t : MediaType) → type_eq t series ≡ true → t ≡ series
is_series_type series h = refl
is_series_type movie h = absurd (cc h)

no_series_type : (t : MediaType) → type_eq t series ≡ false → t ≡ movie
no_series_type series h = absurd (cc h)
no_series_type movie h = refl

missing-MovieStays :
    (tenant : Text) (ids : List ℤ) (m : Item)
    → is_missing_movie tenant ids m ≡ false
    → MovieStays tenant ids m
unfolding is_missing_movie
missing-MovieStays tenant ids m h = elim (Bool-cases (text_eq m.tenant tenant)) [
  | inr e ↦ MovieStays.other_tenant (ne_of_text_eq m.tenant tenant e)
  | inl a ↦ elim (Bool-cases (type_eq m.media_type movie)) [
    | inr e ↦ not_movie (no_movie_type m.media_type e)
    | inl b ↦ elim (Bool-cases (is_positive m.arr_id)) [
      | inr e ↦ no_arr_id e
      | inl c ↦ elim (Bool-cases (is_in requested m.state)) [
        | inl e ↦ MovieStays.only_requested (state_requested m.state e)
        | inr d ↦ elim (Bool-cases (listed ids m.arr_id)) [
          | inl e ↦ MovieStays.in_inventory e
          | inr e ↦ absurd (ground arith)
        ]
      ]
    ]
  ]
]

missing-MovieGoes :
    (tenant : Text) (ids : List ℤ) (m : Item)
    → is_missing_movie tenant ids m ≡ true
    → MovieGoes tenant ids m
        (movie_tombstone (codes "missing_from_radarr_inventory") (codes "{}") m)
unfolding is_missing_movie movie_tombstone
missing-MovieGoes tenant ids m h =
    let here : m.tenant ≡ tenant = eq_of_text_eq m.tenant tenant (ground arith) in
    record {
      same_tenant = here;
      is_movie = is_movie_type m.media_type (ground arith);
      known = ground arith;
      settled = not_requested m.state (ground arith);
      not_listed = ground arith;
      identity = (here, refl, refl);
    }

unlisted_cases :
    (ids files : List ℤ) (m : Item) (o : Option ℤ)
    → unlisted_series ids files m o ≡ true
    → (i : ℤ) × (o ≡ some i)
      × ((listed ids i ≡ false) ⊎ ((is_positive m.arr_id ≡ true) × (listed files m.arr_id ≡ false)))
unlisted_cases ids files m none h = absurd (cc h)
unlisted_cases ids files m (some i) h = (
  i,
  refl,
  elim (Bool-cases (listed ids i)) [ inr e ↦ inl e | inl e ↦ inr (ground arith, ground arith) ],
)

listed_cases :
    (ids files : List ℤ) (m : Item) (tenant : Text) (o : Option ℤ)
    → m.series_id ≡ o
    → unlisted_series ids files m o ≡ false
    → EpisodeStays tenant ids files m
listed_cases ids files m tenant none e h = no_series e
listed_cases ids files m tenant (some i) e h = elim (Bool-cases (listed ids i)) [
  | inr k ↦ absurd (ground arith)
  | inl k ↦
      EpisodeStays.in_inventory i e k
        (elim (Bool-cases (is_positive m.arr_id)) [ inr p ↦ inl p | inl p ↦ inr (ground arith) ])
]

missing-EpisodeStays :
    (tenant : Text) (ids files : List ℤ) (m : Item)
    → is_missing_episode tenant ids files m ≡ false
    → EpisodeStays tenant ids files m
unfolding is_missing_episode
missing-EpisodeStays tenant ids files m h = elim (Bool-cases (text_eq m.tenant tenant)) [
  | inr e ↦ EpisodeStays.other_tenant (ne_of_text_eq m.tenant tenant e)
  | inl a ↦ elim (Bool-cases (type_eq m.media_type series)) [
    | inr e ↦ other_kind (no_series_type m.media_type e)
    | inl b ↦ elim (Bool-cases (is_in requested m.state)) [
      | inl e ↦ EpisodeStays.only_requested (state_requested m.state e)
      | inr d ↦ listed_cases ids files m tenant m.series_id refl (ground arith)
    ]
  ]
]

missing-EpisodeGoes :
    (tenant : Text) (ids files : List ℤ) (m : Item)
    → is_missing_episode tenant ids files m ≡ true
    → EpisodeGoes tenant ids files m
        (series_tombstone (codes "missing_from_sonarr_inventory") (codes "{}") m)
unfolding is_missing_episode series_tombstone
missing-EpisodeGoes tenant ids files m h =
    let here : m.tenant ≡ tenant = eq_of_text_eq m.tenant tenant (ground arith) in
    let (i, known, off) = unlisted_cases ids files m m.series_id (ground arith) in
    record {
      same_tenant = here;
      is_episode = is_series_type m.media_type (ground arith);
      settled = not_requested m.state (ground arith);
      owner = i;
      owned = known;
      not_listed = off;
      identity = (here, refl, refl);
    }

-- Reconciling with the inventories of Radarr and Sonarr decides every row on its own, in place. A
-- row that stays is another tenant's or of the other kind, only requested, not yet known to Arr, or
-- listed in the inventory. A row that is removed is none of these, and one tombstone with its
-- tenant and its IDs is added for it.
pub reconcile_inventories :
    (tenant : Text) (movies series_ids files : List ℤ) (t : Tracked)
    → ((ts : List Tombstone) × Swept
          (MovieStays tenant movies)
          (MovieGoes tenant movies)
          t.items
          (reconcile_radarr_inventory tenant movies t).items
          ts
        × ((reconcile_radarr_inventory tenant movies t).tombstones ≡ t.tombstones ++ ts))
      × ((ts : List Tombstone) × Swept
            (EpisodeStays tenant series_ids files)
            (EpisodeGoes tenant series_ids files)
            t.items
            (reconcile_sonarr_inventory tenant series_ids files t).items
            ts
          × ((reconcile_sonarr_inventory tenant series_ids files t).tombstones
              ≡ t.tombstones ++ ts))
unfolding reconcile_radarr_inventory reconcile_sonarr_inventory remove_items
reconcile_inventories tenant movies series_ids files t = (
  (
    _,
    sweep_rows (MovieStays tenant movies) (MovieGoes tenant movies) _ _ t.items
        (missing-MovieStays tenant movies) (missing-MovieGoes tenant movies),
    refl,
  ),
  (
    _,
    sweep_rows (EpisodeStays tenant series_ids files) (EpisodeGoes tenant series_ids files) _ _
        t.items (missing-EpisodeStays tenant series_ids files)
        (missing-EpisodeGoes tenant series_ids files),
    refl,
  ),
)
