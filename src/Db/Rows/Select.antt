-- ===== src/Db/Rows/Select.antt =====
-- SELECT … WHERE (test) ORDER BY (before) LIMIT n returns rows of the table that meet the test, at
-- most n of them.
use rehydrator.Base.{
  ℕ, zero, suc, ◌≤◌, ◌≡◌, inl, inr, Bool, true, List, [], ◌∷◌, arith, Bool-cases, length, take, All,
}
use rehydrator.Db.Rows.{filter, insert_by, sort_by, select_by}

module _ {ℓ κ} {R : Type ℓ} where
  pub All-filter :
      (P : R → Type κ) (test : R → Bool) (rs : List R)
      → All P rs
      → All (λ r. P r × (test r ≡ true)) (filter test rs)
  All-filter P test [] h = tt
  All-filter P test (r ∷ rs) h = elim (Bool-cases (test r)) [
    | inl e ↦ rw e ((h.0, e), All-filter P test rs h.1)
    | inr e ↦ rw e (All-filter P test rs h.1)
  ]

  All-insert_by :
      (P : R → Type κ) (before : R → R → Bool) (r : R) (rs : List R)
      → P r
      → All P rs
      → All P (insert_by before r rs)
  All-insert_by P before r [] p h = (p, tt)
  All-insert_by P before r (s ∷ ss) p h = elim (Bool-cases (before s r)) [
    | inl e ↦ rw e (h.0, All-insert_by P before r ss p h.1)
    | inr e ↦ rw e (p, h)
  ]

  All-sort_by :
      (P : R → Type κ) (before : R → R → Bool) (rs : List R) → All P rs → All P (sort_by before rs)
  All-sort_by P before [] h = tt
  All-sort_by P before (r ∷ rs) h =
      All-insert_by P before r (sort_by before rs) h.0 (All-sort_by P before rs h.1)

  All-take : (P : R → Type κ) (n : ℕ) (rs : List R) → All P rs → All P (take n rs)
  All-take P zero rs h = tt
  All-take P (suc n) [] h = tt
  All-take P (suc n) (r ∷ rs) h = (h.0, All-take P n rs h.1)

  pub select_by-All :
      (P : R → Type κ) (before : R → R → Bool) (test : R → Bool) (n : ℕ) (rs : List R)
      → All P rs
      → All (λ r. P r × (test r ≡ true)) (select_by before test n rs)
  unfolding select_by
  select_by-All P before test n rs h =
      All-take (λ r. P r × (test r ≡ true)) n (sort_by before (filter test rs))
        (All-sort_by (λ r. P r × (test r ≡ true)) before (filter test rs) (All-filter P test rs h))

length-take {ℓ} : {A : Type ℓ} (n : ℕ) (xs : List A) → length (take n xs) ≤ n
length-take zero xs = omega arith
length-take (suc n) [] = omega arith
length-take (suc n) (x ∷ xs) = let ih = length-take n xs in omega arith

pub length-select_by {ℓ} :
    {R : Type ℓ} (before : R → R → Bool) (test : R → Bool) (n : ℕ) (rs : List R)
    → length (select_by before test n rs) ≤ n
unfolding select_by
length-select_by before test n rs = length-take n (sort_by before (filter test rs))

-- every row, of which nothing is known
pub All-any {ℓ κ} : {R : Type ℓ} (P : R → Type κ) (rs : List R) → ((r : R) → P r) → All P rs
All-any P [] h = tt
All-any P (r ∷ rs) h = (h r, All-any P rs h)
