-- ===== src/Gateway/Pass/Refines.antt =====
-- A call of `Reconcile` is a sequence of the steps of Gateway/Budget.
use rehydrator.Gateway.Pass.Writes.{
  Writes, done, also, finish_poll-Writes, finish_poll_gate, Writes-Reach,
}
use rehydrator.Base.{
  ℕ, ◌≡◌, refl, sym, ap, Bool, true, false, Option, none, some, List, [], ◌∷◌, ◌++◌, ltb,
  if◌then◌else◌, Text,
}
use rehydrator.Db.Jobs.Statements.{resolve_unknown, claim_unknown, put_off}
use rehydrator.Db.Jobs.{Job, Row, Tables, queued, state_eq}
use rehydrator.Db.Jobs.Claim.{Claim, claimed, idle, fault, claim_job}
use rehydrator.Gateway.Reconcile.{
  Role, combined, gateway_role, controller_role, Config, Submission, accepted, not_started, unknown,
  finish_submission,
}
use rehydrator.Gateway.Staging.{Paths}
use rehydrator.Gateway.Budget.{
  System, first, updates, puts_off, resolves, records_lookup, write, claim, find_nothing, upload,
  defer, Reach, here, next,
}
use rehydrator.Gateway.Pass.{
  Lookup, inconclusive, observed, Outside, Site, note_lookup, finish_poll, after_claim, work,
  look_up, after_unknown, for_role, reconcile, reached, claim_requests, unknown_requests,
  lookup_requests, role_requests, add_requests,
}

-- The steps lead to a system with these tables, in which exactly these add requests came to those
-- that had reached the provider before, and no claimed submission is left behind.
abbrev pub Refines : System → Tables → List Text → Type 0
Refines b t sent =
    (b' : System) × Reach b b'
    × (b'.tables ≡ t)
    × (b'.uploads ≡ sent ++ b.uploads)
    × (b'.pending ≡ b.pending)

module _ (c : Config) (paths : Paths) (o : Outside) (now : ℕ) (s : Site) (u q : List Text) where
  abbrev origin : System
  origin = record { tables = s.tables; uploads = u; pending = q }

  submitted :
      (j : Job) (t : Tables) (r : Submission)
      → Reach origin (record { tables = t; uploads = u; pending = j.id ∷ q })
      → Refines origin (record t { jobs = finish_submission c now j r t.jobs }) (reached j r)
  unfolding finish_submission
  submitted j t (accepted id) r = (
    _,
    next (next r (upload j.id first)) (write now (updates _ c.poll_interval)),
    refl,
    refl,
    refl,
  )
  submitted j t (not_started e) r = (_, next r (defer now j.id e first), refl, refl, refl)
  submitted j t (unknown e) r = (
    _,
    next (next r (upload j.id first)) (write now (updates _ c.poll_interval)),
    refl,
    refl,
    refl,
  )

  branch :
      (x : Bool) (j : Job) (t : Tables)
      → Reach origin (record { tables = t; uploads = u; pending = if x then j.id ∷ q else q })
      → Refines origin
          (if x
            then (
              none,
              record s {
                tables = record t { jobs = finish_submission c now j (o.submit j) t.jobs };
              },
            )
            else finish_poll c paths o.readable now j (o.poll j) (record s { tables = t })).1.tables
          (if x then reached j (o.submit j) else [])
  branch true j t r = submitted j t (o.submit j) r
  branch false j t r =
      let result : Site =
        (finish_poll c paths o.readable now j (o.poll j) (record s { tables = t })).1 in
      (
        _,
        Writes-Reach now
            (finish_poll-Writes now t.jobs paths o.readable c j (o.poll j) (record s { tables = t })
              done)
            r,
        ap (λ g. record { jobs = result.tables.jobs; gate = g })
            (sym (
              finish_poll_gate now t.jobs paths o.readable c j (o.poll j)
                (record s { tables = t }))),
        refl,
        refl,
      )

  after_claim-Refines :
      (locked : Row → Bool) (k : Claim)
      → claim_job now c.submit_interval none locked s.tables ≡ k
      → Refines origin (after_claim c paths o now s k).1.tables (claim_requests o k)
  after_claim-Refines locked (fault e) h = (origin, here, refl, refl, refl)
  after_claim-Refines locked (idle t) h =
      (_, next here (find_nothing now c.submit_interval none locked h), refl, refl, refl)
  after_claim-Refines locked (claimed j t) h =
      branch (state_eq j.state queued) j t (next here (claim now c.submit_interval none locked h))

  work-Refines :
      (locked : Row → Bool)
      → Refines origin
          (work c paths o now locked s).1.tables
          (claim_requests o (claim_job now c.submit_interval none locked s.tables))
  unfolding work
  work-Refines locked = after_claim-Refines locked _ refl

  noted :
      (j : Job) (l : Lookup) (rows rs : List Row)
      → Writes now rows rs
      → Writes now rows (note_lookup now j l rs)
  unfolding note_lookup
  noted j (inconclusive e) rows rs w = also w (records_lookup j.id _)
  noted j (observed id) rows rs w = if_positive (ltb 0 id)
    where
      if_positive : (x : Bool) → Writes now rows (if x then resolve_unknown now j id rs else rs)
      if_positive true = also w (resolves j id)
      if_positive false = w

  after_unknown-Refines :
      (locked : Row → Bool) (find : Job → Lookup) (r : Option Row)
      → Refines origin
          (after_unknown c paths o now locked s find r).1.tables
          (unknown_requests c o now locked s r)
  after_unknown-Refines locked find none = work-Refines locked
  after_unknown-Refines locked find (some x) = (
    _,
    Writes-Reach now
        (noted x.job (find x.job) s.tables.jobs (put_off now x.id s.tables.jobs)
          (also done (puts_off x.id)))
        here,
    refl,
    refl,
    refl,
  )

  look_up-Refines :
      (locked : Row → Bool) (find : Option (Job → Lookup))
      → Refines origin
          (look_up c paths o now locked s find).1.tables
          (lookup_requests c o now locked s find)
  look_up-Refines locked none = work-Refines locked
  look_up-Refines locked (some find) =
      after_unknown-Refines locked find (claim_unknown now locked s.tables.jobs)

  by_role :
      (locked : Row → Bool) (r : Role)
      → Refines origin
          (for_role c paths o now locked s r).1.tables
          (role_requests c o now locked s r)
  by_role locked controller_role = (origin, here, refl, refl, refl)
  by_role locked combined = look_up-Refines locked o.lookup
  by_role locked gateway_role = look_up-Refines locked o.lookup

-- Whatever the provider, its lookup and the mount answer, and in every role, what a call of the
-- reconciliation leaves in the tables is what some sequence of the steps of the budget model leaves
-- in them, starting from the same tables and any uploads and pending submissions. The add requests
-- of these steps are exactly those of the call, a submission of unknown outcome counting as one, and
-- no claimed submission is left pending.
pub reconcile-Reach :
    (c : Config) (paths : Paths) (o : Outside) (now : ℕ) (locked : Row → Bool) (s : Site)
    (u q : List Text)
    → Refines
        (record { tables = s.tables; uploads = u; pending = q })
        (reconcile c paths o now locked s).1.tables
        (add_requests c o now locked s)
unfolding reconcile add_requests
reconcile-Reach c paths o now locked s u q = by_role c paths o now s u q locked c.role
