-- ===== src/Controller/Wait.antt =====
-- waitForCSI of internal/controller/controller.go: the path is probed until it is readable or the
-- time is up. `probe i` is the answer of the probe number i, `took i` the seconds that it takes, and
-- `stopped i` tells that the context ends while the loop sleeps after it.
use rehydrator.Base.{
  ℕ, zero, suc, ◌+◌, ◌≤◌, ◌<◌, ◌≡◌, refl, ◌⊎◌, inl, inr, Bool, true, false, not, Option, none, some,
  [], arith, ltb, if◌then◌else◌, Text, text_eq,
}
use rehydrator.Base.Strings.{trim_space}

pub record Probes : Type 0 where
  pub probe : ℕ → Bool
  pub took : ℕ → ℕ
  pub stopped : ℕ → Bool

-- the loop from probe number i on, at `elapsed` seconds, on fuel
unfoldable pub wait_loop : ℕ → Probes → ℕ → ℕ → ℕ → ℕ → Option Bool
wait_loop zero p timeout poll i elapsed = none
wait_loop (suc fuel) p timeout poll i elapsed =
    let rest = wait_loop fuel p timeout poll (i + 1) (elapsed + p.took i + poll) in
    if not (ltb elapsed timeout)
    then some (p.probe i)
    else if p.probe i
    then some true
    else if p.stopped i
    then some false
    else rest

-- a turn takes the time of a poll at least, so there are no more turns than seconds, and a last one
unfoldable pub wait_for_csi : Probes → ℕ → ℕ → Text → Option Bool
unfolding wait_loop trim_space
wait_for_csi p timeout poll path =
    if text_eq (trim_space path) [] then some false else wait_loop (timeout + 1) p timeout poll 0 0

-- the result of a loop that ends: true only after a probe that found the path readable
IsAnswer : Probes → Option Bool → Type 0
IsAnswer p o = (b : Bool) × (o ≡ some b) × (b ≡ true → (i : ℕ) × (p.probe i ≡ true))

if_IsAnswer :
    (p : Probes) (c : Bool) (x y : Option Bool)
    → (c ≡ true → IsAnswer p x)
    → (c ≡ false → IsAnswer p y)
    → IsAnswer p (if c then x else y)
if_IsAnswer p true x y f g = f refl
if_IsAnswer p false x y f g = g refl

probed : (p : Probes) (i : ℕ) → IsAnswer p (some (p.probe i))
unfolding IsAnswer
probed p i = (p.probe i, refl, λ e. (i, e))

stopped-IsAnswer : (p : Probes) → IsAnswer p (some false)
unfolding IsAnswer
stopped-IsAnswer p = (false, refl, λ e. absurd (cc e))

readable-IsAnswer : (p : Probes) (i : ℕ) → p.probe i ≡ true → IsAnswer p (some true)
unfolding IsAnswer
readable-IsAnswer p i e = (true, refl, λ h. (i, e))

wait_loop-IsAnswer :
    (fuel : ℕ) (p : Probes) (timeout poll i elapsed : ℕ)
    → 1 ≤ poll
    → 1 ≤ fuel
    → timeout < fuel + elapsed
    → IsAnswer p (wait_loop fuel p timeout poll i elapsed)
unfolding wait_loop
wait_loop-IsAnswer zero p timeout poll i elapsed pause some_left enough = absurd (omega arith)
wait_loop-IsAnswer (suc fuel) p timeout poll i elapsed pause some_left enough =
    if_IsAnswer p (not (ltb elapsed timeout)) _ _ (λ e. probed p i)
      (λ e.
        if_IsAnswer p (p.probe i) _ _ (λ f. readable-IsAnswer p i f)
          (λ f.
            if_IsAnswer p (p.stopped i) _ _ (λ g. stopped-IsAnswer p)
              (λ g.
                wait_loop-IsAnswer fuel p timeout poll (i + 1) (elapsed + p.took i + poll) pause
                  (ground arith) (ground arith))))

as_sum :
    (p : Probes) (o : Option Bool)
    → IsAnswer p o
    → (o ≡ some false) ⊎ ((o ≡ some true) × (i : ℕ) × (p.probe i ≡ true))
unfolding IsAnswer
as_sum p o (true, e, f) = inr (e, (f refl).0, (f refl).1)
as_sum p o (false, e, f) = inl e

-- Waiting for a path ends with an answer when the pause between two probes is positive, however
-- long the probes take: it is false, or it is true and a probe found the path readable.
pub wait_ends :
    (p : Probes) (timeout poll : ℕ) (path : Text)
    → 1 ≤ poll
    → (wait_for_csi p timeout poll path ≡ some false)
      ⊎ ((wait_for_csi p timeout poll path ≡ some true) × (i : ℕ) × (p.probe i ≡ true))
unfolding wait_for_csi
wait_ends p timeout poll path pause = as_sum p (wait_for_csi p timeout poll path) (
    if_IsAnswer p (text_eq (trim_space path) []) _ _ (λ e. stopped-IsAnswer p)
      (λ e. wait_loop-IsAnswer (timeout + 1) p timeout poll 0 0 pause (omega arith) (omega arith)))
