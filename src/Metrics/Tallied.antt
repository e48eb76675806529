-- ===== src/Metrics/Tallied.antt =====
-- What the histograms of internal/metrics/metrics.go count.
use mathlib.Core.Option.{some-injective}
use nyxora.Common.{
  ℕ, zero, suc, ◌+◌, ◌%◌, ◌^◌, ◌≤◌, ◌<◌, ◌≡◌, refl, ap, ◌∙◌, some, List, [], ◌∷◌, keep,
  if◌then◌else◌, length, take, not, ◌&&◌, Bool, true, Option, none, get_elem?, get_elem?-replicate,
  length-replicate, arith, Outcome, done, ◌>>=◌, ◌==◌,
}
use nyxora.Common.Words.{add_int}
use nyxora.Common.Float.{Float64}
use nyxora.Metrics.{Histogram, bump, slot, observe, new_histogram, buckets_or_default}

-- The counts after one more at a place.
abbrev raised : ℕ → ℕ → ℕ → ℕ
raised i j c = if i == j then add_int c 1 else c

-- What a place holds after one more at the first place.
first_raised :
    (c : ℕ) (cs : List ℕ) (j d : ℕ)
    → get_elem? (c ∷ cs) j ≡ some d
    → get_elem? (add_int c 1 ∷ cs) j ≡ some (raised 0 j d)
first_raised c cs zero d h = ap (λ x. some (add_int x 1)) (some-injective _ _ h)
first_raised c cs (suc j) d h = h ∙ ap some (ground arith)

bump_lem :
    (i : ℕ) (cs : List ℕ)
    → i < length cs
    → (ds : List ℕ) × (bump i cs ≡ done ds)
      × (length ds ≡ length cs)
      × ((j d : ℕ) → get_elem? cs j ≡ some d → get_elem? ds j ≡ some (raised i j d))
unfolding bump
bump_lem i [] h = elim h [ ]
bump_lem zero (c ∷ cs) h = (add_int c 1 ∷ cs, refl, refl, first_raised c cs)
bump_lem (suc i) (c ∷ cs) h =
    let rest = bump_lem i cs (omega arith) in
    (c ∷ rest.0, rw rest.1 refl, ap suc rest.2, places rest.0 rest.3)
  where
    places :
        (ds : List ℕ)
        → ((j d : ℕ) → get_elem? cs j ≡ some d → get_elem? ds j ≡ some (raised i j d))
        → (j d : ℕ) → get_elem? (c ∷ cs) j ≡ some d
        → get_elem? (c ∷ ds) j ≡ some (raised (suc i) j d)
    places ds k zero d e = e ∙ ap some (ground arith)
    places ds k (suc j) d e = k j d e ∙ ap some (ground arith)

module _ {F : Type 0} ⦃fl : Float64 F⦄ where
  abbrev pub observe_all : List F → Histogram F → Outcome (Histogram F)
  observe_all [] h = done h
  observe_all (v ∷ vs) h = observe v h >>= observe_all vs

  -- A bound holds a value; behind the last bucket there is no bound.
  abbrev pub holds : F → Option F → Bool
  holds v none = true
  holds v (some b) = fl.le v b

  abbrev pub exceeds : F → List F → Bool
  exceeds v [] = true
  exceeds v (b ∷ bs) = not (fl.le v b) && exceeds v bs

  -- A value belongs at a place when it is at most the bound of the bucket there, if there is one,
  -- and not at most any bound before it.
  abbrev pub belongs : List F → ℕ → F → Bool
  belongs buckets j v = exceeds v (take j buckets) && holds v (get_elem? buckets j)

  -- The number of the values that belong at a place.
  abbrev pub tally : List F → ℕ → List F → ℕ
  tally buckets j vs = length (keep (belongs buckets j) vs)

  -- The loop of `Observe` stops where the value belongs.
  slot-belongs : (v : F) (bs : List F) (j : ℕ) → j ≤ length bs → (slot v bs == j) ≡ belongs bs j v
  unfolding slot
  slot-belongs v [] zero h = refl
  slot-belongs v [] (suc j) h = absurd (omega arith)
  slot-belongs v (b ∷ bs) zero h = ground arith
  slot-belongs v (b ∷ bs) (suc j) h = ground (arith, slot-belongs v bs j (omega arith))

  slot-le : (v : F) (bs : List F) → slot v bs ≤ length bs
  unfolding slot
  slot-le v [] = omega arith
  slot-le v (b ∷ bs) = ground (arith, slot-le v bs)

  observe_all_lem :
      (vs : List F) (h : Histogram F)
      → length h.counts ≡ suc (length h.buckets)
      → h.count < 2 ^ 64
      → (after : Histogram F) × (observe_all vs h ≡ done after)
        × (after.count ≡ (h.count + length vs) % 2 ^ 64)
        × ((j c : ℕ)
            → j ≤ length h.buckets
            → get_elem? h.counts j ≡ some c
            → c < 2 ^ 64
            → get_elem? after.counts j ≡ some ((c + tally h.buckets j vs) % 2 ^ 64))
  unfolding observe add_int
  observe_all_lem [] h k l = (h, refl, omega arith, λ j c b e m. e ∙ ap some (omega arith))
  observe_all_lem (v ∷ vs) h k l =
      let one = bump_lem (slot v h.buckets) h.counts (omega (arith, slot-le v h.buckets)) in
      let next = record h { total = fl.add h.total v; count = add_int h.count 1; counts = one.0 } in
      let rest = observe_all_lem vs next (one.2 ∙ k) (omega arith) in
      (
        rest.0,
        rw one.1 rest.1,
        omega (arith, rest.2),
        λ j c b e m.
            rest.3 j (raised (slot v h.buckets) j c) b (one.3 j c e) (ground arith)
            ∙ ap some (ground (arith, slot-belongs v h.buckets j b)),
      )

  -- A histogram that was made for some buckets takes any number of values without a panic.
  -- Afterwards each of its counts, up to the one behind the last bucket, is the number of the
  -- values that are at most the bound of its bucket, if it has one, and not at most any bound
  -- before, and `Count` is the number of all values, both in 64 bits.
  pub observe_all-tally :
      (buckets vs : List F) (j : ℕ)
      → j ≤ length (buckets_or_default buckets)
      → (after : Histogram F) × (observe_all vs (new_histogram buckets) ≡ done after)
        × (after.count ≡ length vs % 2 ^ 64)
        × (get_elem? after.counts j ≡ some (tally (buckets_or_default buckets) j vs % 2 ^ 64))
  unfolding new_histogram
  observe_all-tally buckets vs j h =
      let n = length (buckets_or_default buckets) in
      let start = new_histogram buckets in
      let zeros : length start.counts ≡ suc n = length-replicate (n + 1) 0 ∙ omega arith in
      let all = observe_all_lem vs start zeros (omega arith) in
      (
        all.0,
        all.1,
        all.2 ∙ ap (λ m. m % 2 ^ 64) (omega arith),
        all.3 j 0 h (get_elem?-replicate (n + 1) j 0 (omega (arith, h))) (omega arith)
            ∙ ap (λ m. some (m % 2 ^ 64)) (omega arith),
      )
