-- ===== src/Common/Best.antt =====
-- The search for the best element of a slice.
use mathlib.Core.Path.{◌≡◌, refl, subst}
use mathlib.Core.Logic.{inl, inr}
use mathlib.Core.Bool.{Bool, false}
use mathlib.Core.Option.{Option, none, some, some-injective}
use mathlib.Core.List.{List, [], ◌∷◌}
use nyxora.Common.Tests.{if◌then◌else◌, Bool-cases}
use nyxora.Common.Lists.{Has, here, there, All, All-Has}
use nyxora.Common.Sort.{IsStrictWeak, less_irrefl}

module _ {ℓ} {A : Type ℓ} where
  -- The loop `if best == nil || less(backend, best) { best = backend }`.
  unfoldable pub keep_least : (A → A → Bool) → Option (A) → List (A) → Option (A)
  keep_least less best [] = best
  keep_least less none (b ∷ bs) = keep_least less (some b) bs
  keep_least less (some best) (b ∷ bs) = keep_least less (some (if less b best then b else best)) bs

  -- The search returns an element, unless there is none.
  pub keep_least-Has :
      (less : A → A → Bool) (best : A) (bs : List (A))
      → (b : A) × (keep_least less (some best) bs ≡ some b) × Has b (best ∷ bs)
  unfolding keep_least
  keep_least-Has less best [] = (best, refl, here)
  keep_least-Has less best (x ∷ bs) = elim (Bool-cases (less x best)) [
    | inl p ↦ let (b, e, h) = keep_least-Has less x bs in rw p (b, e, there h)
    | inr p ↦ let (b, e, h) = keep_least-Has less best bs in rw p (b, e, skip_second h)
  ]
    where
      skip_second : {b : A} → Has b (best ∷ bs) → Has b (best ∷ x ∷ bs)
      skip_second here = here
      skip_second (there h) = there (there h)

  -- With a sensible comparison nothing is less than the element that the search returns.
  pub keep_least-min :
      (less : A → A → Bool) (w : IsStrictWeak less) (best : A) (bs : List (A)) {b : A}
      → keep_least less (some best) bs ≡ some b
      → All (λ x. less x b ≡ false) (best ∷ bs)
  unfolding keep_least
  keep_least-min less w best [] e =
      (subst (λ z. less best z ≡ false) (some-injective _ _ e) (less_irrefl less w best), tt)
  keep_least-min less w best (x ∷ bs) {b} e = elim (Bool-cases (less x best)) [
    | inl p ↦
        let rest = keep_least-min less w x bs (rw p at e) in
        (w.not_less_trans b x best rest.0 (w.asymm x best p), rest)
    | inr p ↦
        let rest = keep_least-min less w best bs (rw p at e) in
        (rest.0, (w.not_less_trans b best x rest.0 p, rest.1))
  ]

  pub keep_least_minimum :
      (less : A → A → Bool) (w : IsStrictWeak less) (xs : List A) {b x : A}
      → keep_least less none xs ≡ some b
      → Has x xs
      → less x b ≡ false
  unfolding keep_least
  keep_least_minimum less w [] e h = elim h [ ]
  keep_least_minimum less w (y ∷ ys) {b} e h =
      All-Has (λ z. less z b ≡ false) (y ∷ ys) (keep_least-min less w y ys e) h
