-- ===== src/Common/Lists.antt =====
-- Slices as lists, measured and indexed by native numbers, and predicates over them.
use Prim.Native.Nat.{ℕ, zero, suc, ◌+◌, ◌-◌, ◌≤◌, ◌<◌, min}
use mathlib.Core.Path.{◌≡◌, refl, ap, sym, subst, ◌∙◌}
use mathlib.Core.Logic.{◌⊎◌, inl, inr}
use mathlib.Core.Bool.{Bool, true, false}
use mathlib.Core.Option.{Option, none, some, some-injective}
use mathlib.Core.List.{List, [], ◌∷◌, ◌++◌, map}
use native.Mathlib.Omega.{arith}
use nyxora.Common.Tests.{if◌then◌else◌, Bool-cases}

module _ {ℓ} {A : Type ℓ} where
  abbrev pub length : List A → ℕ
  length [] = 0
  length (x ∷ xs) = suc (length xs)

  abbrev pub get_elem? : List A → ℕ → Option A
  get_elem? [] i = none
  get_elem? (x ∷ xs) zero = some x
  get_elem? (x ∷ xs) (suc i) = get_elem? xs i

  abbrev pub take : ℕ → List A → List A
  take zero xs = []
  take (suc n) [] = []
  take (suc n) (x ∷ xs) = x ∷ take n xs

  abbrev pub drop : ℕ → List A → List A
  drop zero xs = xs
  drop (suc n) [] = []
  drop (suc n) (x ∷ xs) = drop n xs

  abbrev pub replicate : ℕ → A → List A
  replicate zero a = []
  replicate (suc n) a = a ∷ replicate n a

  -- The elements that pass a test, in order: `append` under an `if` in a `range` loop.
  abbrev pub keep : (A → Bool) → List A → List A
  keep p [] = []
  keep p (x ∷ xs) = let rest = keep p xs in if p x then x ∷ rest else rest

  -- `Has x xs`: x is an element of xs, with its place.
  pub data Has (x : A) : List A → Type ℓ where
    here : {xs : List A} → Has x (x ∷ xs)
    there : {y : A} {xs : List A} → Has x xs → Has x (y ∷ xs)

  abbrev pub All {κ} : (A → Type κ) → List A → Type κ
  All P [] = Unit
  All P (x ∷ xs) = P x × All P xs

  pub All-Has {κ} : (P : A → Type κ) {x : A} (xs : List A) → All P xs → Has x xs → P x
  All-Has P [] ps h = elim h [ ]
  All-Has P (x ∷ xs) ps here = ps.0
  All-Has P (x ∷ xs) ps (there h) = All-Has P xs ps.1 h

  pub All-of {κ} : (P : A → Type κ) (xs : List A) → ((x : A) → Has x xs → P x) → All P xs
  All-of P [] f = tt
  All-of P (x ∷ xs) f = (f x here, All-of P xs (λ y h. f y (there h)))

  pub length-append : (xs ys : List A) → length (xs ++ ys) ≡ length xs + length ys
  length-append [] ys = omega arith
  length-append (x ∷ xs) ys = omega (arith, length-append xs ys)

  pub length-replicate : (n : ℕ) (a : A) → length (replicate n a) ≡ n
  length-replicate zero a = refl
  length-replicate (suc n) a = ap suc (length-replicate n a)

  pub get_elem?-Has : (xs : List A) (i : ℕ) {x : A} → get_elem? xs i ≡ some x → Has x xs
  get_elem?-Has [] i e = cc
  get_elem?-Has (y ∷ xs) zero {x} e = subst (λ z. Has z (y ∷ xs)) (some-injective _ _ e) here
  get_elem?-Has (y ∷ xs) (suc i) e = there (get_elem?-Has xs i e)

  pub get_elem?-lt : (xs : List A) (i : ℕ) → i < length xs → (x : A) × (get_elem? xs i ≡ some x)
  get_elem?-lt [] i h = elim h [ ]
  get_elem?-lt (x ∷ xs) zero h = (x, refl)
  get_elem?-lt (x ∷ xs) (suc i) h = get_elem?-lt xs i (omega arith)

  pub get_elem?-append_left :
      (xs ys : List A) (i : ℕ) → i < length xs → get_elem? (xs ++ ys) i ≡ get_elem? xs i
  get_elem?-append_left [] ys i h = elim h [ ]
  get_elem?-append_left (x ∷ xs) ys zero h = refl
  get_elem?-append_left (x ∷ xs) ys (suc i) h = get_elem?-append_left xs ys i (omega arith)

  pub get_elem?-append_right :
      (xs ys : List A) (i : ℕ)
      → length xs ≤ i
      → get_elem? (xs ++ ys) i ≡ get_elem? ys (i - length xs)
  get_elem?-append_right [] ys i h = ap (get_elem? ys) (omega arith)
  get_elem?-append_right (x ∷ xs) ys zero h = absurd (omega arith)
  get_elem?-append_right (x ∷ xs) ys (suc i) h =
      get_elem?-append_right xs ys i (omega arith) ∙ ap (get_elem? ys) (omega arith)

  pub get_elem?-replicate : (n i : ℕ) (a : A) → i < n → get_elem? (replicate n a) i ≡ some a
  get_elem?-replicate zero i a h = elim h [ ]
  get_elem?-replicate (suc n) zero a h = refl
  get_elem?-replicate (suc n) (suc i) a h = get_elem?-replicate n i a (omega arith)

  -- An element kept is an element that passes the test, and the other way round.
  Has-cons_if :
      (b : Bool) (y : A) (rest : List A) {x : A}
      → Has x (if b then y ∷ rest else rest)
      → ((x ≡ y) × (b ≡ true)) ⊎ Has x rest
  Has-cons_if true y rest here = inl (refl, refl)
  Has-cons_if true y rest (there h) = inr h
  Has-cons_if false y rest h = inr h

  pub Has-keep : (p : A → Bool) (xs : List A) {x : A} → Has x (keep p xs) → Has x xs × (p x ≡ true)
  Has-keep p [] h = elim h [ ]
  Has-keep p (y ∷ xs) {x} h = elim (Has-cons_if (p y) y (keep p xs) h) [
    | inl e ↦ (subst (λ z. Has z (y ∷ xs)) (sym e.0) here, ap p e.0 ∙ e.1)
    | inr k ↦ (there (Has-keep p xs k).0, (Has-keep p xs k).1)
  ]

  pub Has-if_tail :
      (b : Bool) (y : A) (rest : List A) {x : A} → Has x rest → Has x (if b then y ∷ rest else rest)
  Has-if_tail true y rest h = there h
  Has-if_tail false y rest h = h

  pub keep-Has : (p : A → Bool) {x : A} (xs : List A) → p x ≡ true → Has x xs → Has x (keep p xs)
  keep-Has p [] t h = elim h [ ]
  keep-Has p (y ∷ xs) t here = rw t here
  keep-Has p (y ∷ xs) t (there h) = Has-if_tail (p y) y (keep p xs) (keep-Has p xs t h)

  pub length-keep-le : (p : A → Bool) (xs : List A) → length (keep p xs) ≤ length xs
  length-keep-le p [] = omega arith
  length-keep-le p (x ∷ xs) = ground (arith, length-keep-le p xs)

module _ {ℓ} {A : Type ℓ} where
  pub no_element : (xs : List A) → length xs ≡ 0 → {x : A} → Has x xs → ⊥
  no_element [] e h = elim h [ ]
  no_element (y ∷ ys) e h = omega arith

  -- If nothing is kept, no element passes the test.
  pub keep_none :
      (p : A → Bool) (xs : List A) {x : A} → length (keep p xs) ≡ 0 → Has x xs → p x ≡ false
  keep_none p xs {x} e h = elim (Bool-cases (p x)) [
    | inl t ↦ absurd (no_element (keep p xs) e (keep-Has p xs t h))
    | inr f ↦ f
  ]

  pub Has-split : {x y : A} {ys : List A} → Has x (y ∷ ys) → (x ≡ y) ⊎ Has x ys
  Has-split here = inl refl
  Has-split (there h) = inr h

  pub Has-drop : (n : ℕ) (xs : List A) {x : A} → Has x (drop n xs) → Has x xs
  Has-drop zero xs h = h
  Has-drop (suc n) [] h = h
  Has-drop (suc n) (y ∷ xs) h = there (Has-drop n xs h)

  pub Has-take : (n : ℕ) (xs : List A) {x : A} → Has x (take n xs) → Has x xs
  Has-take zero xs h = elim h [ ]
  Has-take (suc n) [] h = h
  Has-take (suc n) (y ∷ xs) here = here
  Has-take (suc n) (y ∷ xs) (there h) = there (Has-take n xs h)

  pub Has-cut : (n : ℕ) (xs : List A) {x : A} → Has x xs → Has x (take n xs) ⊎ Has x (drop n xs)
  Has-cut zero xs h = inr h
  Has-cut (suc n) [] h = inl h
  Has-cut (suc n) (y ∷ xs) here = inl here
  Has-cut (suc n) (y ∷ xs) (there h) = elim (Has-cut n xs h) [
    | inl k ↦ inl (there k)
    | inr k ↦ inr k
  ]

  pub length-drop : (n : ℕ) (xs : List A) → length (drop n xs) ≡ length xs - n
  length-drop zero xs = omega arith
  length-drop (suc n) [] = omega arith
  length-drop (suc n) (x ∷ xs) = omega (arith, length-drop n xs)

  pub take_all : (n : ℕ) (xs : List A) → length xs ≤ n → take n xs ≡ xs
  take_all zero [] h = refl
  take_all zero (x ∷ xs) h = absurd (omega arith)
  take_all (suc n) [] h = refl
  take_all (suc n) (x ∷ xs) h = ap (◌∷◌ x) (take_all n xs (omega arith))

  pub length-take : (n : ℕ) (xs : List A) → length (take n xs) ≡ min n (length xs)
  length-take zero xs = omega arith
  length-take (suc n) [] = omega arith
  length-take (suc n) (x ∷ xs) = omega (arith, length-take n xs)

pub length-map {ℓ κ} :
    {A : Type ℓ} {B : Type κ} (f : A → B) (xs : List A) → length (map f xs) ≡ length xs
length-map f [] = refl
length-map f (x ∷ xs) = ap suc (length-map f xs)
