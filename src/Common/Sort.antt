-- ===== src/Common/Sort.antt =====
-- `sort.Slice(xs, less)`, as the insertion sort that Go runs on short slices. On longer ones Go may
-- leave elements that compare equal in another order, of which no theorem speaks.
use Prim.Native.Nat.{ℕ, zero, suc, ◌+◌}
use mathlib.Core.Path.{subst, sym, ◌∙◌, ◌≡◌, refl}
use mathlib.Core.Logic.{◌↔◌, inl, inr}
use mathlib.Core.Bool.{Bool, true, false, false≢true}
use mathlib.Core.Option.{some, some-injective}
use mathlib.Core.List.{List, [], ◌∷◌}
use native.Mathlib.Omega.{arith}
use nyxora.Common.Tests.{if◌then◌else◌, Bool-cases}
use nyxora.Common.Float.{Float64, IsOrdered}
use nyxora.Common.Lists.{
  Has, here, there, All, All-Has, All-of, length, get_elem?, take, drop, Has-drop, Has-cut,
}

-- What `sort.Slice` asks of its `less`.
pub record IsStrictWeak {ℓ} {A : Type ℓ} (less : A → A → Bool) : Type ℓ where
  pub asymm : (x y : A) → less x y ≡ true → less y x ≡ false
  pub not_less_trans : (x y z : A) → less y x ≡ false → less z y ≡ false → less z x ≡ false

pub less_irrefl {ℓ} :
    {A : Type ℓ} (less : A → A → Bool) (w : IsStrictWeak less) (x : A) → less x x ≡ false
less_irrefl less w x = elim (Bool-cases (less x x)) [ inl e ↦ w.asymm x x e | inr e ↦ e ]

module _ {ℓ} {A : Type ℓ} where
  unfoldable pub insert_sorted : (A → A → Bool) → A → List A → List A
  insert_sorted less x [] = x ∷ []
  insert_sorted less x (y ∷ ys) =
      let rest = insert_sorted less x ys in if less x y then x ∷ y ∷ ys else y ∷ rest

  insert_all : (A → A → Bool) → List A → List A → List A
  insert_all less [] out = out
  insert_all less (x ∷ xs) out = insert_all less xs (insert_sorted less x out)

  unfoldable pub sort_slice : (A → A → Bool) → List A → List A
  unfolding insert_sorted insert_all
  sort_slice less xs = insert_all less xs []

  -- No element comes before an earlier one.
  abbrev pub IsSorted : (A → A → Bool) → List A → Type 0
  IsSorted less [] = Unit
  IsSorted less (x ∷ xs) = All (λ y. less y x ≡ false) xs × IsSorted less xs

module _ {ℓ} {A : Type ℓ} (less : A → A → Bool) where
  insert_sorted-All {κ} :
      (P : A → Type κ) (x : A) (ys : List A) → P x → All P ys → All P (insert_sorted less x ys)
  unfolding insert_sorted
  insert_sorted-All P x [] p ps = (p, tt)
  insert_sorted-All P x (y ∷ ys) p ps = elim (Bool-cases (less x y)) [
    | inl e ↦ rw e (p, ps)
    | inr e ↦ rw e (ps.0, insert_sorted-All P x ys p ps.1)
  ]

  insert_all-All {κ} :
      (P : A → Type κ) (xs out : List A) → All P xs → All P out → All P (insert_all less xs out)
  unfolding insert_all
  insert_all-All P [] out p q = q
  insert_all-All P (x ∷ xs) out p q =
      insert_all-All P xs (insert_sorted less x out) p.1 (insert_sorted-All P x out p.0 q)

  -- What holds of every element of a slice holds of every element of the sorted slice.
  pub sort_slice-All {κ} : (P : A → Type κ) (xs : List A) → All P xs → All P (sort_slice less xs)
  unfolding sort_slice
  sort_slice-All P xs p = insert_all-All P xs [] p tt

  insert_sorted-Has_new : (x : A) (ys : List A) → Has x (insert_sorted less x ys)
  unfolding insert_sorted
  insert_sorted-Has_new x [] = here
  insert_sorted-Has_new x (y ∷ ys) = elim (Bool-cases (less x y)) [
    | inl e ↦ rw e here
    | inr e ↦ rw e (there (insert_sorted-Has_new x ys))
  ]

  insert_sorted-Has : (x : A) {y : A} (ys : List A) → Has y ys → Has y (insert_sorted less x ys)
  unfolding insert_sorted
  insert_sorted-Has x [] h = elim h [ ]
  insert_sorted-Has x (y ∷ ys) here = elim (Bool-cases (less x y)) [
    | inl e ↦ rw e (there here)
    | inr e ↦ rw e here
  ]
  insert_sorted-Has x (y ∷ ys) (there h) = elim (Bool-cases (less x y)) [
    | inl e ↦ rw e (there (there h))
    | inr e ↦ rw e (there (insert_sorted-Has x ys h))
  ]

  insert_all-Has_out : (xs out : List A) {y : A} → Has y out → Has y (insert_all less xs out)
  unfolding insert_all
  insert_all-Has_out [] out h = h
  insert_all-Has_out (x ∷ xs) out h =
      insert_all-Has_out xs (insert_sorted less x out) (insert_sorted-Has x out h)

  insert_all-Has : (xs out : List A) {y : A} → Has y xs → Has y (insert_all less xs out)
  unfolding insert_all
  insert_all-Has [] out h = elim h [ ]
  insert_all-Has (x ∷ xs) out here =
      insert_all-Has_out xs (insert_sorted less x out) (insert_sorted-Has_new x out)
  insert_all-Has (x ∷ xs) out (there h) = insert_all-Has xs (insert_sorted less x out) h

  -- Sorting loses no element and invents none.
  pub sort_slice-Has : (xs : List A) {y : A} → Has y xs ↔ Has y (sort_slice less xs)
  unfolding sort_slice
  sort_slice-Has xs {y} = (
    insert_all-Has xs [],
    λ h.
        All-Has (λ z. Has z xs) (sort_slice less xs)
          (sort_slice-All (λ z. Has z xs) xs (All-of (λ z. Has z xs) xs (λ z k. k))) h,
  )

  length-insert_sorted : (x : A) (ys : List A) → length (insert_sorted less x ys) ≡ suc (length ys)
  unfolding insert_sorted
  length-insert_sorted x [] = refl
  length-insert_sorted x (y ∷ ys) = ground (arith, length-insert_sorted x ys)

  length-insert_all : (xs out : List A) → length (insert_all less xs out) ≡ length xs + length out
  unfolding insert_all
  length-insert_all [] out = omega arith
  length-insert_all (x ∷ xs) out =
      omega (arith, length-insert_all xs (insert_sorted less x out), length-insert_sorted x out)

  pub length-sort_slice : (xs : List A) → length (sort_slice less xs) ≡ length xs
  unfolding sort_slice
  length-sort_slice xs = omega (arith, length-insert_all xs [])

  module _ (w : IsStrictWeak less) where
    open w use {asymm, not_less_trans}

    below_trans :
        {x y : A} (ys : List A)
        → less y x ≡ false
        → All (λ z. less z y ≡ false) ys
        → All (λ z. less z x ≡ false) ys
    below_trans [] h p = tt
    below_trans {x} {y} (z ∷ ys) h p = (not_less_trans x y z h p.0, below_trans ys h p.1)

    insert_sorted-IsSorted :
        (x : A) (ys : List A) → IsSorted less ys → IsSorted less (insert_sorted less x ys)
    unfolding insert_sorted
    insert_sorted-IsSorted x [] s = (tt, tt)
    insert_sorted-IsSorted x (y ∷ ys) s = elim (Bool-cases (less x y)) [
      | inl e ↦ rw e ((asymm x y e, below_trans ys (asymm x y e) s.0), s)
      | inr e ↦
          rw e
            (insert_sorted-All (λ z. less z y ≡ false) x ys e s.0, insert_sorted-IsSorted x ys s.1)
    ]

    insert_all-IsSorted :
        (xs out : List A) → IsSorted less out → IsSorted less (insert_all less xs out)
    unfolding insert_all
    insert_all-IsSorted [] out s = s
    insert_all-IsSorted (x ∷ xs) out s =
        insert_all-IsSorted xs (insert_sorted less x out) (insert_sorted-IsSorted x out s)

    pub sort_slice-IsSorted : (xs : List A) → IsSorted less (sort_slice less xs)
    unfolding sort_slice
    sort_slice-IsSorted xs = insert_all-IsSorted xs [] tt

module _ {ℓ} {A : Type ℓ} (less : A → A → Bool) where
  IsSorted-first :
      (w : IsStrictWeak less) (xs : List A) {x y : A}
      → IsSorted less xs
      → get_elem? xs 0 ≡ some x
      → Has y xs
      → less y x ≡ false
  IsSorted-first w [] s e h = elim h [ ]
  IsSorted-first w (z ∷ zs) {x} {y} s e h =
      subst (λ t. less y t ≡ false) (some-injective _ _ e)
        (All-Has (λ t. less t z ≡ false) (z ∷ zs) (less_irrefl less w z, s.0) h)

  -- Nothing comes before the first element of the sorted slice.
  pub sort_slice-first :
      (w : IsStrictWeak less) (xs : List A) {x y : A}
      → get_elem? (sort_slice less xs) 0 ≡ some x
      → Has y xs
      → less y x ≡ false
  sort_slice-first w xs e h =
      IsSorted-first w (sort_slice less xs) (sort_slice-IsSorted less w xs) e
        ((sort_slice-Has less xs).0 h)

  IsSorted-cut :
      (n : ℕ) (xs : List A) {x y : A}
      → IsSorted less xs
      → Has x (take n xs)
      → Has y (drop n xs)
      → less y x ≡ false
  IsSorted-cut zero xs s h k = elim h [ ]
  IsSorted-cut (suc n) [] s h k = elim h [ ]
  IsSorted-cut (suc n) (z ∷ zs) s here k = All-Has (λ t. less t z ≡ false) zs s.0 (Has-drop n zs k)
  IsSorted-cut (suc n) (z ∷ zs) s (there h) k = IsSorted-cut n zs s.1 h k

  -- A prefix of the sorted slice holds everything that comes before one of its elements.
  pub sort_slice-prefix :
      (w : IsStrictWeak less) (n : ℕ) (xs : List A) {x y : A}
      → Has x (take n (sort_slice less xs))
      → Has y xs
      → less y x ≡ true
      → Has y (take n (sort_slice less xs))
  sort_slice-prefix w n xs h k before =
      elim (Has-cut n (sort_slice less xs) ((sort_slice-Has less xs).0 k)) [
        | inl front ↦ front
        | inr back ↦
            absurd
              (false≢true (sym (IsSorted-cut n _ (sort_slice-IsSorted less w xs) h back) ∙ before))
      ]

-- Ordering by a float.
module _ {ℓ} {F : Type 0} ⦃fl : Float64 F⦄ {A : Type ℓ} (key : A → F) (ordered : IsOrdered F) where
  open ordered use {lt_not_le, le_trans, le_total}

  pub ascending-IsStrictWeak : IsStrictWeak (λ x y. fl.lt (key x) (key y))
  ascending-IsStrictWeak = record {
    asymm = λ x y h.
        ground
          (arith, lt_not_le (key x) (key y), lt_not_le (key y) (key x), le_total (key x) (key y));
    not_less_trans = λ x y z h k. ground (
      arith,
      lt_not_le (key y) (key x),
      lt_not_le (key z) (key y),
      lt_not_le (key z) (key x),
      le_trans (key x) (key y) (key z),
    );
  }

  pub descending-IsStrictWeak : IsStrictWeak (λ x y. fl.lt (key y) (key x))
  descending-IsStrictWeak = record {
    asymm = λ x y h. ascending-IsStrictWeak.asymm y x h;
    not_less_trans = λ x y z h k. ascending-IsStrictWeak.not_less_trans z y x k h;
  }
