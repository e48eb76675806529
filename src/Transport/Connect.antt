-- ===== src/Transport/Connect.antt =====
-- The candidates and the failures of `ConnectAll` of internal/transport/manager.go, and its flags.
use mathlib.Core.Path.{◌≡◌, refl, ap, ◌∙◌}
use mathlib.Core.Logic.{◌⊎◌, inl, inr, ◌↔◌}
use nyxora.Common.{
  ◌+◌, Bool, true, false, not, String, str_eq, Option, some, List, [], ◌∷◌, ◌++◌, map,
  if◌then◌else◌, length, keep, arith, Bool-cases, Has, here, there, Has-keep, keep-Has, length-map,
}
use nyxora.Common.Float.{Float64}
use nyxora.Common.Sort.{sort_slice, sort_slice-Has, length-sort_slice}
use nyxora.Common.Assoc.{get, put, get-put, str_eq_self, name_eq}
use nyxora.Transport.Manager.{ConnectResult, flag, or_false, names, higher, activate_all}

module _ {ℓ κ} {A : Type ℓ} {B : Type κ} where
  pub Has-map : (f : A → B) (xs : List A) {x : A} → Has x xs → Has (f x) (map f xs)
  Has-map f [] h = elim h [ ]
  Has-map f (y ∷ xs) here = here
  Has-map f (y ∷ xs) (there h) = there (Has-map f xs h)

module _ {ℓ} {A : Type ℓ} where
  pub Has-left : (xs ys : List A) {x : A} → Has x xs → Has x (xs ++ ys)
  Has-left [] ys h = elim h [ ]
  Has-left (y ∷ xs) ys here = here
  Has-left (y ∷ xs) ys (there h) = there (Has-left xs ys h)

  pub Has-right : (xs ys : List A) {x : A} → Has x ys → Has x (xs ++ ys)
  Has-right [] ys h = h
  Has-right (y ∷ xs) ys h = there (Has-right xs ys h)

  length-keep_split :
      (p : A → Bool) (xs : List A)
      → length (keep p xs) + length (keep (λ x. not (p x)) xs) ≡ length xs
  length-keep_split p [] = refl
  length-keep_split p (x ∷ xs) = ground (arith, length-keep_split p xs)

or_false-if :
    (b v : Bool) (o : Option Bool)
    → or_false (if b then some v else o) ≡ (if b then v else or_false o)
or_false-if b v o = ground arith

pub flag-put :
    (m : List (String × Bool)) (k : String) (v : Bool) (l : String)
    → flag (put m k v) l ≡ (if str_eq k l then v else flag m l)
flag-put m k v l = ap or_false (get-put m k v l) ∙ or_false-if (str_eq k l) v (get m l)

pub flag-put_keeps :
    (m : List (String × Bool)) (k l : String) → flag m l ≡ true → flag (put m k true) l ≡ true
flag-put_keeps m k l h = ground (arith, flag-put m k true l)

module _ {F : Type 0} where
  pub activate_all-keeps :
      (cs : List (ConnectResult F)) (flags : List (String × Bool)) (k : String)
      → flag flags k ≡ true
      → flag (activate_all cs flags) k ≡ true
  unfolding activate_all
  activate_all-keeps [] flags k h = h
  activate_all-keeps (c ∷ cs) flags k h =
      activate_all-keeps cs (put flags c.name true) k (flag-put_keeps flags c.name k h)

  pub activate_all-Has :
      (cs : List (ConnectResult F)) (flags : List (String × Bool)) {c : ConnectResult F}
      → Has c cs
      → flag (activate_all cs flags) c.name ≡ true
  unfolding activate_all
  activate_all-Has [] flags h = elim h [ ]
  activate_all-Has (c ∷ cs) flags here =
      activate_all-keeps cs (put flags c.name true) c.name
        (rw (flag-put flags c.name true c.name, str_eq_self c.name) refl)
  activate_all-Has (d ∷ cs) flags (there h) = activate_all-Has cs (put flags d.name true) h

  pub activate_all-from :
      (cs : List (ConnectResult F)) (flags : List (String × Bool)) (k : String)
      → flag (activate_all cs flags) k ≡ true
      → (flag flags k ≡ true) ⊎ ((c : ConnectResult F) × Has c cs × (c.name ≡ k))
  unfolding activate_all
  activate_all-from [] flags k h = inl h
  activate_all-from (c ∷ cs) flags k h = elim (activate_all-from cs (put flags c.name true) k h) [
    | inr (d, i, e) ↦ inr (d, there i, e)
    | inl e ↦ elim (Bool-cases (str_eq c.name k)) [
      | inl s ↦ inr (c, here, name_eq c.name k s)
      | inr s ↦ inl (ground (arith, flag-put flags c.name true k))
    ]
  ]

module _ {F : Type 0} ⦃fl : Float64 F⦄ where
  -- The results without an error, in order of their scores.
  abbrev pub candidates : List (ConnectResult F) → List (ConnectResult F)
  candidates results = sort_slice higher (keep (λ r. not r.is_error) results)

  abbrev pub failures : List (ConnectResult F) → List String
  failures results = names (keep (λ r. r.is_error) results)

  pub candidates-Has :
      (results : List (ConnectResult F)) {c : ConnectResult F}
      → (Has c results × (c.is_error ≡ false)) ↔ Has c (candidates results)
  candidates-Has results {c} = (
    λ h. (sort_slice-Has higher _).0 (keep-Has (λ r. not r.is_error) results (rw h.1 refl) h.0),
    λ h.
        let k = Has-keep (λ r. not r.is_error) results ((sort_slice-Has higher _).1 h) in
        (k.0, ground arith),
  )

  pub length-candidates :
      (results : List (ConnectResult F))
      → length (failures results) + length (candidates results) ≡ length results
  length-candidates results = omega (
    arith,
    length-map (λ (r : ConnectResult F). r.name) (keep (λ r. r.is_error) results),
    length-sort_slice higher (keep (λ r. not r.is_error) results),
    length-keep_split (λ (r : ConnectResult F). r.is_error) results,
  )

  pub failures-Has :
      (results : List (ConnectResult F)) {r : ConnectResult F}
      → Has r results
      → r.is_error ≡ true
      → Has r.name (failures results)
  failures-Has results h e = Has-map (λ r. r.name) _ (keep-Has (λ r. r.is_error) results e h)
