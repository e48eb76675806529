-- ===== src/Common/Assoc.antt =====
-- Go's maps with string keys, as association lists. The order of the list is the order in which a
-- `range` over the map comes by its entries; Go leaves that order open, and the theorems are about
-- every list.
use mathlib.Core.Path.{◌≡◌, refl, ap}
use mathlib.Core.Logic.{◌≢◌, inl, inr}
use mathlib.Core.Bool.{true, false}
use mathlib.Core.Option
use mathlib.Core.Option.{Option, none, some}
use mathlib.Core.List.{List, [], ◌∷◌, map}
use Prim.Native.String.{String}
use text.Mathlib.Text.{◌==◌ as str_eq}
use text.Mathlib.TextEquality.{eq_iff}
use native.Mathlib.Omega.{arith}
use nyxora.Common.Tests.{if◌then◌else◌, Bool-cases}

pub name_eq : (a b : String) → str_eq a b ≡ true → a ≡ b
name_eq a b = (eq_iff a b).0

pub name_ne : (a b : String) → str_eq a b ≡ false → a ≢ b
name_ne a b h e = ground (arith, (eq_iff a b).1 e)

pub str_eq_self : (a : String) → str_eq a a ≡ true
str_eq_self a = (eq_iff a a).1 refl

pub ne-str_eq : (a b : String) → a ≢ b → str_eq a b ≡ false
ne-str_eq a b h = elim (Bool-cases (str_eq a b)) [ inl e ↦ absurd (h (name_eq a b e)) | inr e ↦ e ]

module _ {ℓ} {V : Type ℓ} where
  -- `v, ok := m[k]`
  unfoldable pub get : List (String × V) → String → Option V
  get [] k = none
  get (e ∷ m) k = let rest = get m k in if str_eq e.0 k then some e.1 else rest

  -- `m[k] = v`
  unfoldable pub put : List (String × V) → String → V → List (String × V)
  put [] k v = (k, v) ∷ []
  put (e ∷ m) k v = let rest = put m k v in if str_eq e.0 k then (e.0, v) ∷ m else e ∷ rest

  -- `delete(m, k)`
  unfoldable pub remove : List (String × V) → String → List (String × V)
  remove [] k = []
  remove (e ∷ m) k = let rest = remove m k in if str_eq e.0 k then rest else e ∷ rest

  pub get-put :
      (m : List (String × V)) (k : String) (v : V) (l : String)
      → get (put m k v) l ≡ (if str_eq k l then some v else get m l)
  unfolding get put
  get-put [] k v l = refl
  get-put (e ∷ m) k v l = ground (arith, eq_iff e.0 k, eq_iff e.0 l, eq_iff k l, get-put m k v l)

  pub get-remove :
      (m : List (String × V)) (k l : String)
      → get (remove m k) l ≡ (if str_eq k l then none else get m l)
  unfolding get remove
  get-remove [] k l = ground arith
  get-remove (e ∷ m) k l = ground (arith, eq_iff e.0 k, eq_iff e.0 l, eq_iff k l, get-remove m k l)

  -- The values, in the order of a `range` over the map.
  abbrev pub values : List (String × V) → List V
  values [] = []
  values (e ∷ m) = e.1 ∷ values m

  -- A write through every pointer of the map.
  unfoldable pub update_all : (V → V) → List (String × V) → List (String × V)
  update_all f [] = []
  update_all f (e ∷ m) = (e.0, f e.1) ∷ update_all f m

  -- A write through the pointer `m[k]`, if there is one.
  unfoldable pub modify : List (String × V) → String → (V → V) → List (String × V)
  modify [] k f = []
  modify (e ∷ m) k f =
      let rest = modify m k f in if str_eq e.0 k then (e.0, f e.1) ∷ m else e ∷ rest

  pub values-update_all :
      (f : V → V) (m : List (String × V)) → values (update_all f m) ≡ map f (values m)
  unfolding update_all
  values-update_all f [] = refl
  values-update_all f (e ∷ m) = ap (◌∷◌ (f e.1)) (values-update_all f m)

  pub get-modify :
      (m : List (String × V)) (k : String) (f : V → V) (l : String)
      → get (modify m k f) l ≡ (if str_eq k l then Option.map f (get m l) else get m l)
  unfolding get modify
  get-modify [] k f l = ground arith
  get-modify (e ∷ m) k f l =
      ground (arith, eq_iff e.0 k, eq_iff e.0 l, eq_iff k l, get-modify m k f l)
