-- ===== src/Transport/Tunnels.antt =====
-- What the registry of internal/transport/registry.go holds.
use mathlib.Core.Path.{subst}
use mathlib.Core.Option.{some-injective}
use nyxora.Common.{
  sym, ◌≡◌, refl, Bool, true, false, not, String, str_eq, some, List, [], ◌∷◌, arith, Bool-cases,
  inl, inr, ◌↔◌, Has, here, there, All, All-Has, Has-keep, keep-Has, ◌&&◌,
}
use nyxora.Common.Assoc.{name_eq, str_eq_self}
use nyxora.Transport.Registry.{
  Category, vpn, tunnel, relay, proxy, category_name, TunnelMeta, tunnel_registry, find_tunnel,
  lookup_tunnel, list_tunnels, category_list,
}

-- No two entries share a name.
abbrev AreDistinct : List TunnelMeta → Type 0
AreDistinct [] = Unit
AreDistinct (t ∷ ts) = All (λ u. str_eq t.name u.name ≡ false) ts × AreDistinct ts

abbrev is_absent : String → List TunnelMeta → Bool
is_absent name [] = true
is_absent name (t ∷ ts) = not (str_eq name t.name) && is_absent name ts

abbrev are_distinct : List TunnelMeta → Bool
are_distinct [] = true
are_distinct (t ∷ ts) = is_absent t.name ts && are_distinct ts

is_absent_lem :
    (name : String) (ts : List TunnelMeta)
    → is_absent name ts ≡ true
    → All (λ u. str_eq name u.name ≡ false) ts
is_absent_lem name [] h = tt
is_absent_lem name (t ∷ ts) h = (ground arith, is_absent_lem name ts (ground arith))

are_distinct_lem : (ts : List TunnelMeta) → are_distinct ts ≡ true → AreDistinct ts
are_distinct_lem [] h = tt
are_distinct_lem (t ∷ ts) h =
    (is_absent_lem t.name ts (ground arith), are_distinct_lem ts (ground arith))

Has-find_tunnel :
    (ts : List TunnelMeta) (name : String) {t : TunnelMeta}
    → find_tunnel ts name ≡ some t
    → Has t ts × (t.name ≡ name)
unfolding find_tunnel
Has-find_tunnel [] name e = absurd (ground arith)
Has-find_tunnel (u ∷ ts) name {t} e = elim (Bool-cases (str_eq u.name name)) [
  | inl s ↦ found s (some-injective _ _ (rw s at e))
  | inr s ↦ later (Has-find_tunnel ts name (rw s at e))
]
  where
    found : str_eq u.name name ≡ true → u ≡ t → Has t (u ∷ ts) × (t.name ≡ name)
    found s q = subst (λ x. Has x (u ∷ ts) × (x.name ≡ name)) q (here, name_eq u.name name s)

    later : Has t ts × (t.name ≡ name) → Has t (u ∷ ts) × (t.name ≡ name)
    later h = (there h.0, h.1)

find_tunnel-Has :
    (ts : List TunnelMeta) {t : TunnelMeta}
    → AreDistinct ts
    → Has t ts
    → find_tunnel ts t.name ≡ some t
unfolding find_tunnel
find_tunnel-Has [] d h = elim h [ ]
find_tunnel-Has (u ∷ ts) d here = rw (str_eq_self u.name) refl
find_tunnel-Has (u ∷ ts) {t} d (there h) =
    let other : str_eq u.name t.name ≡ false =
      All-Has (λ x. str_eq u.name x.name ≡ false) ts d.0 h in
    rw other (find_tunnel-Has ts d.1 h)

-- LookupTunnel finds exactly the entries of the registry, each by its name: no two of them share
-- one.
lookup_tunnel_iff :
    (name : String) (t : TunnelMeta)
    → (lookup_tunnel name ≡ some t) ↔ (Has t list_tunnels × (t.name ≡ name))
unfolding lookup_tunnel list_tunnels
lookup_tunnel_iff name t = (
  Has-find_tunnel tunnel_registry name,
  λ h.
      subst (λ n. find_tunnel tunnel_registry n ≡ some t) h.1
        (find_tunnel-Has tunnel_registry (are_distinct_lem tunnel_registry refl) h.0),
)

category_name_lem : (c d : Category) → str_eq (category_name c) (category_name d) ≡ true → c ≡ d
category_name_lem vpn vpn h = refl
category_name_lem tunnel tunnel h = refl
category_name_lem relay relay h = refl
category_name_lem proxy proxy h = refl
category_name_lem vpn tunnel h = absurd (ground arith)
category_name_lem vpn relay h = absurd (ground arith)
category_name_lem vpn proxy h = absurd (ground arith)
category_name_lem tunnel vpn h = absurd (ground arith)
category_name_lem tunnel relay h = absurd (ground arith)
category_name_lem tunnel proxy h = absurd (ground arith)
category_name_lem relay vpn h = absurd (ground arith)
category_name_lem relay tunnel h = absurd (ground arith)
category_name_lem relay proxy h = absurd (ground arith)
category_name_lem proxy vpn h = absurd (ground arith)
category_name_lem proxy tunnel h = absurd (ground arith)
category_name_lem proxy relay h = absurd (ground arith)

-- CategoryList of a category's name lists exactly the entries of that category.
category_list_iff :
    (c : Category) (t : TunnelMeta)
    → Has t (category_list (category_name c)) ↔ (Has t list_tunnels × (t.category ≡ c))
unfolding category_list list_tunnels
category_list_iff c t = (
  λ h.
      let k =
        Has-keep (λ u. str_eq (category_name u.category) (category_name c)) tunnel_registry h in
      (k.0, category_name_lem t.category c k.1),
  λ h.
      keep-Has (λ u. str_eq (category_name u.category) (category_name c)) tunnel_registry
        (subst (λ d. str_eq (category_name d) (category_name c) ≡ true) (sym h.1)
          (str_eq_self (category_name c)))
        h.0,
)
