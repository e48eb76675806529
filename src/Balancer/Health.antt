-- ===== src/Balancer/Health.antt =====
-- The operations that change one backend, found by its name.
use mathlib.Core.Path.{subst}
use mathlib.Core.Bool.{false≢true}
use nyxora.Common.{
  ℕ, ◌^◌, ◌<◌, ◌≡◌, ◌≢◌, ◌↔◌, refl, sym, ap, ◌∙◌, ◌⊎◌, inl, inr, some, none, List, [], ◌∷◌, arith,
  String, str_eq, Bool-cases, Has, here, there, All, All-Has, done,
}
use nyxora.Common.Assoc.{name_eq, name_ne}
use nyxora.Common.Float.{Float64}
use nyxora.Balancer.{
  Backend, Balancer, Selection, remove_first, remove_backend, update_first, set_unhealthy,
  mark_unhealthy, next,
}
use nyxora.Balancer.Select.{next-Serves}

module _ {F : Type 0} where
  -- No two backends have one name.
  abbrev pub IsDistinct : List (Backend F) → Type 0
  IsDistinct [] = Unit
  IsDistinct (b ∷ bs) = All (λ x. x.name ≢ b.name) bs × IsDistinct bs

  Has-cons :
      (b : Backend F) (bs : List (Backend F)) {x : Backend F} → Has x (b ∷ bs) → (x ≡ b) ⊎ Has x bs
  Has-cons b bs here = inl refl
  Has-cons b bs (there h) = inr h

  Has-update_first :
      (name : String) (f : Backend F → Backend F) (bs : List (Backend F)) {x : Backend F}
      → IsDistinct bs
      → Has x (update_first name f bs)
      → ((b : Backend F) × (x ≡ f b)) ⊎ (Has x bs × (x.name ≢ name))
  unfolding update_first
  Has-update_first name f [] d h = elim h [ ]
  Has-update_first name f (b ∷ bs) {x} d h = elim (Bool-cases (str_eq b.name name)) [
    | inl e ↦ elim (Has-cons (f b) bs (rw e at h)) [
      | inl p ↦ inl (b, p)
      | inr k ↦
          inr (
            there k,
            λ q. All-Has (λ y. y.name ≢ b.name) bs d.0 k (q ∙ sym (name_eq b.name name e)),
          )
    ]
    | inr e ↦ elim (Has-cons b (update_first name f bs) (rw e at h)) [
      | inl p ↦ inr (
        subst (λ y. Has y (b ∷ bs)) (sym p) here,
        λ q. name_ne b.name name e (sym (ap (λ y. y.name) p) ∙ q),
      )
      | inr k ↦ elim (Has-update_first name f bs d.1 k) [
        | inl q ↦ inl q
        | inr q ↦ inr (there q.0, q.1)
      ]
    ]
  ]

  Has-remove_first :
      (name : String) (bs : List (Backend F)) {x : Backend F}
      → IsDistinct bs
      → Has x (remove_first name bs) ↔ (Has x bs × (x.name ≢ name))
  unfolding remove_first
  Has-remove_first name [] d = (λ h. elim h [ ], λ h. h.0)
  Has-remove_first name (b ∷ bs) {x} d = elim (Bool-cases (str_eq b.name name)) [
    | inl e ↦ rw e (
      λ k.
          (there k, λ q. All-Has (λ y. y.name ≢ b.name) bs d.0 k (q ∙ sym (name_eq b.name name e))),
      λ p. other_than b bs (λ q. p.1 (ap (λ y. y.name) q ∙ name_eq b.name name e)) p.0,
    )
    | inr e ↦ rw e (
      λ h. elim (Has-cons b (remove_first name bs) h) [
        | inl p ↦ (
          subst (λ y. Has y (b ∷ bs)) (sym p) here,
          λ q. name_ne b.name name e (sym (ap (λ y. y.name) p) ∙ q),
        )
        | inr k ↦ let r = (Has-remove_first name bs d.1).0 k in (there r.0, r.1)
      ],
      λ p. elim (Has-cons b bs p.0) [
        | inl q ↦ subst (λ y. Has y (b ∷ remove_first name bs)) (sym q) here
        | inr k ↦ there ((Has-remove_first name bs d.1).1 (k, p.1))
      ],
    )
  ]
    where
      other_than : (b : Backend F) (bs : List (Backend F)) → x ≢ b → Has x (b ∷ bs) → Has x bs
      other_than b bs ne here = absurd (ne refl)
      other_than b bs ne (there h) = h

  -- `RemoveBackend` takes out the backend of that name and no other, if names are distinct.
  remove_backend_iff :
      (name : String) (s : Balancer F) {x : Backend F}
      → IsDistinct s.backends
      → Has x (remove_backend name s).backends ↔ (Has x s.backends × (x.name ≢ name))
  unfolding remove_backend
  remove_backend_iff name s d = Has-remove_first name s.backends d

module _ {F : Type 0} ⦃fl : Float64 F⦄ where
  -- A backend that was marked unhealthy is out of service: under every algorithm `Next` returns
  -- another one, if names are distinct.
  mark_unhealthy_excludes :
      (name : String) (now ticks : ℕ) (s : Balancer F) {b : Backend F} {s' : Balancer F}
      → IsDistinct s.backends
      → s.current < 2 ^ 63
      → ticks < 2 ^ 63
      → next ticks (mark_unhealthy name now s) ≡ done (some b, s')
      → b.name ≢ name
  unfolding mark_unhealthy
  mark_unhealthy_excludes name now ticks s {b} {s'} d c t e =
      elim ((next-Serves (λ _. []) "" ticks (mark_unhealthy name now s) c t).0) [
        | inl nobody ↦ absurd (clash nobody.1)
        | inr (x, t', at, inside, up, _) ↦
            let same : x ≡ b = one_result at in
            subst (λ z. z.name ≢ name) same
              (elim (Has-update_first name (set_unhealthy now) s.backends d inside) [
                | inl (y, q) ↦ absurd (false≢true (sym (ap (λ z. z.healthy) q) ∙ up))
                | inr k ↦ k.1
              ])
      ]
    where
      clash : next ticks (mark_unhealthy name now s) ≡ done (none, mark_unhealthy name now s) → ⊥
      clash f = different (sym e ∙ f)
        where
          different :
              ◌≡◌ {A = Selection F} (done (some b, s')) (done (none, mark_unhealthy name now s)) → ⊥
          different q = ground arith

      one_result :
          {x : Backend F} {t' : Balancer F}
          → next ticks (mark_unhealthy name now s) ≡ done (some x, t')
          → x ≡ b
      one_result {x} {t'} f = same_value (sym f ∙ e)
        where
          same_value : ◌≡◌ {A = Selection F} (done (some x, t')) (done (some b, s')) → x ≡ b
          same_value q = ground arith
