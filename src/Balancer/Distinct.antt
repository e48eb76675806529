-- ===== src/Balancer/Distinct.antt =====
-- Names stay distinct: the operations keep the invariant that the lookups by name rest on.
use nyxora.Common.{
  ℕ, ◌≡◌, ◌≢◌, refl, sym, inl, inr, List, [], ◌∷◌, ◌++◌, String, str_eq, Bool-cases, All,
}
use mathlib.Core.Path.{subst}
use nyxora.Common.Float.{Float64}
use nyxora.Balancer.{
  Backend, Balancer, remove_first, remove_backend, update_first, update_metrics, mark_healthy,
  mark_unhealthy, add_backend,
}
use nyxora.Balancer.Health.{IsDistinct}

module _ {F : Type 0} where
  abbrev Avoids : String → List (Backend F) → Type 0
  Avoids n bs = All (λ b. b.name ≢ n) bs

  remove_first-Avoids :
      (name n : String) (bs : List (Backend F)) → Avoids n bs → Avoids n (remove_first name bs)
  unfolding remove_first
  remove_first-Avoids name n [] h = tt
  remove_first-Avoids name n (b ∷ bs) h = elim (Bool-cases (str_eq b.name name)) [
    | inl e ↦ rw e h.1
    | inr e ↦ rw e (h.0, remove_first-Avoids name n bs h.1)
  ]

  remove_first-IsDistinct :
      (name : String) (bs : List (Backend F)) → IsDistinct bs → IsDistinct (remove_first name bs)
  unfolding remove_first
  remove_first-IsDistinct name [] d = tt
  remove_first-IsDistinct name (b ∷ bs) d = elim (Bool-cases (str_eq b.name name)) [
    | inl e ↦ rw e d.1
    | inr e ↦ rw e (remove_first-Avoids name b.name bs d.0, remove_first-IsDistinct name bs d.1)
  ]

  module _ (f : Backend F → Backend F) (keeps : (b : Backend F) → (f b).name ≡ b.name)
      (name : String) where
    update_first-Avoids :
        (n : String) (bs : List (Backend F)) → Avoids n bs → Avoids n (update_first name f bs)
    unfolding update_first
    update_first-Avoids n [] h = tt
    update_first-Avoids n (b ∷ bs) h = elim (Bool-cases (str_eq b.name name)) [
      | inl e ↦ rw e (subst (λ m. m ≢ n) (sym (keeps b)) h.0, h.1)
      | inr e ↦ rw e (h.0, update_first-Avoids n bs h.1)
    ]

    update_first-IsDistinct :
        (bs : List (Backend F)) → IsDistinct bs → IsDistinct (update_first name f bs)
    unfolding update_first
    update_first-IsDistinct [] d = tt
    update_first-IsDistinct (b ∷ bs) d = elim (Bool-cases (str_eq b.name name)) [
      | inl e ↦ rw e (subst (λ m. Avoids m bs) (sym (keeps b)) d.0, d.1)
      | inr e ↦ rw e (update_first-Avoids b.name bs d.0, update_first-IsDistinct bs d.1)
    ]

  append-Avoids :
      (n : String) (bs : List (Backend F)) (x : Backend F)
      → Avoids n bs
      → x.name ≢ n
      → Avoids n (bs ++ (x ∷ []))
  append-Avoids n [] x h k = (k, tt)
  append-Avoids n (b ∷ bs) x h k = (h.0, append-Avoids n bs x h.1 k)

  append-IsDistinct :
      (bs : List (Backend F)) (x : Backend F)
      → IsDistinct bs
      → Avoids x.name bs
      → IsDistinct (bs ++ (x ∷ []))
  append-IsDistinct [] x d h = (tt, tt)
  append-IsDistinct (b ∷ bs) x d h =
      (append-Avoids b.name bs x d.0 (λ e. h.0 (sym e)), append-IsDistinct bs x d.1 h.1)

module _ {F : Type 0} ⦃fl : Float64 F⦄ where
  -- RemoveBackend, UpdateMetrics, MarkHealthy and MarkUnhealthy keep distinct names distinct, and
  -- so does AddBackend, which does not look, for a new name.
  mutators-IsDistinct :
      (name new address : String) (port weight conns now : ℕ) (latency : F) (s : Balancer F)
      → IsDistinct s.backends
      → All (λ b. b.name ≢ new) s.backends
      → IsDistinct (remove_backend name s).backends
        × IsDistinct (update_metrics name latency conns s).backends
        × IsDistinct (mark_healthy name s).backends
        × IsDistinct (mark_unhealthy name now s).backends
        × IsDistinct (add_backend new address port weight s).backends
  unfolding remove_backend update_metrics mark_healthy mark_unhealthy add_backend
  mutators-IsDistinct name new address port weight conns now latency s d absent = (
    remove_first-IsDistinct name s.backends d,
    update_first-IsDistinct _ (λ b. refl) name s.backends d,
    update_first-IsDistinct _ (λ b. refl) name s.backends d,
    update_first-IsDistinct _ (λ b. refl) name s.backends d,
    append-IsDistinct s.backends _ d absent,
  )
