-- ===== src/Transport/Active.antt =====
-- The active names and the registered ones of the manager in internal/transport/manager.go.
use mathlib.Core.Path.{subst}
use nyxora.Common.{
  ◌≡◌, ◌≢◌, refl, ap, sym, ◌∙◌, inl, inr, ◌↔◌, true, false, String, str_eq, Option, none, some,
  List, [], ◌∷◌, arith, Bool-cases, Has, here, Has-split, Has-if_tail, eq_iff,
}
use nyxora.Common.Float.{Float64}
use nyxora.Common.Assoc.{get, put, get-put, get-remove}
use nyxora.Transport.Manager.{
  Transport, Manager, ConnectResult, flag, register, activate, activate_at, deactivate,
  disconnect_all, active_transports, connect_all, settle, activate_all,
}
use nyxora.Transport.Connect.{flag-put, activate_all-from, candidates, failures, candidates-Has}

module _ {F : Type 0} where
  -- The active names are registered.
  abbrev pub IsKnown : Manager F → Type 0
  IsKnown m = (k : String) → flag m.active k ≡ true → get m.transports k ≢ none

  register-IsKnown : (t : Transport F) (m : Manager F) → IsKnown m → IsKnown (register t m)
  unfolding register
  register-IsKnown t m w k h = ground (arith, get-put m.transports t.name t k, w k h)

  put-IsKnown :
      (m : Manager F) (n : String)
      → IsKnown m
      → get m.transports n ≢ none
      → IsKnown (record m { active = put m.active n true })
  put-IsKnown m n w e k h = elim (Bool-cases (str_eq n k)) [
    | inl s ↦ subst (λ x. get m.transports x ≢ none) ((eq_iff n k).0 s) e
    | inr s ↦ w k (ground (arith, flag-put m.active n true k))
  ]

  activate_at-IsKnown :
      (n : String) (m : Manager F) (o : Option (Transport F))
      → IsKnown m
      → get m.transports n ≡ o
      → IsKnown (activate_at n m o).0
  activate_at-IsKnown n m none w e = w
  activate_at-IsKnown n m (some t) w e = put-IsKnown m n w (ground arith)

  deactivate-IsKnown : (n : String) (m : Manager F) → IsKnown m → IsKnown (deactivate n m)
  unfolding deactivate
  deactivate-IsKnown n m w k h = w k (ground (arith, get-remove m.active n k))

  activate_all-IsKnown :
      (cs : List (ConnectResult F)) (m : Manager F)
      → IsKnown m
      → ((c : ConnectResult F) → Has c cs → get m.transports c.name ≢ none)
      → IsKnown (record m { active = activate_all cs m.active })
  activate_all-IsKnown cs m w r k h = elim (activate_all-from cs m.active k h) [
    | inl old ↦ w k old
    | inr (c, i, e) ↦ subst (λ x. get m.transports x ≢ none) e (r c i)
  ]

  -- A manager without active names has only known ones.
  cleared-IsKnown : (m : Manager F) → IsKnown (record m { active = [] })
  unfolding get
  cleared-IsKnown m k h = ground arith

module _ {F : Type 0} ⦃fl : Float64 F⦄ where
  settle-IsKnown :
      (m : Manager F) (fs : List String) (cs : List (ConnectResult F))
      → IsKnown m
      → ((c : ConnectResult F) → Has c cs → get m.transports c.name ≢ none)
      → IsKnown (settle m fs cs).0
  unfolding settle
  settle-IsKnown m fs [] w r = w
  settle-IsKnown m fs (best ∷ others) w r = elim (Bool-cases m.all_active) [
    | inl on ↦ rw on (activate_all-IsKnown (best ∷ others) m w r)
    | inr off ↦ rw off (put-IsKnown m best.name w (r best here))
  ]

  -- Every operation that writes the active names keeps them registered, and so does Register: for
  -- ConnectAll as long as the results are those of registered transports.
  pub mutators-IsKnown :
      (m : Manager F) (t : Transport F) (n : String) (results : List (ConnectResult F))
      → IsKnown m
      → ((c : ConnectResult F) → Has c results → get m.transports c.name ≢ none)
      → IsKnown (register t m)
        × IsKnown (activate n m).0
        × IsKnown (deactivate n m)
        × IsKnown (disconnect_all m).0
        × IsKnown (connect_all results m).0
  unfolding activate disconnect_all connect_all
  mutators-IsKnown m t n results w r = (
    register-IsKnown t m w,
    activate_at-IsKnown n m (get m.transports n) w refl,
    deactivate-IsKnown n m w,
    cleared-IsKnown m,
    settle-IsKnown m (failures results) (candidates results) w
        (λ c h. r c ((candidates-Has results).1 h).0),
  )

module _ {F : Type 0} where
  Has-active_transports :
      (m : Manager F) (ts : List (String × Transport F)) (k : String)
      → Has k (active_transports m ts)
      → (flag m.active k ≡ true) × (get ts k ≢ none)
  unfolding active_transports get
  Has-active_transports m [] k h = elim h [ ]
  Has-active_transports m (e ∷ ts) k h = elim (Bool-cases (flag m.active e.0)) [
    | inl p ↦ elim (Has-split (rw p at h)) [
      | inl q ↦ (ap (flag m.active) q ∙ p, ground (arith, eq_iff e.0 k, sym q))
      | inr i ↦ later (Has-active_transports m ts k i)
    ]
    | inr p ↦ later (Has-active_transports m ts k (rw p at h))
  ]
    where
      later :
          (flag m.active k ≡ true) × (get ts k ≢ none)
          → (flag m.active k ≡ true) × (get (e ∷ ts) k ≢ none)
      later h = (h.0, ground (arith, h.1))

  active_transports-Has :
      (m : Manager F) (ts : List (String × Transport F)) (k : String)
      → flag m.active k ≡ true
      → get ts k ≢ none
      → Has k (active_transports m ts)
  unfolding active_transports get
  active_transports-Has m [] k h r = absurd (r refl)
  active_transports-Has m (e ∷ ts) k h r = elim (Bool-cases (str_eq e.0 k)) [
    | inl s ↦ rw ((eq_iff e.0 k).0 s, h) here
    | inr s ↦ Has-if_tail (flag m.active e.0) e.0 _ (active_transports-Has m ts k h (ground arith))
  ]

  -- DisconnectAll disconnects exactly the active transports of a manager whose active names are
  -- registered, and none is active afterwards.
  disconnect_all_iff :
      (m : Manager F) (k : String)
      → IsKnown m
      → (Has k (disconnect_all m).1 ↔ (flag m.active k ≡ true))
        × (flag ((disconnect_all m).0).active k ≡ false)
  unfolding disconnect_all get
  disconnect_all_iff m k w = (
    (
      λ h. (Has-active_transports m m.transports k h).0,
      λ h. active_transports-Has m m.transports k h (w k h),
    ),
    refl,
  )
