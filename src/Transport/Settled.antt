-- ===== src/Transport/Settled.antt =====
-- What `ConnectAll` of internal/transport/manager.go leaves behind in each of its modes.
use mathlib.Core.Path.{subst}
use nyxora.Common.{
  ◌≡◌, refl, ap, ◌∙◌, ◌⊎◌, inl, inr, ◌↔◌, ◌+◌, Bool, true, false, not, String, List, [], ◌∷◌, ◌++◌,
  if◌then◌else◌, length, keep, arith, Bool-cases, Has, here, All, All-Has, Has-split, length-map,
  length-append,
}
use nyxora.Common.Float.{Float64, IsOrdered}
use nyxora.Common.Sort.{IsStrictWeak, sort_slice-IsSorted, descending-IsStrictWeak, less_irrefl}
use nyxora.Common.Assoc.{put}
use nyxora.Transport.Manager.{
  Manager, ConnectResult, flag, names, higher, settle, connect_all, activate_all,
}
use nyxora.Transport.Connect.{
  flag-put_keeps, activate_all-keeps, activate_all-Has, activate_all-from, candidates, failures,
  candidates-Has, length-candidates, failures-Has, Has-map, Has-left, Has-right,
}

module _ {F : Type 0} ⦃fl : Float64 F⦄ where
  -- One winner is made active, and everything else that ran is disconnected.
  abbrev pub IsSingle : List (ConnectResult F) → Manager F → Manager F × Bool × List String → Type 0
  IsSingle results m after =
      (best : ConnectResult F) × Has best results
      × (best.is_error ≡ false)
      × ((c : ConnectResult F)
          → Has c results
          → c.is_error ≡ false
          → fl.lt best.score c.score ≡ false)
      × (after.0 ≡ record m { active = put m.active best.name true })
      × (after.1 ≡ true)
      × ((c : ConnectResult F) → Has c results → (c ≡ best) ⊎ Has c.name after.2)
      × (length after.2 + 1 ≡ length results)

  settle-IsSingle :
      (ordered : IsOrdered F) (m : Manager F) (results cs : List (ConnectResult F))
      {c : ConnectResult F}
      → m.all_active ≡ false
      → candidates results ≡ cs
      → Has c cs
      → IsSingle results m (settle m (failures results) cs)
  unfolding settle
  settle-IsSingle ordered m results [] off e h = elim h [ ]
  settle-IsSingle ordered m results (best ∷ others) off e h = rw off (
    best,
    (won.0),
    won.1,
    λ c k s. top c ((candidates-Has results).0 (k, s)),
    refl,
    refl,
    λ c k. lost c k (Bool-cases c.is_error),
    omega (
      arith,
      length-candidates results,
      ap length e,
      length-append (failures results) (names others),
      length-map (λ (r : ConnectResult F). r.name) others,
    ),
  )
    where
      weak : IsStrictWeak (higher {F = F})
      weak = descending-IsStrictWeak (λ (r : ConnectResult F). r.score) ordered

      won : Has best results × (best.is_error ≡ false)
      won = (candidates-Has results).1 (rw e here)

      top : (c : ConnectResult F) → Has c (candidates results) → fl.lt best.score c.score ≡ false
      top c k =
          All-Has (λ t. higher t best ≡ false) (best ∷ others)
            (
              less_irrefl higher weak best,
              (rw e at (sort_slice-IsSorted higher weak (keep (λ r. not r.is_error) results))).0,
            )
            (rw e at k)

      lost :
          (c : ConnectResult F)
          → Has c results
          → (c.is_error ≡ true) ⊎ (c.is_error ≡ false)
          → (c ≡ best) ⊎ Has c.name (failures results ++ names others)
      lost c k (inl bad) = inr (Has-left _ _ (failures-Has results k bad))
      lost c k (inr good) = elim (Has-split (rw e at ((candidates-Has results).0 (k, good)))) [
        | inl q ↦ inl q
        | inr i ↦ inr (Has-right (failures results) _ (Has-map (λ r. r.name) others i))
      ]

  -- In single mode, as soon as one transport connects, ConnectAll returns no error and makes the
  -- name of one success active, than which no success has a higher score; every other transport
  -- that sent a result is disconnected, and no more than those. No score is NaN.
  pub connect_all-IsSingle :
      (ordered : IsOrdered F) (m : Manager F) (results : List (ConnectResult F))
      {c : ConnectResult F}
      → m.all_active ≡ false
      → Has c results
      → c.is_error ≡ false
      → IsSingle results m (connect_all results m)
  unfolding connect_all
  connect_all-IsSingle ordered m results off h good =
      settle-IsSingle ordered m results (candidates results) off refl
        ((candidates-Has results).0 (h, good))

  -- The flag of a name after a call in all-active mode.
  abbrev pub IsMade : List (ConnectResult F) → Manager F → String → Type 0
  IsMade results m k =
      (flag m.active k ≡ true)
      ⊎ ((c : ConnectResult F) × Has c results × (c.is_error ≡ false) × (c.name ≡ k))

  abbrev pub IsEvery : List (ConnectResult F) → Manager F → Manager F × Bool × List String → Type 0
  IsEvery results m after =
      (after.1 ≡ true)
      × (after.2 ≡ failures results)
      × ((k : String) → (flag (after.0).active k ≡ true) ↔ IsMade results m k)

  activate_all_iff :
      (m : Manager F) (results : List (ConnectResult F)) (k : String)
      → (flag (activate_all (candidates results) m.active) k ≡ true) ↔ IsMade results m k
  activate_all_iff m results k = (
    λ h. elim (activate_all-from (candidates results) m.active k h) [
      | inl old ↦ inl old
      | inr (c, i, e) ↦ let found = (candidates-Has results).1 i in inr (c, found.0, found.1, e)
    ],
    λ h. elim h [
      | inl old ↦ activate_all-keeps (candidates results) m.active k old
      | inr (c, i, good, e) ↦
          subst (λ n. flag (activate_all (candidates results) m.active) n ≡ true) e
            (activate_all-Has (candidates results) m.active ((candidates-Has results).0 (i, good)))
    ],
  )

  settle-IsEvery :
      (m : Manager F) (results cs : List (ConnectResult F)) {c : ConnectResult F}
      → m.all_active ≡ true
      → candidates results ≡ cs
      → Has c cs
      → IsEvery results m (settle m (failures results) cs)
  unfolding settle
  settle-IsEvery m results [] on e h = elim h [ ]
  settle-IsEvery m results (best ∷ others) on e h =
      rw on (refl, refl, rw e at (activate_all_iff m results))

  -- In all-active mode, as soon as one transport connects, ConnectAll returns no error, disconnects
  -- the transports that failed and no other, and the active names are then the ones from before
  -- and those of the successes.
  pub connect_all-IsEvery :
      (m : Manager F) (results : List (ConnectResult F)) {c : ConnectResult F}
      → m.all_active ≡ true
      → Has c results
      → c.is_error ≡ false
      → IsEvery results m (connect_all results m)
  unfolding connect_all
  connect_all-IsEvery m results on h good =
      settle-IsEvery m results (candidates results) on refl ((candidates-Has results).0 (h, good))

  settle_failed :
      (m : Manager F) (fs : List String) (cs : List (ConnectResult F))
      → length cs ≡ 0
      → settle m fs cs ≡ (m, false, fs)
  unfolding settle
  settle_failed m fs [] e = refl
  settle_failed m fs (c ∷ cs) e = absurd (omega arith)

  keep_every :
      (results : List (ConnectResult F))
      → All (λ c. c.is_error ≡ true) results
      → keep (λ c. c.is_error) results ≡ results
  keep_every [] a = refl
  keep_every (c ∷ cs) a =
      ap (λ b. if b then c ∷ keep (λ c. c.is_error) cs else keep (λ c. c.is_error) cs) a.0
      ∙ ap (◌∷◌ c) (keep_every cs a.1)

  -- If every transport fails, ConnectAll returns an error, disconnects all of them, and leaves the
  -- manager as it was.
  connect_all_failed :
      (m : Manager F) (results : List (ConnectResult F))
      → All (λ c. c.is_error ≡ true) results
      → connect_all results m ≡ (m, false, names results)
  unfolding connect_all
  connect_all_failed m results a =
      let none_left : length (candidates results) ≡ 0 = omega (
        arith,
        length-candidates results,
        ap length (keep_every results a),
        length-map (λ (r : ConnectResult F). r.name) (keep (λ r. r.is_error) results),
      ) in
      settle_failed m (failures results) (candidates results) none_left
      ∙ ap (λ cs. (m, false, names cs)) (keep_every results a)

  settle-keeps_active :
      (m : Manager F) (fs : List String) (cs : List (ConnectResult F)) (k : String)
      → flag m.active k ≡ true
      → flag ((settle m fs cs).0).active k ≡ true
  unfolding settle
  settle-keeps_active m fs [] k h = h
  settle-keeps_active m fs (best ∷ others) k h = elim (Bool-cases m.all_active) [
    | inl on ↦ rw on (activate_all-keeps (best ∷ others) m.active k h)
    | inr off ↦ rw off (flag-put_keeps m.active best.name k h)
  ]

  -- ConnectAll never takes the mark of an active transport away: in whichever mode it runs, a name
  -- that was active before is active afterwards, also if this very call disconnected it.
  pub connect_all-keeps_active :
      (m : Manager F) (results : List (ConnectResult F)) (k : String)
      → flag m.active k ≡ true
      → flag ((connect_all results m).0).active k ≡ true
  unfolding connect_all
  connect_all-keeps_active m results k h =
      settle-keeps_active m (failures results) (candidates results) k h
