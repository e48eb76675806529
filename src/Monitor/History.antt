-- ===== src/Monitor/History.antt =====
-- What internal/monitor/monitor.go remembers of each target.
use nyxora.Common.{
  ◌≡◌, refl, ap, ◌∙◌, Bool, true, false, inl, inr, String, str_eq, Option, some, List, [], ◌∷◌,
  ◌++◌, if◌then◌else◌, Bool-cases,
}
use nyxora.Common.Latest.{latest, latest-append, append_last_lem}
use nyxora.Common.Assoc.{get, get-put, name_eq}
use nyxora.Monitor.{Result, Monitor, or_nil, append_capped, store, history}

module _ {F : Type 0} where
  append_capped_lem :
      (rs : List (Result F)) (r : Result F) → append_capped rs r ≡ latest 100 (rs ++ (r ∷ []))
  append_capped_lem rs r = append_last_lem 100 rs r

  -- The results of a target among those of all, in order.
  abbrev pub results_of : String → List (String × Result F) → List (Result F)
  results_of target [] = []
  results_of target (x ∷ xs) =
      let rest = results_of target xs in if str_eq x.0 target then x.1 ∷ rest else rest

  abbrev pub store_all : List (String × Result F) → Monitor F → Monitor F
  store_all [] m = m
  store_all (x ∷ xs) m = store_all xs (store x.0 x.1 m)

  history-store :
      (target : String) (x : String × Result F) (m : Monitor F)
      → history (store x.0 x.1 m) target
        ≡ (if str_eq x.0 target then append_capped (history m x.0) x.1 else history m target)
  unfolding history store
  history-store target x m =
      ap or_nil (get-put m.history x.0 (append_capped (or_nil (get m.history x.0)) x.1) target)
      ∙ or_nil-if (str_eq x.0 target) _ (get m.history target)
    where
      or_nil-if :
          (b : Bool) (v : List (Result F)) (o : Option (List (Result F)))
          → or_nil (if b then some v else o) ≡ (if b then v else or_nil o)
      or_nil-if true v o = refl
      or_nil-if false v o = refl

  append_assoc : (xs ys zs : List (Result F)) → (xs ++ ys) ++ zs ≡ xs ++ (ys ++ zs)
  append_assoc [] ys zs = refl
  append_assoc (x ∷ xs) ys zs = ap (◌∷◌ x) (append_assoc xs ys zs)

  append_nil : (xs : List (Result F)) → xs ≡ xs ++ []
  append_nil [] = refl
  append_nil (x ∷ xs) = ap (◌∷◌ x) (append_nil xs)

  stored :
      (target name : String) (r : Result F) (m : Monitor F) (past : List (Result F))
      → str_eq name target ≡ true
      → history m target ≡ latest 100 past
      → history (store name r m) target ≡ latest 100 (past ++ (r ∷ []))
  stored target name r m past e h =
      history-store target (name, r) m
      ∙ ap (λ b. if b then append_capped (history m name) r else history m target) e
      ∙ ap (λ n. append_capped (history m n) r) (name_eq name target e)
      ∙ ap (λ old. append_capped old r) h
      ∙ append_capped_lem (latest 100 past) r
      ∙ latest-append 100 past r

  untouched :
      (target name : String) (r : Result F) (m : Monitor F)
      → str_eq name target ≡ false
      → history (store name r m) target ≡ history m target
  untouched target name r m e =
      history-store target (name, r) m
      ∙ ap (λ b. if b then append_capped (history m name) r else history m target) e

  -- The history of a target is always the last hundred of the results it had when the monitor was
  -- taken over, which are given by `past`, and of those stored since; results of other targets do
  -- not touch it.
  pub store_all-latest :
      (xs : List (String × Result F)) (m : Monitor F) (target : String) (past : List (Result F))
      → history m target ≡ latest 100 past
      → history (store_all xs m) target ≡ latest 100 (past ++ results_of target xs)
  store_all-latest [] m target past h = h ∙ ap (latest 100) (append_nil past)
  store_all-latest (x ∷ xs) m target past h = elim (Bool-cases (str_eq x.0 target)) [
    | inl e ↦ rw e (
        store_all-latest xs (store x.0 x.1 m) target (past ++ (x.1 ∷ []))
          (stored target x.0 x.1 m past e h)
        ∙ ap (latest 100) (append_assoc past (x.1 ∷ []) (results_of target xs)))
    | inr e ↦
        rw e (store_all-latest xs (store x.0 x.1 m) target past (untouched target x.0 x.1 m e ∙ h))
  ]
