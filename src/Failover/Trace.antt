-- ===== src/Failover/Trace.antt =====
-- The status of a transport after any sequence of measurements, of it and of others.
use mathlib.Core.Path.{subst}
use nyxora.Common.{
  ℕ, zero, suc, ◌+◌, ◌^◌, ◌≤◌, ◌<◌, ◌≡◌, refl, sym, ap, ◌∙◌, true, false, inl, inr, Option, none,
  some, List, [], ◌∷◌, arith, String, str_eq, ltb, if◌then◌else◌, Bool-cases, length,
}
use nyxora.Common.Words.{add_int_small, lt_int_small}
use nyxora.Common.Float.{Float64}
use nyxora.Common.Assoc.{get, get-put, str_eq_self, name_eq}
use nyxora.Failover.{
  TransportStatus, healthy, degraded, down, TransportState, Threshold, Failover, is_good, is_bad,
  known, assess, update, status,
}

-- The status that a number of failures since the last good measurement stands for.
abbrev pub level : ℕ → ℕ → TransportStatus
level max zero = healthy
level max (suc n) = if ltb (suc n) max then degraded else down

-- A measurement of a transport.
pub record Sample (F : Type 0) : Type 0 where
  pub name : String
  pub latency : F
  pub loss : F
  pub at : ℕ

abbrev pub so_far : Option ℕ → ℕ
so_far none = 0
so_far (some n) = n

-- What `Status` answers for a history.
abbrev pub report : ℕ → Option ℕ → TransportStatus
report max none = down
report max (some n) = level max n

module _ {F : Type 0} ⦃fl : Float64 F⦄ where
  -- The failures since the last good measurement; one that is neither good nor bad (NaN) is passed.
  abbrev pub tally : Threshold F → F → F → ℕ → ℕ
  tally t latency loss n =
      if is_good t latency loss then 0 else if is_bad t latency loss then suc n else n

  -- The tally of one transport over the measurements of all, or none if it was never measured.
  abbrev pub history : Threshold F → String → Option ℕ → List (Sample F) → Option ℕ
  history t name h [] = h
  history t name h (x ∷ xs) =
      history t name (if str_eq x.name name then some (tally t x.latency x.loss (so_far h)) else h)
        xs

  unfoldable pub run : List (Sample F) → Failover F → Failover F
  run [] f = f
  run (x ∷ xs) f = run xs (update x.name x.latency x.loss x.at f).0

  abbrev Counts : Threshold F → ℕ → TransportState F → Type 0
  Counts t n s = (s.fail_count ≡ n) × (s.status ≡ level t.max_fail_count n)

  module _ (t : Threshold F) (latency loss : F) (now : ℕ) (limit : t.max_fail_count < 2 ^ 63)
      (some_limit : 0 < t.max_fail_count) where
    bad-Counts :
        (n : ℕ) (s : TransportState F)
        → n + 1 < 2 ^ 63
        → is_good t latency loss ≡ false
        → is_bad t latency loss ≡ true
        → Counts t n s
        → Counts t (suc n) (assess t latency loss now s)
    unfolding assess
    bad-Counts n s h g b c =
        ground
          (arith, add_int_small s.fail_count 1, lt_int_small (s.fail_count + 1) t.max_fail_count)

    good-Counts :
        (n : ℕ) (s : TransportState F)
        → is_good t latency loss ≡ true
        → Counts t n s
        → Counts t 0 (assess t latency loss now s)
    unfolding assess
    good-Counts zero s g c = ground arith
    good-Counts (suc n) s g c = ground arith

    pass-Counts :
        (n : ℕ) (s : TransportState F)
        → is_good t latency loss ≡ false
        → is_bad t latency loss ≡ false
        → Counts t n s
        → Counts t n (assess t latency loss now s)
    unfolding assess
    pass-Counts n s g b c = rw (g, b) c

    assess-Counts :
        (n : ℕ) (s : TransportState F)
        → n + 1 < 2 ^ 63
        → Counts t n s
        → Counts t (tally t latency loss n) (assess t latency loss now s)
    assess-Counts n s h c = elim (Bool-cases (is_good t latency loss)) [
      | inl g ↦ becomes 0 (rw g) (good-Counts n s g c)
      | inr g ↦ elim (Bool-cases (is_bad t latency loss)) [
        | inl b ↦ becomes (suc n) (rw (g, b)) (bad-Counts n s h g b c)
        | inr b ↦ becomes n (rw (g, b)) (pass-Counts n s g b c)
      ]
    ]
      where
        becomes :
            (k : ℕ)
            → tally t latency loss n ≡ k
            → Counts t k (assess t latency loss now s)
            → Counts t (tally t latency loss n) (assess t latency loss now s)
        becomes k e = subst (λ m. Counts t m (assess t latency loss now s)) (sym e)

  -- The state of one transport agrees with its history.
  abbrev Agrees : Failover F → String → Option ℕ → Type 0
  Agrees f name none = get f.states name ≡ none
  Agrees f name (some n) =
      (s : TransportState F) × (get f.states name ≡ some s) × Counts f.threshold n s

  known-Counts :
      (f : Failover F) (name : String) (h : Option ℕ)
      → Agrees f name h
      → Counts f.threshold (so_far h) (known (get f.states name) name)
  known-Counts f name none a = rw a (refl, refl)
  known-Counts f name (some n) (s, e, c) = rw e c

  update_self :
      (f : Failover F) (x : Sample F)
      → get ((update x.name x.latency x.loss x.at f).0).states x.name
        ≡ some (assess f.threshold x.latency x.loss x.at (known (get f.states x.name) x.name))
  unfolding update
  update_self f x = get-put f.states x.name _ x.name ∙ rw (str_eq_self x.name)

  update_other :
      (f : Failover F) (x : Sample F) (name : String)
      → str_eq x.name name ≡ false
      → get ((update x.name x.latency x.loss x.at f).0).states name ≡ get f.states name
  unfolding update
  update_other f x name e = get-put f.states x.name _ name ∙ rw e

  update-threshold :
      (f : Failover F) (x : Sample F)
      → ((update x.name x.latency x.loss x.at f).0).threshold ≡ f.threshold
  unfolding update
  update-threshold f x = refl

  carry :
      (f g : Failover F) (name : String) (h : Option ℕ)
      → get g.states name ≡ get f.states name
      → g.threshold ≡ f.threshold
      → Agrees f name h
      → Agrees g name h
  carry f g name none e t a = e ∙ a
  carry f g name (some n) e t (s, b, c) = (s, e ∙ b, subst (λ u. Counts u n s) (sym t) c)

  update-Agrees :
      (f : Failover F) (x : Sample F) (name : String) (h : Option ℕ)
      → f.threshold.max_fail_count < 2 ^ 63
      → 0 < f.threshold.max_fail_count
      → so_far h + 1 < 2 ^ 63
      → Agrees f name h
      → Agrees
          (update x.name x.latency x.loss x.at f).0
          name
          (if str_eq x.name name then some (tally f.threshold x.latency x.loss (so_far h)) else h)
  update-Agrees f x name h limit pos small a =
      let g = (update x.name x.latency x.loss x.at f).0 in
      elim (Bool-cases (str_eq x.name name)) [
        | inl e ↦
            let same = name_eq x.name name e in
            let old = known (get f.states x.name) x.name in
            let before = known-Counts f x.name h (subst (λ m. Agrees f m h) (sym same) a) in
            let after =
              assess-Counts f.threshold x.latency x.loss x.at limit pos (so_far h) old small
                before in
            let n = tally f.threshold x.latency x.loss (so_far h) in
            rw e (
              subst (λ m. Agrees g m (some n)) same
                (
                  assess f.threshold x.latency x.loss x.at old,
                  update_self f x,
                  subst (λ u. Counts u n (assess f.threshold x.latency x.loss x.at old))
                      (sym (update-threshold f x)) after,
                ))
        | inr e ↦ rw e (carry f g name h (update_other f x name e) (update-threshold f x) a)
      ]

  so_far-tally : (t : Threshold F) (x : Sample F) (n : ℕ) → tally t x.latency x.loss n ≤ n + 1
  so_far-tally t x n = ground arith

  history_step-le :
      (t : Threshold F) (x : Sample F) (name : String) (h : Option ℕ)
      → so_far (if str_eq x.name name then some (tally t x.latency x.loss (so_far h)) else h)
        ≤ so_far h + 1
  history_step-le t x name h = elim (Bool-cases (str_eq x.name name)) [
    | inl e ↦ rw e (so_far-tally t x (so_far h))
    | inr e ↦ rw e (omega arith)
  ]

  run-Agrees :
      (xs : List (Sample F)) (f : Failover F) (name : String) (h : Option ℕ)
      → f.threshold.max_fail_count < 2 ^ 63
      → 0 < f.threshold.max_fail_count
      → so_far h + length xs < 2 ^ 63
      → Agrees f name h
      → (run xs f).threshold ≡ f.threshold × Agrees (run xs f) name (history f.threshold name h xs)
  unfolding run update
  run-Agrees [] f name h limit pos small a = (refl, a)
  run-Agrees (x ∷ xs) f name h limit pos small a =
      run-Agrees xs (update x.name x.latency x.loss x.at f).0 name
        (if str_eq x.name name then some (tally f.threshold x.latency x.loss (so_far h)) else h)
        limit pos (omega (arith, history_step-le f.threshold x name h))
        (update-Agrees f x name h limit pos (omega arith) a)

  status-Agrees :
      (f : Failover F) (name : String) (h : Option ℕ)
      → Agrees f name h
      → status f name ≡ report f.threshold.max_fail_count h
  unfolding status
  status-Agrees f name none a = rw (a, status)
  status-Agrees f name (some n) (s, e, c) = rw (e, status) c.1

  -- After any sequence of measurements, of this transport and of others, the status of a transport
  -- is decided by its own failures since its last good measurement: none means healthy, fewer than
  -- the limit degraded, and as many as the limit or more down. A transport that was never measured
  -- counts as down. The limit is positive, the measurements are fewer than 2 ^ 63, and the
  -- transport was not measured before them.
  pub status_after_run :
      (xs : List (Sample F)) (f : Failover F) (name : String)
      → f.threshold.max_fail_count < 2 ^ 63
      → 0 < f.threshold.max_fail_count
      → length xs < 2 ^ 63
      → get f.states name ≡ none
      → status (run xs f) name
        ≡ report f.threshold.max_fail_count (history f.threshold name none xs)
  status_after_run xs f name limit pos small new =
      let (same, a) = run-Agrees xs f name none limit pos (omega arith) new in
      status-Agrees (run xs f) name (history f.threshold name none xs) a
      ∙ ap (λ t. report t.max_fail_count (history f.threshold name none xs)) same
