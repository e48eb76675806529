-- ===== src/Audit/Kept.antt =====
-- The events that internal/audit/logger.go keeps.
use mathlib.Core.Option.{some-injective}
use mathlib.Core.List.{append_assoc, append-nil}
use nyxora.Common.{
  ℕ, ◌-◌, ◌≤◌, ◌<◌, ◌^◌, ◌≡◌, refl, ap, sym, ◌∙◌, inl, inr, Bool, true, false, not, String, some,
  List, [], ◌∷◌, ◌++◌, map, keep, ltb, leb, length, drop, arith, done, Bool-cases,
}
use nyxora.Common.Latest.{latest, latest-append, append_last_lem, latest-latest, length-latest-le}
use nyxora.Common.Words.{lt_int, is_negative, lt_int_small}
use nyxora.Audit.{Event, Request, Logger, event, log, new_logger, get_events}

-- The arguments of a call of `Log`.
pub record Entry (D : Type 0) : Type 0 where
  pub level : ℕ
  pub request : Request D
  pub success : Bool
  pub error : String

module _ {D : Type 0} where
  abbrev pub log_all : List (Entry D) → Logger D → Logger D
  log_all [] l = l
  log_all (e ∷ es) l = log_all es (log e.level e.request e.success e.error l)

  -- The events of the entries that are not below a level.
  abbrev pub logged : ℕ → List (Entry D) → List (Event D)
  logged level es =
      map (λ e. event e.level e.request e.success e.error)
        (keep (λ e. not (lt_int e.level level)) es)

  log_all_lem :
      (es : List (Entry D)) (past : List (Event D)) (n level : ℕ)
      → log_all es (record { events = latest n past; max_events = n; level = level })
        ≡ record { events = latest n (past ++ logged level es); max_events = n; level = level }
  unfolding log
  log_all_lem [] past n level =
      ap (λ es. record { events = latest n es; max_events = n; level = level })
        (sym (append-nil past))
  log_all_lem (e ∷ es) past n level = elim (Bool-cases (lt_int e.level level)) [
    | inl t ↦ rw t (log_all_lem es past n level)
    | inr t ↦
        let new = event e.level e.request e.success e.error in
        rw t (
          ap (λ xs. log_all es (record { events = xs; max_events = n; level = level }))
            (append_last_lem n (latest n past) new ∙ latest-append n past new)
          ∙ log_all_lem es (past ++ (new ∷ [])) n level
          ∙ ap (λ xs. record { events = latest n xs; max_events = n; level = level })
              (append_assoc past (new ∷ []) (logged level es)))
  ]

  get_events_lem :
      (count : ℕ) (l : Logger D)
      → count < 2 ^ 63
      → length l.events < 2 ^ 63
      → get_events count l ≡ done (latest count l.events)
  unfolding get_events is_negative
  get_events_lem count l h k =
      let n = length l.events in
      rw (lt_int_small n count k h) (elim (Bool-cases (ltb n count)) [
        | inl t ↦
            let fits : leb (2 ^ 63) n ≡ false = ground arith in
            let same : n - n ≡ n - count = ground (arith, t) in
            rw t (rw fits (ap (λ j. done (drop j l.events)) same))
        | inr t ↦ let fits : leb (2 ^ 63) count ≡ false = ground arith in rw t (rw fits refl)
      ])

  -- A logger that was made for a level and has logged a number of entries gives, for a count of at
  -- most 10,000, the last of the entries at its level or above it, as many as the count or all of
  -- them, in their order.
  pub get_events-log_all :
      (es : List (Entry D)) (l : Logger D) (level count : ℕ)
      → new_logger true level ≡ some l
      → count ≤ 10000
      → get_events count (log_all es l) ≡ done (latest count (logged level es))
  unfolding new_logger
  get_events-log_all es l level count e h =
      let kept : log_all es l
          ≡ record { events = latest 10000 (logged level es); max_events = 10000; level = level } =
        ap (log_all es) (sym (some-injective _ _ e)) ∙ log_all_lem es [] 10000 level in
      let short = length-latest-le 10000 (logged level es) in
      ap (get_events count) kept
      ∙ get_events_lem count
          (record { events = latest 10000 (logged level es); max_events = 10000; level = level })
          (omega (arith, h)) (omega (arith, short))
      ∙ ap done (latest-latest count 10000 (logged level es) h)
