-- ===== src/Balancer/Pick.antt =====
-- The loops of the selections: the weighted scan picks from the list in which every backend is
-- repeated as often as its weight says, and the minimum search finds a minimum.
use nyxora.Common.{
  ℕ, ◌+◌, ◌-◌, ◌^◌, ◌≤◌, ◌<◌, ◌≡◌, refl, sym, ap, ◌∙◌, Bool, inl, inr, some, List, [], ◌∷◌, ◌++◌,
  arith, ltb, Bool-cases, ltb→lt, ltb→le, length, get_elem?, replicate, Has, here, there,
  length-append, length-replicate, get_elem?-append_left, get_elem?-append_right,
  get_elem?-replicate,
}
use nyxora.Common.Words.{add_int, add_int_small}
use mathlib.Core.Path.{subst}
use mathlib.Core.Option.{some-injective}
use nyxora.Balancer.{Backend, total_weight, pick_below}

module _ {F : Type 0} where
  -- The sum of the weights, with no overflow.
  abbrev pub weight_sum : List (Backend F) → ℕ
  weight_sum [] = 0
  weight_sum (b ∷ bs) = b.weight + weight_sum bs

  -- Every backend as often as its weight says, in order.
  abbrev pub expand : List (Backend F) → List (Backend F)
  expand [] = []
  expand (b ∷ bs) = replicate b.weight b ++ expand bs

  pub length-expand : (bs : List (Backend F)) → length (expand bs) ≡ weight_sum bs
  length-expand [] = refl
  length-expand (b ∷ bs) = omega (
    arith,
    length-append (replicate b.weight b) (expand bs),
    length-replicate b.weight b,
    length-expand bs,
  )

  pub total_weight-eq-weight_sum :
      (acc : ℕ) (bs : List (Backend F))
      → acc + weight_sum bs < 2 ^ 64
      → total_weight acc bs ≡ acc + weight_sum bs
  unfolding total_weight
  total_weight-eq-weight_sum acc [] h = omega arith
  total_weight-eq-weight_sum acc (b ∷ bs) h =
      let e : add_int acc b.weight ≡ acc + b.weight = add_int_small acc b.weight (omega arith) in
      omega (arith, total_weight-eq-weight_sum (add_int acc b.weight) bs (omega arith))

  pub pick_below-Has :
      (less : ℕ → ℕ → Bool) (t c : ℕ) (bs : List (Backend F)) {b : Backend F}
      → pick_below less t c bs ≡ some b
      → Has b bs
  unfolding pick_below
  pick_below-Has less t c [] e = cc
  pick_below-Has less t c (x ∷ bs) {b} e = elim (Bool-cases (less t (add_int c x.weight))) [
    | inl p ↦ subst (λ z. Has z (x ∷ bs)) (some-injective _ _ (rw p at e)) here
    | inr p ↦ there (pick_below-Has less t (add_int c x.weight) bs (rw p at e))
  ]

  -- The scan finds the target's place among the repeated backends, whichever comparison it uses,
  -- as long as that agrees with `<` below 2 ^ 63.
  pub pick_below-expand :
      (less : ℕ → ℕ → Bool) (agrees : (a b : ℕ) → a < 2 ^ 63 → b < 2 ^ 63 → less a b ≡ ltb a b)
      (t c : ℕ) (bs : List (Backend F))
      → t < 2 ^ 63
      → c ≤ t
      → c + weight_sum bs < 2 ^ 63
      → pick_below less t c bs ≡ get_elem? (expand bs) (t - c)
  unfolding pick_below
  pick_below-expand less agrees t c [] ht h k = refl
  pick_below-expand less agrees t c (b ∷ bs) ht h k =
      let e : add_int c b.weight ≡ c + b.weight = add_int_small c b.weight (omega arith) in
      rw e (elim (Bool-cases (ltb t (c + b.weight))) [
        | inl p ↦
            rw (agrees t (c + b.weight) ht (omega arith), p)
              (sym (
                get_elem?-append_left (replicate b.weight b) (expand bs) (t - c)
                  (omega (arith, ltb→lt t (c + b.weight) p, length-replicate b.weight b))
                ∙ get_elem?-replicate b.weight (t - c) b
                    (omega (arith, ltb→lt t (c + b.weight) p))))
        | inr p ↦
            rw (agrees t (c + b.weight) ht (omega arith), p)
              (pick_below-expand less agrees t (c + b.weight) bs ht (ltb→le _ _ p) (omega arith)
                ∙ ap (get_elem? (expand bs)) (omega (arith, length-replicate b.weight b))
                ∙ sym (
                    get_elem?-append_right (replicate b.weight b) (expand bs) (t - c)
                      (omega (arith, ltb→le t (c + b.weight) p, length-replicate b.weight b))))
      ])
