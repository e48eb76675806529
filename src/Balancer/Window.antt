-- ===== src/Balancer/Window.antt =====
-- Going round a list: the elements at places that run on past its end and start again.
use mathlib.Core.Path.{ap₂, subst}
use mathlib.Core.List.{map-append}
use native.Mathlib.Nat.{
  mod-lt, mod-eq_of_lt, mod-add-mod, mod-mod, mod_self, zero-add, add-zero, suc-add,
}
use native.Mathlib.Numerals.{add-one}
use nyxora.Common.{
  length-drop, take_all, ℕ, zero, suc, ◌+◌, ◌-◌, ◌%◌, ◌≤◌, ◌<◌, ◌≡◌, refl, sym, ap, ◌∙◌, Option,
  some, List, [], ◌∷◌, ◌++◌, map, arith, length, take, drop, get_elem?,
}

module _ {ℓ} {A : Type ℓ} where
  -- The elements at k places in a row from `start`, going round.
  abbrev pub window : List A → ℕ → ℕ → List (Option A)
  window xs start zero = []
  window xs start (suc k) = get_elem? xs (start % length xs) ∷ window xs (start + 1) k

  -- All elements, once round from the place c.
  abbrev pub rotate_left : ℕ → List A → List A
  rotate_left c xs = drop c xs ++ take c xs

  pub window-mod :
      (xs : List A) (a b k : ℕ) → a % length xs ≡ b % length xs → window xs a k ≡ window xs b k
  window-mod xs a b zero e = refl
  window-mod xs a b (suc k) e = rw e (
      ap (◌∷◌ (get_elem? xs (b % length xs))) (
        window-mod xs (a + 1) (b + 1) k (
          sym (mod-add-mod a (length xs) 1)
          ∙ ap (λ t. (t + 1) % length xs) e
          ∙ mod-add-mod b (length xs) 1)))

  window-append :
      (xs : List A) (a j k : ℕ) → window xs a (j + k) ≡ window xs a j ++ window xs (a + j) k
  window-append xs a zero k = rw (zero-add, add-zero)
  window-append xs a (suc j) k = rw (suc-add j k) (
      ap (◌∷◌ (get_elem? xs (a % length xs))) (
        window-append xs (a + 1) j k
        ∙ ap (λ t. window xs (a + 1) j ++ window xs t k) (omega arith)))

  get_elem?-drop :
      (xs : List A) (c : ℕ)
      → c < length xs
      → (x : A) × (get_elem? xs c ≡ some x) × (drop c xs ≡ x ∷ drop (suc c) xs)
  get_elem?-drop [] c h = elim h [ ]
  get_elem?-drop (x ∷ xs) zero h = (x, refl, refl)
  get_elem?-drop (x ∷ xs) (suc c) h = get_elem?-drop xs c (omega arith)

  -- Up to the end of the list the window is a part of it.
  window-take :
      (xs : List A) (c k : ℕ) → c + k ≤ length xs → window xs c k ≡ map some (take k (drop c xs))
  window-take xs c zero h = refl
  window-take xs c (suc k) h =
      let (x, at, e) = get_elem?-drop xs c (omega arith) in
      rw (mod-eq_of_lt {n = c} {m = length xs} (omega arith), at, e)
        (ap (◌∷◌ (some x)) (rw add-one (window-take xs (suc c) k (omega arith))))

  -- As many places as the list has elements are its elements, once round.
  pub window_round :
      (xs : List A) (a : ℕ)
      → 0 < length xs
      → window xs a (length xs) ≡ map some (rotate_left (a % length xs) xs)
  window_round xs a h =
      let n = length xs in
      let c = a % n in
      let below : c < n = mod-lt a h in
      let upper : window xs c (n - c) ≡ map some (drop c xs) =
        window-take xs c (n - c) (omega arith)
        ∙ ap (map some) (take_all (n - c) (drop c xs) (omega (arith, length-drop c xs))) in
      let lower : window xs (c + (n - c)) c ≡ map some (take c xs) =
        window-mod xs (c + (n - c)) 0 c
          (ap (λ t. t % n) (omega arith) ∙ mod_self n ∙ sym (mod-eq_of_lt h))
        ∙ window-take xs 0 c (omega arith) in
      window-mod xs a c n (sym (mod-mod a n))
      ∙ ap (window xs c) (omega arith)
      ∙ window-append xs c (n - c) c
      ∙ ap₂ (λ u v. u ++ v) upper lower
      ∙ sym (map-append some (drop c xs) (take c xs))

  pub window_round_of :
      (xs : List A) (a n : ℕ)
      → length xs ≡ n
      → 0 < n
      → window xs a n ≡ map some (rotate_left (a % n) xs)
  window_round_of xs a n e h =
      subst (λ m. window xs a m ≡ map some (rotate_left (a % m) xs)) e
        (window_round xs a (omega arith))
