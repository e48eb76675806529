-- ===== src/Common/Latest.antt =====
-- The end of a slice that keeps only the last elements.
use Prim.Native.Nat.{ℕ, zero, suc, ◌+◌, ◌-◌, ◌≤◌}
use mathlib.Core.Path.{◌≡◌, refl, ap, sym, ◌∙◌}
use mathlib.Core.Logic.{inl, inr}
use mathlib.Core.Bool.{false}
use mathlib.Core.List.{append-nil, List, [], ◌∷◌, ◌++◌}
use native.Mathlib.Omega.{arith}
use nyxora.Common.Tests.{ltb, if◌then◌else◌, Bool-cases}
use nyxora.Common.Lists.{length, drop, length-append, length-drop}

module _ {ℓ} {A : Type ℓ} where
  -- The last n elements, or all.
  abbrev pub latest : ℕ → List A → List A
  latest n xs = drop (length xs - n) xs

  drop-append :
      (j k : ℕ) (xs ys : List A)
      → k ≤ length xs
      → drop j (drop k xs ++ ys) ≡ drop (j + k) (xs ++ ys)
  drop-append j zero xs ys h = ap (λ n. drop n (xs ++ ys)) (omega arith)
  drop-append j (suc k) [] ys h = absurd (omega arith)
  drop-append j (suc k) (x ∷ xs) ys h =
      drop-append j k xs ys (omega arith) ∙ ap (λ n. drop n (x ∷ xs ++ ys)) (plus_suc j k)
    where
      plus_suc : (a b : ℕ) → suc (a + b) ≡ a + suc b
      plus_suc a b = omega arith

  pub latest-append :
      (n : ℕ) (xs : List A) (x : A) → latest n (latest n xs ++ (x ∷ [])) ≡ latest n (xs ++ (x ∷ []))
  latest-append n xs x =
      let k = length xs - n in
      let grown = drop k xs ++ (x ∷ []) in
      drop-append (length grown - n) k xs (x ∷ []) (omega arith)
      ∙ ap (λ m. drop m (xs ++ (x ∷ [])))
          (omega (
            arith,
            length-append (drop k xs) (x ∷ []),
            length-append xs (x ∷ []),
            length-drop k xs,
          ))

  -- `append`, and the first elements dropped when there are more than n.
  abbrev pub append_last : ℕ → List A → A → List A
  append_last n xs x =
      let grown = xs ++ (x ∷ []) in
      if ltb n (length grown) then drop (length grown - n) grown else grown

  pub append_last_lem :
      (n : ℕ) (xs : List A) (x : A) → append_last n xs x ≡ latest n (xs ++ (x ∷ []))
  append_last_lem n xs x = elim (Bool-cases (ltb n (length (xs ++ (x ∷ []))))) [
    | inl e ↦ rw e refl
    | inr e ↦ rw e (ap (λ m. drop m (xs ++ (x ∷ []))) (short (length (xs ++ (x ∷ []))) e))
  ]
    where
      short : (m : ℕ) → ltb n m ≡ false → 0 ≡ m - n
      short m h = ground arith

  drop-drop : (j k : ℕ) (xs : List A) → k ≤ length xs → drop j (drop k xs) ≡ drop (j + k) xs
  drop-drop j k xs h =
      ap (drop j) (sym (append-nil (drop k xs)))
      ∙ drop-append j k xs [] h
      ∙ ap (drop (j + k)) (append-nil xs)

  -- The last of the last.
  pub latest-latest : (m n : ℕ) (xs : List A) → m ≤ n → latest m (latest n xs) ≡ latest m xs
  latest-latest m n xs h =
      let k = length xs - n in
      drop-drop (length (drop k xs) - m) k xs (omega arith)
      ∙ ap (λ j. drop j xs) (omega (arith, length-drop k xs))

  pub length-latest-le : (n : ℕ) (xs : List A) → length (latest n xs) ≤ n
  length-latest-le n xs = omega (arith, length-drop (length xs - n) xs)
