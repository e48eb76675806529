-- ===== src/Transport/Uuid.antt =====
-- Identifiers that internal/transport/vless.go makes and reads, and the header that holds one.
use mathlib.Core.List.{append-nil}
use nyxora.Common.{
  length-drop, take_all, ℕ, zero, suc, ◌-◌, ◌*◌, ◌/◌, ◌%◌, ◌<◌, ◌≡◌, refl, ap, sym, ◌∙◌, inl, inr,
  true, false, none, some, [], ◌∷◌, ◌++◌, if◌then◌else◌, ltb, ◌==◌, length, take, drop, All, arith,
  Bool-cases,
}
use nyxora.Common.Bytes.{Bytes}
use nyxora.Transport.Vless.{
  hex_value, hex_pairs, without_hyphens, parse_uuid, hex_digit, hex, slice, generate_random_uuid,
}

-- Numbers that fit in a byte.
abbrev pub AreBytes : Bytes → Type 0
AreBytes = All (λ b. b < 256)

hex_value-hex_digit : (n : ℕ) → n < 16 → hex_value (hex_digit n) ≡ some n
unfolding hex_value
hex_value-hex_digit n h = elim (Bool-cases (ltb n 10)) [
  | inl t ↦ rw t (ground arith)
  | inr t ↦ rw t (ground arith)
]

hex_digit_lem : (n : ℕ) → n < 16 → (hex_digit n == b'-') ≡ false
hex_digit_lem n h = ground arith

without_hyphens-hex :
    (bs rest : Bytes)
    → AreBytes bs
    → without_hyphens (hex bs ++ rest) ≡ hex bs ++ without_hyphens rest
unfolding hex
without_hyphens-hex [] rest h = refl
without_hyphens-hex (b ∷ bs) rest h = rw (hex_digit_lem (b / 16) (omega (arith, h.0))) (
    rw (hex_digit_lem (b % 16) (omega (arith, h.0)))
      (ap (λ s. hex_digit (b / 16) ∷ hex_digit (b % 16) ∷ s) (without_hyphens-hex bs rest h.1)))

hex_pairs-hex : (bs : Bytes) → AreBytes bs → hex_pairs (hex bs) ≡ some bs
unfolding hex hex_pairs
hex_pairs-hex [] h = refl
hex_pairs-hex (b ∷ bs) h = rw (hex_value-hex_digit (b / 16) (omega (arith, h.0))) (
    rw (hex_value-hex_digit (b % 16) (omega (arith, h.0)))
      (rw (hex_pairs-hex bs h.1) (ap (λ c. some (c ∷ bs)) (omega arith))))

hex-append : (cs bs : Bytes) → hex cs ++ hex bs ≡ hex (cs ++ bs)
unfolding hex
hex-append [] bs = refl
hex-append (c ∷ cs) bs = ap (λ s. hex_digit (c / 16) ∷ hex_digit (c % 16) ∷ s) (hex-append cs bs)

length-hex : (bs : Bytes) → length (hex bs) ≡ 2 * length bs
unfolding hex
length-hex [] = omega arith
length-hex (b ∷ bs) = omega (arith, length-hex bs)

AreBytes-take : (n : ℕ) (bs : Bytes) → AreBytes bs → AreBytes (take n bs)
AreBytes-take zero bs h = tt
AreBytes-take (suc n) [] h = tt
AreBytes-take (suc n) (b ∷ bs) h = (h.0, AreBytes-take n bs h.1)

AreBytes-drop : (n : ℕ) (bs : Bytes) → AreBytes bs → AreBytes (drop n bs)
AreBytes-drop zero bs h = h
AreBytes-drop (suc n) [] h = tt
AreBytes-drop (suc n) (b ∷ bs) h = AreBytes-drop n bs h.1

take-append-drop : (n : ℕ) (bs : Bytes) → take n bs ++ drop n bs ≡ bs
take-append-drop zero bs = refl
take-append-drop (suc n) [] = refl
take-append-drop (suc n) (b ∷ bs) = ap (◌∷◌ b) (take-append-drop n bs)

drop_two : (m : ℕ) (bs : Bytes) → drop 2 (drop m bs) ≡ drop (suc (suc m)) bs
drop_two zero bs = refl
drop_two (suc m) [] = refl
drop_two (suc m) (b ∷ bs) = drop_two m bs

-- Two elements and what is behind them.
take_two :
    (m : ℕ) (bs rest : Bytes)
    → drop (suc (suc m)) bs ≡ rest
    → take 2 (drop m bs) ++ rest ≡ drop m bs
take_two m bs rest h =
    ap (λ r. take 2 (drop m bs) ++ r) (sym h ∙ sym (drop_two m bs)) ∙ take-append-drop 2 (drop m bs)

-- The five parts of sixteen bytes.
slices_lem :
    (b : Bytes)
    → length b ≡ 16
    → slice 0 4 b ++ (slice 4 6 b ++ (slice 6 8 b ++ (slice 8 10 b ++ slice 10 16 b))) ≡ b
slices_lem b h =
    let last : slice 10 16 b ≡ drop 10 b =
      take_all 6 (drop 10 b) (omega (arith, length-drop 10 b, h)) in
    let fourth : slice 8 10 b ++ slice 10 16 b ≡ drop 8 b =
      take_two 8 b (slice 10 16 b) (sym last) in
    let third : slice 6 8 b ++ (slice 8 10 b ++ slice 10 16 b) ≡ drop 6 b =
      take_two 6 b _ (sym fourth) in
    let second : slice 4 6 b ++ (slice 6 8 b ++ (slice 8 10 b ++ slice 10 16 b)) ≡ drop 4 b =
      take_two 4 b _ (sym third) in
    ap (λ s. take 4 b ++ s) second ∙ take-append-drop 4 b

AreBytes-slice : (from to : ℕ) (b : Bytes) → AreBytes b → AreBytes (slice from to b)
AreBytes-slice from to b h = AreBytes-take (to - from) (drop from b) (AreBytes-drop from b h)

without_hyphens-generate_random_uuid :
    (b : Bytes) → AreBytes b → length b ≡ 16 → without_hyphens (generate_random_uuid b) ≡ hex b
unfolding generate_random_uuid
without_hyphens-generate_random_uuid b h k =
    without_hyphens-hex (slice 0 4 b) _ (AreBytes-slice 0 4 b h)
    ∙ ap (λ s. hex (slice 0 4 b) ++ s)
        (without_hyphens-hex (slice 4 6 b) _ (AreBytes-slice 4 6 b h))
    ∙ ap (λ s. hex (slice 0 4 b) ++ (hex (slice 4 6 b) ++ s))
        (without_hyphens-hex (slice 6 8 b) _ (AreBytes-slice 6 8 b h))
    ∙ ap (λ s. hex (slice 0 4 b) ++ (hex (slice 4 6 b) ++ (hex (slice 6 8 b) ++ s)))
        (without_hyphens-hex (slice 8 10 b) _ (AreBytes-slice 8 10 b h))
    ∙ ap
        (λ s.
          hex (slice 0 4 b)
          ++ (hex (slice 4 6 b) ++ (hex (slice 6 8 b) ++ (hex (slice 8 10 b) ++ s))))
        (all_hex (slice 10 16 b) (AreBytes-slice 10 16 b h))
    ∙ ap (λ s. hex (slice 0 4 b) ++ (hex (slice 4 6 b) ++ (hex (slice 6 8 b) ++ s)))
        (hex-append (slice 8 10 b) (slice 10 16 b))
    ∙ ap (λ s. hex (slice 0 4 b) ++ (hex (slice 4 6 b) ++ s)) (hex-append (slice 6 8 b) _)
    ∙ ap (λ s. hex (slice 0 4 b) ++ s) (hex-append (slice 4 6 b) _)
    ∙ hex-append (slice 0 4 b) _
    ∙ ap hex (slices_lem b k)
  where
    all_hex : (s : Bytes) → AreBytes s → without_hyphens (hex s) ≡ hex s
    all_hex s g =
        ap without_hyphens (sym (append-nil (hex s)))
        ∙ without_hyphens-hex s [] g
        ∙ append-nil (hex s)

-- The sixteen bytes that `GenerateRandomUUID` writes are those that `parseUUID` reads from its
-- text.
pub parse_uuid-generate_random_uuid :
    (b : Bytes) → AreBytes b → length b ≡ 16 → parse_uuid (generate_random_uuid b) ≡ some b
unfolding parse_uuid
parse_uuid-generate_random_uuid b h k =
    let clean = without_hyphens-generate_random_uuid b h k in
    ap (λ s. if length s == 32 then hex_pairs s else none) clean
    ∙ rw length_test (hex_pairs-hex b h)
  where
    length_test : (length (hex b) == 32) ≡ true
    length_test = ground (arith, length-hex b, k)
