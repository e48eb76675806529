-- ===== src/Config/Memory.antt =====
-- `GetAvailableRAMMB` of internal/config/config.go, with what it uses of Go's packages strings and
-- strconv, on texts of ASCII.
use nyxora.Common.{
  ℕ, ◌+◌, ◌-◌, ◌*◌, ◌/◌, ◌^◌, ◌<◌, ◌≡◌, refl, inl, inr, Bool, true, false, ◌&&◌, ◌||◌, Option, none,
  some, List, [], ◌∷◌, ◌++◌, if◌then◌else◌, ltb, leb, ◌==◌, arith, Bool-cases,
}
use nyxora.Common.Bytes.{Bytes, codes}

-- `strings.Split(s, "\n")`: `line` is what has been read of the line.
unfoldable pub split_lines : Bytes → Bytes → List Bytes
split_lines line [] = line ∷ []
split_lines line (c ∷ s) =
    let ended = line ∷ split_lines [] s in
    let going = split_lines (line ++ (c ∷ [])) s in if c == b'\n' then ended else going

abbrev pub is_space : ℕ → Bool
is_space c = (leb 9 c && leb c 13) || (c == b' ')

-- `strings.Fields`: `word` is what has been read of the field.
abbrev pub with_word : Bytes → List Bytes → List Bytes
with_word [] ws = ws
with_word (c ∷ word) ws = (c ∷ word) ∷ ws

unfoldable pub fields_from : Bytes → Bytes → List Bytes
fields_from word [] = with_word word []
fields_from word (c ∷ s) =
    let ended = with_word word (fields_from [] s) in
    let going = fields_from (word ++ (c ∷ [])) s in if is_space c then ended else going

unfoldable pub fields : Bytes → List Bytes
unfolding fields_from
fields s = fields_from [] s

-- `strings.HasPrefix`.
unfoldable pub has_prefix : Bytes → Bytes → Bool
has_prefix s [] = true
has_prefix [] (p ∷ prefix) = false
has_prefix (c ∷ s) (p ∷ prefix) = (c == p) && has_prefix s prefix

-- `strconv.ParseUint(s, 10, 64)`: digits only, and a number of 64 bits. `n` is the number so far.
unfoldable pub digits_from : ℕ → Bytes → Option ℕ
digits_from n [] = some n
digits_from n (c ∷ s) =
    let m = n * 10 + (c - b'0') in
    let rest = digits_from m s in
    if (leb b'0' c && leb c b'9') && ltb m (2 ^ 64) then rest else none

unfoldable pub parse_uint : Bytes → Option ℕ
unfolding digits_from
parse_uint [] = none
parse_uint (c ∷ s) = digits_from 0 (c ∷ s)

-- The kilobytes of a line, if there is a second field and it is a number.
unfoldable pub second_field : List Bytes → Option ℕ
unfolding parse_uint
second_field (_ ∷ f ∷ _) = parse_uint f
second_field _ = none

abbrev pub megabytes_or : ℕ → Option ℕ → ℕ
megabytes_or rest none = rest
megabytes_or rest (some kb) = kb / 1024

-- The loop over the lines of the file.
unfoldable pub find_available : List Bytes → ℕ
unfolding fields has_prefix second_field
find_available [] = 0
find_available (line ∷ lines) =
    let rest = find_available lines in
    if has_prefix line (codes "MemAvailable:")
    then megabytes_or rest (second_field (fields line))
    else rest

-- `none` is a file that cannot be read.
unfoldable pub get_available_ram_mb : Option Bytes → ℕ
unfolding find_available split_lines
get_available_ram_mb none = 0
get_available_ram_mb (some text) = find_available (split_lines [] text)

digits_from-lt : (s : Bytes) (n m : ℕ) → n < 2 ^ 64 → digits_from n s ≡ some m → m < 2 ^ 64
unfolding digits_from
digits_from-lt [] n m h e = ground arith
digits_from-lt (c ∷ s) n m h e = ground (arith, digits_from-lt s (n * 10 + (c - b'0')) m)

second_field-lt : (ws : List Bytes) (kb : ℕ) → second_field ws ≡ some kb → kb < 2 ^ 64
unfolding second_field parse_uint
second_field-lt [] kb e = ground arith
second_field-lt (_ ∷ []) kb e = ground arith
second_field-lt (_ ∷ [] ∷ _) kb e = ground arith
second_field-lt (_ ∷ (c ∷ s) ∷ _) kb e = digits_from-lt (c ∷ s) 0 kb (omega arith) e

megabytes_or-lt :
    (rest : ℕ) (f : Option ℕ)
    → rest < 2 ^ 54
    → ((kb : ℕ) → f ≡ some kb → kb < 2 ^ 64)
    → megabytes_or rest f < 2 ^ 54
megabytes_or-lt rest none h k = h
megabytes_or-lt rest (some kb) h k = omega (arith, k kb refl)

find_available-lt : (lines : List Bytes) → find_available lines < 2 ^ 54
unfolding find_available
find_available-lt [] = omega arith
find_available-lt (line ∷ lines) = elim (Bool-cases (has_prefix line (codes "MemAvailable:"))) [
  | inl t ↦ rw t (
      megabytes_or-lt (find_available lines) (second_field (fields line)) (find_available-lt lines)
        (second_field-lt (fields line)))
  | inr t ↦ rw t (find_available-lt lines)
]

pub get_available_ram_mb-lt : (file : Option Bytes) → get_available_ram_mb file < 2 ^ 54
unfolding get_available_ram_mb
get_available_ram_mb-lt none = omega arith
get_available_ram_mb-lt (some text) = find_available-lt (split_lines [] text)
