-- ===== src/Transport/Vless.antt =====
-- The header and the identifiers of internal/transport/vless.go, byte by byte. `parse_ip` stands
-- for `net.ParseIP` with `To4` and `To16`, and texts are valid UTF-8.
use nyxora.Common.{
  ℕ, ◌+◌, ◌-◌, ◌*◌, ◌/◌, ◌%◌, Bool, true, false, not, ◌&&◌, Option, none, some, [], ◌∷◌, ◌++◌,
  if◌then◌else◌, ltb, leb, ◌==◌, length, take, drop, keep,
}
use nyxora.Common.Bytes.{Bytes}

-- The value of a digit of a hexadecimal number.
unfoldable pub hex_value : ℕ → Option ℕ
hex_value c =
    if leb b'0' c && leb c b'9'
    then some (c - b'0')
    else if leb b'a' c && leb c b'f'
    then some (c - b'a' + 10)
    else if leb b'A' c && leb c b'F'
    then some (c - b'A' + 10)
    else none

-- `hi<<4 | lo`, if both digits are there and the rest is read.
abbrev pub with_byte : Option ℕ → Option ℕ → Option Bytes → Option Bytes
with_byte (some hi) (some lo) (some bs) = some ((hi * 16 + lo) ∷ bs)
with_byte _ _ _ = none

unfoldable pub hex_pairs : Bytes → Option Bytes
unfolding hex_value
hex_pairs [] = some []
hex_pairs (c ∷ []) = none
hex_pairs (c ∷ d ∷ s) = with_byte (hex_value c) (hex_value d) (hex_pairs s)

abbrev pub without_hyphens : Bytes → Bytes
without_hyphens = keep (λ c. not (c == b'-'))

unfoldable pub parse_uuid : Bytes → Option Bytes
unfolding hex_pairs
parse_uuid uuid =
    let clean = without_hyphens uuid in if length clean == 32 then hex_pairs clean else none

abbrev pub hex_digit : ℕ → ℕ
hex_digit n = if ltb n 10 then b'0' + n else b'a' + (n - 10)

-- `%x` of bytes.
unfoldable pub hex : Bytes → Bytes
hex [] = []
hex (b ∷ bs) = hex_digit (b / 16) ∷ hex_digit (b % 16) ∷ hex bs

abbrev pub slice : ℕ → ℕ → Bytes → Bytes
slice from to b = take (to - from) (drop from b)

-- `b` is the bytes that `rand.Read` gives.
unfoldable pub generate_random_uuid : Bytes → Bytes
unfolding hex
generate_random_uuid b =
    hex (slice 0 4 b)
    ++ (b'-'
        ∷ (hex (slice 4 6 b)
            ++ (b'-'
                ∷ (hex (slice 6 8 b)
                    ++ (b'-' ∷ (hex (slice 8 10 b) ++ (b'-' ∷ hex (slice 10 16 b))))))))

-- An address that `net.ParseIP` reads, in four or in sixteen bytes.
pub data ParsedIp : Type 0 where
  in_four in_sixteen : Bytes → ParsedIp

abbrev pub encode_parsed : Bytes → Option ParsedIp → ℕ × Bytes
encode_parsed addr none = (2, addr)
encode_parsed addr (some (in_four ip)) = (1, ip)
encode_parsed addr (some (in_sixteen ip)) = (3, ip)

unfoldable pub encode_address : (Bytes → Option ParsedIp) → Bytes → ℕ × Bytes
encode_address parse_ip addr = encode_parsed addr (parse_ip addr)

abbrev pub flow_part : Bytes → Bytes
flow_part [] = 0 ∷ []
flow_part (c ∷ flow) = length (c ∷ flow) % 256 ∷ (c ∷ flow)

unfoldable pub payload : (Bytes → Option ParsedIp) → ℕ → Bytes → Bytes → Bytes
unfolding encode_address
payload parse_ip port address flow =
    let encoded = encode_address parse_ip address in
    (0 ∷ 1 ∷ port / 256 % 256 ∷ port % 256 ∷ encoded.0 ∷ encoded.1) ++ flow_part flow

abbrev pub after_version : Bytes → Option Bytes → Bytes × Bool
after_version body none = (0 ∷ [], false)
after_version body (some uuid) = ((0 ∷ uuid) ++ (length body % 256 ∷ body), true)

-- What `sendVLESSHeader` writes, and whether it returns no error.
unfoldable pub send_vless_header :
    (Bytes → Option ParsedIp) → ℕ → Bytes → Bytes → Bytes → Bytes × Bool
unfolding parse_uuid payload
send_vless_header parse_ip port uuid address flow =
    after_version (payload parse_ip port address flow) (parse_uuid uuid)
