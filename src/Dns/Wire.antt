-- ===== src/Dns/Wire.antt =====
-- `makeDNSQuery`, `splitDomain` and `parseDNSResponse` of internal/dns/dns.go, on bytes: numbers
-- below 256. `hi<<8 | lo` is hi * 256 + lo.
use nyxora.Common.{
  ℕ, zero, suc, ◌+◌, ◌*◌, ◌%◌, Option, none, some, List, [], ◌∷◌, ◌++◌, ◌==◌, ◌&&◌, ltb, leb,
  if◌then◌else◌, length, Outcome, done, ◌>>=◌, at_index,
}
use nyxora.Common.Bytes.{Bytes, pieces}

-- What `net.IPv4` makes of four bytes.
pub data Ip : Type 0 where
  ipv4 : ℕ → ℕ → ℕ → ℕ → Ip

unfoldable pub split_domain : Bytes → List Bytes
split_domain domain = pieces b'.' [] domain

unfoldable pub append_labels : Bytes → List Bytes → Bytes
append_labels msg [] = msg
append_labels msg (label ∷ labels) = append_labels (msg ++ ((length label % 256) ∷ label)) labels

abbrev pub query_header : Bytes
query_header =
    0x12 ∷ 0x34 ∷ 0x01 ∷ 0x00 ∷ 0x00 ∷ 0x01 ∷ 0x00 ∷ 0x00 ∷ 0x00 ∷ 0x00 ∷ 0x00 ∷ 0x00 ∷ []

unfoldable pub make_dns_query : Bytes → Bytes
unfolding split_domain append_labels
make_dns_query domain = append_labels query_header (split_domain domain) ++ (0 ∷ 0 ∷ 1 ∷ 0 ∷ 1 ∷ [])

-- The loop that looks for a byte 0, with `left` rounds to go before `i` reaches 12.
unfoldable pub find_offset : Bytes → ℕ → ℕ → Outcome ℕ
find_offset data' zero i = done 12
find_offset data' (suc left) i =
    let rest = find_offset data' left (i + 1) in
    at_index data' i >>= λ b. if b == 0 then done (i + 5) else rest

-- Two bytes as a number.
abbrev pub word : Bytes → ℕ → Outcome ℕ
word data' i = at_index data' i >>= λ hi. at_index data' (i + 1) >>= λ lo. done (hi * 256 + lo)

abbrev pub ip_at : Bytes → ℕ → Outcome Ip
ip_at data' i = do
  a ← at_index data' i
  b ← at_index data' (i + 1)
  c ← at_index data' (i + 2)
  d ← at_index data' (i + 3)
  done (ipv4 a b c d)

-- A record behind its twelve bytes: `append` when it is an address.
unfoldable pub take_record : Bytes → ℕ → ℕ → ℕ → List Ip → Outcome (List Ip)
take_record data' offset qtype rrlen ips =
    if (qtype == 1 && rrlen == 4) && leb (offset + 4) (length data')
    then (ip_at data' offset >>= λ ip. done (ips ++ (ip ∷ [])))
    else done ips

-- The loop over the answers, with `left` rounds to go before `i` reaches `ancount`.
unfoldable pub read_answers : Bytes → ℕ → ℕ → List Ip → Outcome (List Ip)
unfolding take_record
read_answers data' zero offset ips = done ips
read_answers data' (suc left) offset ips =
    let next = λ (qtype rrlen : ℕ). take_record data' (offset + 12) qtype rrlen ips >>= λ found.
    read_answers data' left (offset + 12 + rrlen) found in
    if leb (offset + 12) (length data')
    then (do qtype ← word data' (offset + 2); rrlen ← word data' (offset + 10); next qtype rrlen)
    else done ips

-- `none` is an error.
unfoldable pub parse_dns_response : Bytes → Outcome (Option (List Ip))
unfolding find_offset read_answers
parse_dns_response data' =
    if ltb (length data') 12
    then done none
    else word data' 6 >>= λ ancount.
        if ancount == 0
        then done none
        else find_offset data' 12 0 >>= λ offset.
            read_answers data' ancount offset [] >>= λ ips. done (some ips)
