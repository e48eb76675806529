-- ===== src/Dns/Response.antt =====
-- What `parseDNSResponse` of internal/dns/dns.go reads of any bytes.
use nyxora.Common.{
  ℕ, zero, suc, ◌+◌, ◌*◌, ◌<◌, ◌≤◌, ◌≡◌, refl, ap, ◌⊎◌, inl, inr, Option, none, some, List, [], ◌∷◌,
  ◌++◌, ◌==◌, ◌&&◌, arith, length, All, ltb, leb, get_elem?, Bool-cases, Outcome, done, panic,
  ltb→le, leb→le, length-append,
}
use nyxora.Common.Bytes.{Bytes}
use nyxora.Dns.Wire.{
  Ip, ipv4, find_offset, word, ip_at, take_record, read_answers, parse_dns_response,
}

at_index-Ends : (data' : Bytes) (i : ℕ) → i < length data' → (b : ℕ) × (get_elem? data' i ≡ some b)
at_index-Ends [] i h = absurd (omega arith)
at_index-Ends (b ∷ data') zero h = (b, refl)
at_index-Ends (b ∷ data') (suc i) h = at_index-Ends data' i (omega arith)

-- Four bytes of the response, side by side.
abbrev pub Stands : Bytes → Ip → Type 0
Stands data' (ipv4 a b c d) =
    (i : ℕ) × (get_elem? data' i ≡ some a)
    × (get_elem? data' (i + 1) ≡ some b)
    × (get_elem? data' (i + 2) ≡ some c)
    × (get_elem? data' (i + 3) ≡ some d)

pub word_lem : (data' : Bytes) (i : ℕ) → i + 1 < length data' → (n : ℕ) × (word data' i ≡ done n)
word_lem data' i h =
    let (a, ea) = at_index-Ends data' i (omega arith) in
    let (b, eb) = at_index-Ends data' (i + 1) h in (a * 256 + b, rw (ea, eb) refl)

ip_at_lem :
    (data' : Bytes) (i : ℕ)
    → i + 4 ≤ length data'
    → (ip : Ip) × (ip_at data' i ≡ done ip) × Stands data' ip
ip_at_lem data' i h =
    let (a, ea) = at_index-Ends data' i (omega arith) in
    let (b, eb) = at_index-Ends data' (i + 1) (omega arith) in
    let (c, ec) = at_index-Ends data' (i + 2) (omega arith) in
    let (d, ed) = at_index-Ends data' (i + 3) (omega arith) in
    (ipv4 a b c d, rw (ea, eb, ec, ed) refl, (i, ea, eb, ec, ed))

All-append {ℓ κ} :
    {A : Type ℓ} (P : A → Type κ) (xs : List A) {x : A} → All P xs → P x → All P (xs ++ (x ∷ []))
All-append P [] h k = (k, tt)
All-append P (y ∷ xs) h k = (h.0, All-append P xs h.1 k)

find_offset_lem :
    (data' : Bytes) (left i : ℕ)
    → i + left ≤ length data'
    → (n : ℕ) × (find_offset data' left i ≡ done n)
unfolding find_offset
find_offset_lem data' zero i h = (12, refl)
find_offset_lem data' (suc left) i h =
    let (b, e) = at_index-Ends data' i (omega arith) in
    elim (Bool-cases (b == 0)) [
      | inl z ↦ (i + 5, rw (e, z) refl)
      | inr nz ↦ let (n, r) = find_offset_lem data' left (i + 1) (omega arith) in (n, rw (e, nz) r)
    ]

-- A list of addresses, at most `most` of them, each of which stands in the response.
abbrev IsRead : Bytes → ℕ → List Ip → Type 0
IsRead data' most ips = All (Stands data') ips × (length ips ≤ most)

take_record_lem :
    (data' : Bytes) (offset qtype rrlen most : ℕ) (ips : List Ip)
    → IsRead data' most ips
    → (out : List Ip) × (take_record data' offset qtype rrlen ips ≡ done out)
      × IsRead data' (most + 1) out
unfolding take_record
take_record_lem data' offset qtype rrlen most ips h =
    elim (Bool-cases ((qtype == 1 && rrlen == 4) && leb (offset + 4) (length data'))) [
      | inr stop ↦ (ips, rw stop refl, (h.0, omega arith))
      | inl ok ↦
          let fits : offset + 4 ≤ length data' = ground arith in
          let (ip, e, s) = ip_at_lem data' offset fits in
          (
            ips ++ (ip ∷ []),
            rw (ok, e) refl,
            (All-append (Stands data') ips h.0 s, omega (arith, length-append ips (ip ∷ []))),
          )
    ]

read_answers_lem :
    (data' : Bytes) (left offset most : ℕ) (ips : List Ip)
    → IsRead data' most ips
    → (out : List Ip) × (read_answers data' left offset ips ≡ done out)
      × IsRead data' (most + left) out
unfolding read_answers
read_answers_lem data' zero offset most ips h = (ips, refl, (h.0, omega arith))
read_answers_lem data' (suc left) offset most ips h =
    elim (Bool-cases (leb (offset + 12) (length data'))) [
      | inr stop ↦ (ips, rw stop refl, (h.0, omega arith))
      | inl ok ↦
          let fits : offset + 12 ≤ length data' = leb→le _ _ ok in
          let (qtype, eq) = word_lem data' (offset + 2) (omega arith) in
          let (rrlen, er) = word_lem data' (offset + 10) (omega arith) in
          let (found, ef, hf) = take_record_lem data' (offset + 12) qtype rrlen most ips h in
          let (out, eo, ho) =
            read_answers_lem data' left (offset + 12 + rrlen) (most + 1) found hf in
          (out, rw (ok, eq, er, ef) eo, (ho.0, omega arith))
    ]

-- The number of answers that the header announces.
abbrev or_zero : Outcome ℕ → ℕ
or_zero panic = 0
or_zero (done n) = n

abbrev pub answer_count : Bytes → ℕ
answer_count data' = or_zero (word data' 6)

-- Whatever bytes come in, reading them does not panic and ends, in an error or in a list of
-- addresses, no more than the header announces, each of which is four bytes of the response side by
-- side.
pub parse_dns_response_lem :
    (data' : Bytes)
    → (out : Option (List Ip)) × (parse_dns_response data' ≡ done out)
      × ((out ≡ none)
          ⊎ ((ips : List Ip) × (out ≡ some ips)
              × All (Stands data') ips
              × (length ips ≤ answer_count data')))
unfolding parse_dns_response
parse_dns_response_lem data' = elim (Bool-cases (ltb (length data') 12)) [
  | inl short ↦ (none, rw short refl, inl refl)
  | inr long ↦
      let size : 12 ≤ length data' = ltb→le _ _ long in
      let (count, ec) = word_lem data' 6 (omega arith) in
      elim (Bool-cases (count == 0)) [
        | inl z ↦ (none, rw (long, ec, z) refl, inl refl)
        | inr nz ↦
            let (offset, eo) = find_offset_lem data' 12 0 (omega arith) in
            let (ips, e, h) = read_answers_lem data' count offset 0 [] (tt, omega arith) in
            (
              some ips,
              rw (long, ec, nz, eo, e) refl,
              inr (ips, refl, h.0, omega (arith, h.1, ap or_zero ec)),
            )
      ]
]
