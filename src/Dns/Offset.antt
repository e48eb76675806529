-- ===== src/Dns/Offset.antt =====
-- Where `parseDNSResponse` of internal/dns/dns.go starts to read the answers.
use nyxora.Common.{
  ℕ, ◌+◌, ◌*◌, ◌≤◌, ◌≡◌, ◌≢◌, refl, true, false, some, [], ◌∷◌, ◌++◌, ◌==◌, arith, length, ltb, leb,
  done,
}
use nyxora.Common.Bytes.{Bytes}
use nyxora.Dns.Response.{word_lem}
use nyxora.Dns.Wire.{find_offset, word, take_record, read_answers, parse_dns_response}

-- The first twelve bytes of a response to the query of `makeDNSQuery`: its transaction id, two
-- bytes of flags, one question, one answer, and no further records.
abbrev pub one_answer : ℕ → ℕ → Bytes
one_answer flags flags' = 0x12 ∷ 0x34 ∷ flags ∷ flags' ∷ 0 ∷ 1 ∷ 0 ∷ 1 ∷ 0 ∷ 0 ∷ 0 ∷ 0 ∷ []

-- In such a response, with both bytes of flags other than 0, the first byte 0 is the upper half of
-- the number of questions, so the answers are looked for at offset 9, inside the header.
find_offset_early :
    (flags flags' : ℕ) (body : Bytes)
    → flags ≢ 0
    → flags' ≢ 0
    → find_offset (one_answer flags flags' ++ body) 12 0 ≡ done 9
unfolding find_offset
find_offset_early flags flags' body h k = ground arith

-- Reading one record from offset 9, in whatever bytes, that is not of the type A.
read_answers_once :
    (data' : Bytes) (qtype rrlen : ℕ)
    → 21 ≤ length data'
    → word data' 11 ≡ done qtype
    → word data' 19 ≡ done rrlen
    → qtype ≢ 1
    → read_answers data' 1 9 [] ≡ done []
unfolding read_answers take_record
read_answers_once data' qtype rrlen h eq er other =
    let fits : leb 21 (length data') ≡ true = ground arith in
    let not_a : (qtype == 1) ≡ false = ground arith in rw (fits, eq, er, not_a) refl

-- The only answer of a response with these flags is never found, unless the first label of the name
-- is one byte long: the length of this label, at offset 12, is taken for the type of the answer. So
-- `parseDNSResponse` returns no address, whatever the rest of the response holds.
pub one_answer_missed :
    (flags flags' label : ℕ) (body : Bytes)
    → flags ≢ 0
    → flags' ≢ 0
    → label ≢ 1
    → 9 ≤ length body
    → parse_dns_response (one_answer flags flags' ++ (label ∷ body)) ≡ done (some [])
unfolding parse_dns_response
one_answer_missed flags flags' label body h k l long =
    let data' = one_answer flags flags' ++ (label ∷ body) in
    let (rrlen, er) = word_lem data' 19 (omega arith) in
    let enough : ltb (length data') 12 ≡ false = ground arith in
    rw
      (
        enough,
        find_offset_early flags flags' (label ∷ body) h k,
        read_answers_once data' (0 * 256 + label) rrlen (omega arith) refl er (omega arith),
      )
      refl
