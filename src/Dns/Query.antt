-- ===== src/Dns/Query.antt =====
-- What a name server reads in the query of internal/dns/dns.go.
use mathlib.Core.List.{append_assoc, append-nil}
use nyxora.Common.{
  ℕ, zero, suc, ◌+◌, ◌<◌, ◌≤◌, ◌≡◌, refl, ap, sym, ◌∙◌, false, Option, none, some, List, [], ◌∷◌,
  ◌++◌, ◌==◌, if◌then◌else◌, arith, length, take, drop, All, ltb, le→ltb, length-append, Bool, true,
  not, ◌&&◌, ◌||◌, inl, inr, Bool-cases,
}
use native.Mathlib.Nat.{mod-eq_of_lt}
use nyxora.Common.Bytes.{Bytes, Lacks, separated, pieces-separated}
use nyxora.Dns.Wire.{split_domain, append_labels, query_header, make_dns_query}

abbrev prepend : Bytes → Option (List Bytes × Bytes) → Option (List Bytes × Bytes)
prepend l none = none
prepend l (some (labels, behind)) = some (l ∷ labels, behind)

-- A name in a query, as section 3.1 of RFC 1035 writes it: labels of at most 63 bytes, each behind
-- its length, and a length of 0. A greater first byte is a pointer, or reserved, and no length. The
-- result is the labels and what stands behind the name; no name has more labels than bytes.
pub read_labels : ℕ → Bytes → Option (List Bytes × Bytes)
read_labels zero data' = none
read_labels (suc fuel) [] = none
read_labels (suc fuel) (n ∷ data') =
    let rest = read_labels fuel (drop n data') in
    if n == 0
    then some ([], data')
    else if ltb 63 n || ltb (length data') n
    then none
    else prepend (take n data') rest

-- The bytes of a name: each label and its length, and the last 0.
abbrev pub name_size : List Bytes → ℕ
name_size [] = 1
name_size (l ∷ ls) = suc (length l) + name_size ls

-- A name has at most 255 bytes (section 2.3.4).
abbrev pub limit_name : Option (List Bytes × Bytes) → Option (List Bytes × Bytes)
limit_name none = none
limit_name (some (labels, behind)) =
    if ltb 255 (name_size labels) then none else some (labels, behind)

abbrev pub read_name : Bytes → Option (List Bytes × Bytes)
read_name data' = limit_name (read_labels (length data') data')

abbrev pub are_short : List Bytes → Bool
are_short [] = true
are_short (l ∷ ls) = not (ltb 63 (length l)) && are_short ls

-- The header of a message, as section 4.1.1 of RFC 1035 orders it, with an identifier: a query that
-- wants recursion, with one question and no records.
abbrev pub one_question : Bytes
one_question = 0x12 ∷ 0x34 ∷ 1 ∷ 0 ∷ 0 ∷ 1 ∷ 0 ∷ 0 ∷ 0 ∷ 0 ∷ 0 ∷ 0 ∷ []

abbrev wire : List Bytes → Bytes
wire [] = []
wire (l ∷ ls) = (length l ∷ l) ++ wire ls

abbrev pub IsLabel : Bytes → Type 0
IsLabel l = (0 < length l) × (length l < 256)

append_labels-wire :
    (ls : List Bytes) (msg : Bytes) → All IsLabel ls → append_labels msg ls ≡ msg ++ wire ls
unfolding append_labels
append_labels-wire [] msg h = sym (append-nil msg)
append_labels-wire (l ∷ ls) msg h =
    ap (λ n. append_labels (msg ++ (n ∷ l)) ls) (mod-eq_of_lt h.0.1)
    ∙ append_labels-wire ls (msg ++ (length l ∷ l)) h.1
    ∙ append_assoc msg (length l ∷ l) (wire ls)

take-append : (l rest : Bytes) → take (length l) (l ++ rest) ≡ l
take-append [] rest = refl
take-append (c ∷ l) rest = ap (◌∷◌ c) (take-append l rest)

drop-append_self : (l rest : Bytes) → drop (length l) (l ++ rest) ≡ rest
drop-append_self [] rest = refl
drop-append_self (c ∷ l) rest = drop-append_self l rest

read_labels-wire :
    (ls : List Bytes) (fuel : ℕ) (rest : Bytes)
    → All IsLabel ls
    → length ls < fuel
    → read_labels fuel (wire ls ++ (0 ∷ rest)) ≡ (if are_short ls then some (ls, rest) else none)
unfolding read_labels
read_labels-wire ls zero rest h f = absurd (omega arith)
read_labels-wire [] (suc fuel) rest h f = refl
read_labels-wire (l ∷ ls) (suc fuel) rest h f =
    let behind = wire ls ++ (0 ∷ rest) in
    let some_length : (length l == 0) ≡ false = ground (arith, h.0.0) in
    let long : ltb (length (l ++ behind)) (length l) ≡ false =
      le→ltb _ _ (omega (arith, length-append l behind)) in
    let ih = read_labels-wire ls fuel rest h.1 (omega arith) in
    ap (λ d. read_labels (suc fuel) (length l ∷ d)) (append_assoc l (wire ls) (0 ∷ rest))
    ∙ rw (some_length, long, take-append l behind, drop-append_self l behind, ih)
        (joined (ltb 63 (length l)) (are_short ls) l ls rest)
  where
    joined :
        (b c : Bool) (l : Bytes) (ls : List Bytes) (rest : Bytes)
        → (if b || false then none else prepend l (if c then some (ls, rest) else none))
          ≡ (if not b && c then some (l ∷ ls, rest) else none)
    joined true c l ls rest = refl
    joined false true l ls rest = refl
    joined false false l ls rest = refl

All-positive : (ls : List Bytes) → All IsLabel ls → All (λ l. 0 < length l) ls
All-positive [] h = tt
All-positive (l ∷ ls) h = (h.0.0, All-positive ls h.1)

length-wire : (ls : List Bytes) → length ls ≤ length (wire ls)
length-wire [] = omega arith
length-wire (l ∷ ls) = omega (arith, length-wire ls, length-append l (wire ls))

-- The labels make a name that RFC 1035 allows: none is longer than 63 bytes, and the name is not
-- longer than 255.
abbrev pub is_name : List Bytes → Bool
is_name labels = are_short labels && not (ltb 255 (name_size labels))

limit_name-if :
    (labels : List Bytes) (behind : Bytes) (b : Bool)
    → limit_name (if b then some (labels, behind) else none)
      ≡ (if b && not (ltb 255 (name_size labels)) then some (labels, behind) else none)
limit_name-if labels behind false = refl
limit_name-if labels behind true = elim (Bool-cases (ltb 255 (name_size labels))) [
  | inl t ↦ rw t refl
  | inr t ↦ rw t refl
]

-- For a host whose labels are not empty, shorter than 256 bytes and without a dot, the query has
-- the header of a query that wants recursion and asks one question. Reading it as RFC 1035 says
-- gives these labels back, followed by the type A and the class IN and nothing more, if no label
-- has more than 63 bytes and the name has at most 255; otherwise what `makeDNSQuery` wrote is no
-- name.
pub read_name-make_dns_query :
    (labels : List Bytes)
    → All IsLabel labels
    → All (Lacks b'.') labels
    → let query = make_dns_query (separated b'.' labels) in
      (take 12 query ≡ one_question)
      × (read_name (drop 12 query)
          ≡ (if is_name labels then some (labels, 0 ∷ 1 ∷ 0 ∷ 1 ∷ []) else none))
unfolding make_dns_query split_domain
read_name-make_dns_query labels h k =
    let pieces_back = pieces-separated b'.' labels k (All-positive labels h) in
    let end : Bytes = 0 ∷ 1 ∷ 0 ∷ 1 ∷ [] in
    rw (pieces_back, append_labels-wire labels query_header h)
      (
        refl,
        ap limit_name (
              read_labels-wire labels _ end h
                (omega (arith, length-wire labels, length-append (wire labels) (0 ∷ end))))
            ∙ limit_name-if labels end (are_short labels),
      )
