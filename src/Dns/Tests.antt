-- ===== src/Dns/Tests.antt =====
-- The theorems on internal/dns at small inputs, and runs of the code.
use nyxora.Common.{
  ◌<◌, ◌≤◌, ◌≡◌, ◌⊎◌, refl, String, Option, none, some, List, [], ◌∷◌, ◌++◌, arith, length, take,
  drop, All, done, if◌then◌else◌,
}
use nyxora.Common.Bytes.{Bytes, codes, separated, pieces}
use nyxora.Common.Assoc.{get, put}
use nyxora.Common.Words.{mul_int, is_negative, neg_int, add_duration}
use nyxora.Dns.Wire.{
  Ip, ipv4, split_domain, make_dns_query, find_offset, take_record, read_answers,
  parse_dns_response,
}
use nyxora.Dns.Query.{one_question, read_name, is_name, read_name-make_dns_query}
use nyxora.Dns.Response.{Stands, answer_count, parse_dns_response_lem}
use nyxora.Dns.Offset.{one_answer, one_answer_missed}
use nyxora.Dns.Resolver.{new_resolver, cached, lookup, ask_all}
use nyxora.Dns.Cached.{Call, lookup_all, lookup_repeated}

abbrev go_dev : List Bytes
go_dev = codes "go" ∷ codes "dev" ∷ []

split_run : split_domain (codes "go.dev") ≡ go_dev
unfolding split_domain pieces
split_run = refl

read_name-make_dns_query_example :
    let query = make_dns_query (separated b'.' go_dev) in
    (take 12 query ≡ one_question)
    × (read_name (drop 12 query)
        ≡ (if is_name go_dev then some (go_dev, 0 ∷ 1 ∷ 0 ∷ 1 ∷ []) else none))
read_name-make_dns_query_example =
    read_name-make_dns_query go_dev (omega arith)
      ((refl, (refl, tt)), ((refl, (refl, (refl, tt))), tt))

-- A response to the query for go.dev, with the address 10.0.0.1.
abbrev answered : Bytes
answered =
    one_answer 0x81 0x80
    ++ (2
        ∷ (codes "go"
            ++ (3
                ∷ (codes "dev"
                    ++ (0 ∷ 0 ∷ 1 ∷ 0 ∷ 1 ∷ 0xc0 ∷ 12 ∷ 0 ∷ 1 ∷ 0 ∷ 1 ∷ 0 ∷ 0 ∷ 0 ∷ 60 ∷ 0 ∷ 4 ∷ 10
                        ∷ 0 ∷ 0 ∷ 1 ∷ [])))))

answered_run : parse_dns_response answered ≡ done (some [])
unfolding parse_dns_response find_offset read_answers take_record
answered_run = refl

one_answer_missed_example :
    parse_dns_response (one_answer 0x81 0x80 ++ (2 ∷ codes "go_dev_body")) ≡ done (some [])
one_answer_missed_example =
    one_answer_missed 0x81 0x80 2 (codes "go_dev_body") (omega arith) (omega arith) (omega arith)
      (omega arith)

parse_dns_response_lem_example :
    (out : Option (List Ip)) × (parse_dns_response answered ≡ done out)
    × ((out ≡ none)
        ⊎ ((ips : List Ip) × (out ≡ some ips)
            × All (Stands answered) ips
            × (length ips ≤ answer_count answered)))
parse_dns_response_lem_example = parse_dns_response_lem answered

abbrev first_only : String → String → Option (List Ip)
first_only _ server = some (ipv4 10 0 0 1 ∷ [])

abbrev nobody : String → String → Option (List Ip)
nobody _ server = none

abbrev no_system : String → Option (List Ip)
no_system _ = none

miss : cached 5 "go.dev" (new_resolver [] 3 300) ≡ none
unfolding get new_resolver
miss = refl

resolved :
    (lookup first_only no_system 5 5 6 "go.dev" (new_resolver [] 3 300)).0 ≡ some (ipv4 10 0 0 1)
unfolding lookup ask_all get new_resolver
resolved = refl

-- In between another host is asked for, which no cache knows.
abbrev others : List Call
others =
    record {
      ask = first_only;
      system = no_system;
      first = 6;
      second = 6;
      stored = 6;
      host = "go.org";
    }
    ∷ []

good_until : 7 < add_duration 6 (new_resolver [] 3 300).cache_ttl
unfolding new_resolver mul_int is_negative add_duration
good_until = omega arith

lookup_repeated_example :
    let after =
      lookup_all others (lookup first_only no_system 5 5 6 "go.dev" (new_resolver [] 3 300)).1 in
    lookup nobody no_system 7 7 8 "go.dev" after ≡ (some (ipv4 10 0 0 1), after)
lookup_repeated_example =
    lookup_repeated first_only no_system 5 5 6 "go.dev" (new_resolver [] 3 300) others nobody
      no_system 7 7 8 miss miss resolved (omega (arith, good_until), tt) good_until

-- A time to live that wraps to a negative duration lies in the past.
wrapped_run :
    cached 100 "go.dev"
      (lookup first_only no_system 90 90 90 "go.dev" (new_resolver [] 3 10000000000)).1
    ≡ none
unfolding lookup ask_all get put new_resolver mul_int is_negative add_duration neg_int
wrapped_run = refl
