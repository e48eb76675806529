-- ===== src/Dns/Resolver.antt =====
-- The resolver and its monitor of internal/dns/dns.go, and the client of internal/dns/doh.go. A
-- reading of the clock is an argument for each place where the code reads it, and a time is a
-- number.
use nyxora.Common.{
  ℕ, Bool, true, false, String, Option, none, some, List, [], ◌∷◌, if◌then◌else◌, length, ltb, ◌==◌,
  ◌||◌,
}
use nyxora.Common.Words.{mul_int, is_negative, add_duration}
use nyxora.Common.Assoc.{get, put}
use nyxora.Dns.Wire.{Ip}

pub record CacheEntry : Type 0 where
  pub ip : Ip
  pub expires_at : ℕ

pub record Resolver : Type 0 where
  pub cache : List (String × CacheEntry)
  pub nameservers : List String
  pub timeout : ℕ
  pub cache_ttl : ℕ

abbrev pub or_default : ℕ → ℕ → ℕ
or_default n default = if is_negative n || (n == 0) then default else n

abbrev pub or_servers : List String → List String
or_servers [] = "1.1.1.1:53" ∷ "8.8.8.8:53" ∷ "9.9.9.9:53" ∷ []
or_servers (n ∷ ns) = n ∷ ns

unfoldable pub new_resolver : List String → ℕ → ℕ → Resolver
new_resolver nameservers timeout_sec cache_ttl = record {
  cache = [];
  nameservers = or_servers nameservers;
  timeout = mul_int (or_default timeout_sec 3) 1_000_000_000;
  cache_ttl = mul_int (or_default cache_ttl 300) 1_000_000_000;
}

-- The entry of a host, if it has one that is good at a time.
abbrev pub fresh_ip : ℕ → Option CacheEntry → Option Ip
fresh_ip now none = none
fresh_ip now (some e) = if ltb now e.expires_at then some e.ip else none

abbrev pub cached : ℕ → String → Resolver → Option Ip
cached now host r = fresh_ip now (get r.cache host)

-- The first address of an answer; `none` is an error of the query, or no address.
abbrev pub first_ip : Option (List Ip) → Option Ip
first_ip none = none
first_ip (some []) = none
first_ip (some (ip ∷ ips)) = some ip

abbrev pub first_some {ℓ} : {A : Type ℓ} → Option A → Option A → Option A
first_some (some a) o = some a
first_some none o = o

-- The loop over the name servers, where `ask` is `lookupUDP`.
unfoldable pub ask_all : (String → String → Option (List Ip)) → String → List String → Option Ip
ask_all ask host [] = none
ask_all ask host (n ∷ ns) = first_some (first_ip (ask host n)) (ask_all ask host ns)

abbrev pub remember : Option Ip → String → ℕ → Resolver → Option Ip × Resolver
remember none host now r = (none, r)
remember (some ip) host now r = (
  some ip,
  record r {
    cache = put r.cache host (record { ip = ip; expires_at = add_duration now r.cache_ttl });
  },
)

-- The answer of the system, `net.LookupIP`, comes last.
abbrev pub resolve :
    (String → String → Option (List Ip))
    → (String → Option (List Ip))
    → String
    → Resolver
    → Option Ip
resolve ask system host r = first_some (ask_all ask host r.nameservers) (first_ip (system host))

abbrev pub answer_or : Option Ip → Resolver → Option Ip × Resolver → Option Ip × Resolver
answer_or (some ip) r other = (some ip, r)
answer_or none r other = other

-- `Lookup`, with the clock at the two looks into the cache and at the new entry; `none` is an
-- error.
unfoldable pub lookup :
    (String → String → Option (List Ip))
    → (String → Option (List Ip))
    → ℕ
    → ℕ
    → ℕ
    → String
    → Resolver
    → Option Ip × Resolver
unfolding ask_all
lookup ask system first second stored host r =
    answer_or (cached first host r) r
      (answer_or (cached second host r) r (remember (resolve ask system host r) host stored r))

unfoldable pub clear_cache : Resolver → Resolver
clear_cache r = record r { cache = [] }

unfoldable pub cache_size : Resolver → ℕ
cache_size r = length r.cache

-- The results of the monitor: how long the last look-up of each host took.
pub record DnsMonitor : Type 0 where
  pub interval : ℕ
  pub results : List (String × ℕ)
  pub is_live : Bool

unfoldable pub new_dns_monitor : ℕ → DnsMonitor
new_dns_monitor interval_sec = record {
  interval = mul_int interval_sec 1_000_000_000;
  results = [];
  is_live = true;
}

unfoldable pub record_lookup : String → ℕ → DnsMonitor → DnsMonitor
record_lookup host took m = record m { results = put m.results host took }

unfoldable pub stop_monitor : DnsMonitor → DnsMonitor
stop_monitor m = record m { is_live = false }

unfoldable pub results : DnsMonitor → List (String × ℕ)
results m = m.results

pub record DohAnswer : Type 0 where
  pub name : String
  pub kind : ℕ
  pub ttl : ℕ
  pub data' : String

pub record DohCacheEntry : Type 0 where
  pub answers : List DohAnswer
  pub expiry : ℕ

pub record DohClient : Type 0 where
  pub endpoint : String
  pub cache : List (String × DohCacheEntry)
  pub cache_ttl : ℕ

pub record DohResponse : Type 0 where
  pub status : ℕ
  pub answer : List DohAnswer

abbrev pub doh_providers : List (String × String)
doh_providers =
    ("cloudflare", "https://cloudflare-dns.com/dns-query")
    ∷ ("google", "https://dns.google/resolve")
    ∷ ("quad9", "https://dns.quad9.net/dns-query")
    ∷ ("alidns", "https://dns.alidns.com/resolve")
    ∷ []

abbrev pub or_custom : Option String → String → String
or_custom none provider = provider
or_custom (some endpoint) provider = endpoint

unfoldable pub new_doh_client : String → DohClient
new_doh_client provider = record {
  endpoint = or_custom (get doh_providers provider) provider;
  cache = [];
  cache_ttl = 300_000_000_000;
}

abbrev pub fresh_answers : ℕ → Option DohCacheEntry → Option (List DohAnswer)
fresh_answers now none = none
fresh_answers now (some e) = if ltb now e.expiry then some e.answers else none

-- The status is an `int`; `none` is a request or a body that cannot be read.
abbrev pub accept :
    Option DohResponse → String → ℕ → DohClient → Option (List DohAnswer) × DohClient
accept none domain now d = (none, d)
accept (some response) domain now d =
    if response.status == 0
    then (
      some response.answer,
      record d {
        cache =
            put d.cache domain
              (record { answers = response.answer; expiry = add_duration now d.cache_ttl });
      },
    )
    else (none, d)

abbrev pub doh_answer_or :
    Option (List DohAnswer)
    → DohClient
    → Option (List DohAnswer) × DohClient
    → Option (List DohAnswer) × DohClient
doh_answer_or (some answers) d other = (some answers, d)
doh_answer_or none d other = other

-- `fetch` is the request to the endpoint.
unfoldable pub doh_lookup :
    (String → String → Option DohResponse)
    → ℕ
    → ℕ
    → String
    → DohClient
    → Option (List DohAnswer) × DohClient
doh_lookup fetch now stored domain d =
    doh_answer_or (fresh_answers now (get d.cache domain)) d
      (accept (fetch d.endpoint domain) domain stored d)

unfoldable pub clear_doh_cache : DohClient → DohClient
clear_doh_cache d = record d { cache = [] }
