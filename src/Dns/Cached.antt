-- ===== src/Dns/Cached.antt =====
-- What the caches of internal/dns answer.
use nyxora.Common.{
  ℕ, ◌<◌, ◌≡◌, refl, ap, sym, ◌∙◌, ◌⊎◌, inl, inr, String, Option, none, some, List, [], ◌∷◌,
  if◌then◌else◌, arith, lt→ltb, Option-cases, ◌↔◌, All, ◌==◌, ◌≢◌, Bool-cases, str_eq,
}
use mathlib.Core.Path.{subst}
use mathlib.Core.Option
use nyxora.Common.Words.{add_duration}
use nyxora.Common.Assoc.{get, put, get-put, str_eq_self, name_eq, name_ne, ne-str_eq}
use nyxora.Dns.Wire.{Ip}
use nyxora.Dns.Resolver.{
  Resolver, fresh_ip, cached, first_ip, first_some, ask_all, remember, resolve, lookup,
  DohCacheEntry, DohClient, DohResponse, fresh_answers, accept, doh_answer_or, doh_lookup,
}

get-put_self {ℓ} :
    {V : Type ℓ} (m : List (String × V)) (k : String) (v : V) → get (put m k v) k ≡ some v
get-put_self m k v = get-put m k v k ∙ ap (λ b. if b then some v else get m k) (str_eq_self k)

-- The cache has an address for a host, good up to a moment.
abbrev IsKept : String → Ip → ℕ → Resolver → Type 0
IsKept host ip expiry r = get r.cache host ≡ some (record { ip = ip; expires_at = expiry })

cached-kept :
    (host : String) (ip : Ip) (expiry now : ℕ) (r : Resolver)
    → IsKept host ip expiry r
    → now < expiry
    → cached now host r ≡ some ip
cached-kept host ip expiry now r k h =
    ap (fresh_ip now) k ∙ ap (λ b. if b then some ip else none) (lt→ltb _ _ h)

remember-IsKept :
    (o : Option Ip) (host : String) (stored : ℕ) (r : Resolver) {ip : Ip}
    → (remember o host stored r).0 ≡ some ip
    → IsKept host ip (add_duration stored r.cache_ttl) (remember o host stored r).1
remember-IsKept none host stored r e = absurd (ground arith)
remember-IsKept (some ip) host stored r e =
    get-put_self r.cache host _
    ∙ ap (Option.map (λ i. record { ip = i; expires_at = add_duration stored r.cache_ttl })) e

remember-keeps :
    (o : Option Ip) (other host : String) (stored : ℕ) (r : Resolver) {ip : Ip} {expiry : ℕ}
    → other ≢ host
    → IsKept host ip expiry r
    → IsKept host ip expiry (remember o other stored r).1
remember-keeps none other host stored r ne k = k
remember-keeps (some ip) other host stored r ne k =
    get-put r.cache other _ host ∙ rw (ne-str_eq other host ne) k

-- The answer of a look-up, if it is not an error, is one of three.
lookup_cases :
    (ask : String → String → Option (List Ip)) (system : String → Option (List Ip))
    (first second stored : ℕ) (host : String) (r : Resolver)
    → ((ip : Ip) × (cached first host r ≡ some ip)
        × (lookup ask system first second stored host r ≡ (some ip, r)))
      ⊎ (((ip : Ip) × (cached second host r ≡ some ip)
            × (lookup ask system first second stored host r ≡ (some ip, r)))
          ⊎ (lookup ask system first second stored host r
              ≡ remember (resolve ask system host r) host stored r))
unfolding lookup
lookup_cases ask system first second stored host r = elim (Option-cases (cached first host r)) [
  | inr (ip, e) ↦ inl (ip, e, rw e refl)
  | inl miss ↦ elim (Option-cases (cached second host r)) [
    | inr (ip, e) ↦ inr (inl (ip, e, rw (miss, e) refl))
    | inl miss' ↦ inr (inr (rw (miss, miss') refl))
  ]
]

-- A look-up by others: what the servers and the system answer, the readings of the clock and the
-- host.
pub record Call : Type 0 where
  pub ask : String → String → Option (List Ip)
  pub system : String → Option (List Ip)
  pub first : ℕ
  pub second : ℕ
  pub stored : ℕ
  pub host : String

abbrev pub lookup_all : List Call → Resolver → Resolver
lookup_all [] r = r
lookup_all (c ∷ cs) r = lookup_all cs (lookup c.ask c.system c.first c.second c.stored c.host r).1

lookup-hit :
    (c : Call) (ip : Ip) (expiry : ℕ) (r : Resolver)
    → IsKept c.host ip expiry r
    → c.first < expiry
    → lookup c.ask c.system c.first c.second c.stored c.host r ≡ (some ip, r)
unfolding lookup
lookup-hit c ip expiry r k h = rw (cached-kept c.host ip expiry c.first r k h) refl

lookup-keeps :
    (c : Call) (host : String) (ip : Ip) (expiry : ℕ) (r : Resolver)
    → IsKept host ip expiry r
    → c.first < expiry
    → IsKept host ip expiry (lookup c.ask c.system c.first c.second c.stored c.host r).1
lookup-keeps c host ip expiry r k h = elim (Bool-cases (str_eq c.host host)) [
  | inl t ↦
      let own = subst (λ n. IsKept n ip expiry r) (sym (name_eq c.host host t)) k in
      subst (λ p. IsKept host ip expiry p.1) (sym (lookup-hit c ip expiry r own h)) k
  | inr t ↦ elim (lookup_cases c.ask c.system c.first c.second c.stored c.host r) [
    | inl (i, e, same) ↦ subst (λ p. IsKept host ip expiry p.1) (sym same) k
    | inr (inl (i, e, same)) ↦ subst (λ p. IsKept host ip expiry p.1) (sym same) k
    | inr (inr same) ↦
        subst (λ p. IsKept host ip expiry p.1) (sym same)
          (remember-keeps (resolve c.ask c.system c.host r) c.host host c.stored r
            (name_ne c.host host t) k)
  ]
]

lookup_all-keeps :
    (cs : List Call) (host : String) (ip : Ip) (expiry : ℕ) (r : Resolver)
    → IsKept host ip expiry r
    → All (λ c. c.first < expiry) cs
    → IsKept host ip expiry (lookup_all cs r)
lookup_all-keeps [] host ip expiry r k h = k
lookup_all-keeps (c ∷ cs) host ip expiry r k h =
    lookup_all-keeps cs host ip expiry _ (lookup-keeps c host ip expiry r k h.0) h.1

-- What a look-up found outside the cache is good for the time to live: after any further look-ups,
-- of this host and of others, a look-up of the host returns the same address, whatever the servers
-- and the system would answer by then, and changes nothing, as long as it and the look-ups between
-- read the clock, at their first look into the cache, before the entry expires.
pub lookup_repeated :
    (ask : String → String → Option (List Ip)) (system : String → Option (List Ip))
    (first second stored : ℕ) (host : String) (r : Resolver) (others : List Call)
    (ask' : String → String → Option (List Ip)) (system' : String → Option (List Ip))
    (again again' stored' : ℕ) {ip : Ip}
    → cached first host r ≡ none
    → cached second host r ≡ none
    → (lookup ask system first second stored host r).0 ≡ some ip
    → All (λ c. c.first < add_duration stored r.cache_ttl) others
    → again < add_duration stored r.cache_ttl
    → let after = lookup_all others (lookup ask system first second stored host r).1 in
      lookup ask' system' again again' stored' host after ≡ (some ip, after)
unfolding lookup
lookup_repeated ask system first second stored host r others ask' system' again again' stored' {ip}
      miss miss' found between soon =
    let expiry = add_duration stored r.cache_ttl in
    let out = remember (resolve ask system host r) host stored r in
    let same : lookup ask system first second stored host r ≡ out = rw (miss, miss') refl in
    let kept : IsKept host ip expiry (lookup ask system first second stored host r).1 =
      subst (λ p. IsKept host ip expiry p.1) (sym same)
        (remember-IsKept (resolve ask system host r) host stored r
          (ap (λ p. p.0) (sym same) ∙ found)) in
    lookup-hit
      (record {
        ask = ask';
        system = system';
        first = again;
        second = again';
        stored = stored';
        host = host;
      })
      ip expiry _ (lookup_all-keeps others host ip expiry _ kept between) soon

first_some-none :
    {A : Type 0} (o p : Option A) → (first_some o p ≡ none) ↔ ((o ≡ none) × (p ≡ none))
first_some-none none p = (λ h. (refl, h), λ h. h.1)
first_some-none (some a) p = (λ h. absurd (ground arith), λ h. absurd (ground arith))

ask_all-none :
    (ask : String → String → Option (List Ip)) (host : String) (ns : List String)
    → (ask_all ask host ns ≡ none) ↔ All (λ n. first_ip (ask host n) ≡ none) ns
unfolding ask_all
ask_all-none ask host [] = (λ h. tt, λ h. refl)
ask_all-none ask host (n ∷ ns) =
    let split = first_some-none (first_ip (ask host n)) (ask_all ask host ns) in
    let rest = ask_all-none ask host ns in
    (λ h. ((split.0 h).0, rest.0 (split.0 h).1), λ h. split.1 (h.0, rest.1 h.1))

remember-none :
    (o : Option Ip) (host : String) (stored : ℕ) (r : Resolver)
    → ((remember o host stored r).0 ≡ none) ↔ (o ≡ none)
remember-none none host stored r = (λ h. refl, λ h. refl)
remember-none (some ip) host stored r = (λ h. h, λ h. h)

-- A look-up that the cache cannot answer ends in an error exactly if no name server gave an address
-- and the system gave none, and then it leaves the cache as it was.
lookup_error_iff :
    (ask : String → String → Option (List Ip)) (system : String → Option (List Ip))
    (first second stored : ℕ) (host : String) (r : Resolver)
    → cached first host r ≡ none
    → cached second host r ≡ none
    → (lookup ask system first second stored host r ≡ (none, r))
      ↔ (All (λ n. first_ip (ask host n) ≡ none) r.nameservers × (first_ip (system host) ≡ none))
unfolding lookup
lookup_error_iff ask system first second stored host r miss miss' =
    let same : lookup ask system first second stored host r
        ≡ remember (resolve ask system host r) host stored r =
      rw (miss, miss') refl in
    let split = first_some-none (ask_all ask host r.nameservers) (first_ip (system host)) in
    let servers = ask_all-none ask host r.nameservers in
    (
      λ h.
          let failed = split.0 ((remember-none _ host stored r).0 (ap (λ p. p.0) (sym same ∙ h))) in
          (servers.0 failed.0, failed.1),
      λ h. same ∙ ap (λ o. remember o host stored r) (split.1 (servers.1 h.0, h.1)),
    )

-- The same for DNS over HTTPS: an answer that was fetched is given again until it expires, also
-- when it holds no record.
doh_lookup_repeated :
    (fetch fetch' : String → String → Option DohResponse) (now stored again stored' : ℕ)
    (domain : String) (d : DohClient) {response : DohResponse}
    → fresh_answers now (get d.cache domain) ≡ none
    → fetch d.endpoint domain ≡ some response
    → response.status ≡ 0
    → again < add_duration stored d.cache_ttl
    → let after = (doh_lookup fetch now stored domain d).1 in
      doh_lookup fetch' again stored' domain after ≡ (some response.answer, after)
unfolding doh_lookup
doh_lookup_repeated fetch fetch' now stored again stored' domain d {response} miss got zero_status
      soon =
    let entry : DohCacheEntry = record {
      answers = response.answer;
      expiry = add_duration stored d.cache_ttl;
    } in
    let after : DohClient = record d { cache = put d.cache domain entry } in
    let hit : fresh_answers again (get (put d.cache domain entry) domain) ≡ some response.answer =
      ap (fresh_answers again) (get-put_self d.cache domain entry)
      ∙ ap (λ b. if b then some response.answer else none) (lt→ltb _ _ soon) in
    let out : doh_lookup fetch now stored domain d ≡ (some response.answer, after) =
      ap (λ o. doh_answer_or o d (accept (fetch d.endpoint domain) domain stored d)) miss
      ∙ ap (λ o. accept o domain stored d) got
      ∙ ap (λ n. if n == 0 then (some response.answer, after) else (none, d)) zero_status in
    ap (λ p. doh_lookup fetch' again stored' domain p.1) out
    ∙ ap (λ o. doh_answer_or o after (accept (fetch' d.endpoint domain) domain stored' after)) hit
    ∙ ap (λ p. (some response.answer, p.1)) (sym out)
