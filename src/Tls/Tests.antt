-- ===== src/Tls/Tests.antt =====
-- The theorem on internal/tls at a small input, and runs of the code.
use nyxora.Common.{ℕ, ◌≤◌, ◌≡◌, ◌↔◌, refl, String, Option, none, some, [], ◌∷◌}
use nyxora.Tls.{new_cert_pinner, pin_from_conn, verify_peer_certificate, not_pinned, verify}
use nyxora.Common.Assoc.{get}
use nyxora.Tls.Pinned.{verify-pin_from_conn}

-- A certificate is its fingerprint, and every one ends at 100.
abbrev print : String → String
print c = c

abbrev until : String → ℕ
until c = 100

abbrev parse : String → Option String
parse c = some c

verify-pin_from_conn_example :
    let after = (pin_from_conn print until "fra" (some ("aa" ∷ [])) new_cert_pinner).0 in
    (verify_peer_certificate print until parse 50 "fra" ("aa" ∷ []) after ≡ none)
    ↔ ((seen : String) × (parse "aa" ≡ some seen) × (50 ≤ until "aa") × (print seen ≡ print "aa"))
verify-pin_from_conn_example =
    verify-pin_from_conn print until parse 50 "fra" "aa" [] "aa" [] new_cert_pinner

unpinned_run :
    verify_peer_certificate print until parse 50 "fra" ("aa" ∷ []) new_cert_pinner ≡ some not_pinned
unfolding verify_peer_certificate new_cert_pinner verify get
unpinned_run = refl
