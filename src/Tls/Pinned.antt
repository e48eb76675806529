-- ===== src/Tls/Pinned.antt =====
-- What a pinner of internal/tls/pinning.go accepts.
use mathlib.Core.Option.{some-injective}
use nyxora.Common.{
  Option-cases, inl, inr, ℕ, ◌≤◌, ◌≡◌, ◌≢◌, ◌↔◌, refl, ap, ◌∙◌, String, eq_iff, Option, none, some,
  List, [], ◌∷◌, arith,
}
use nyxora.Common.Assoc.{get, get-put, str_eq_self, ne-str_eq}
use nyxora.Tls.{
  PinnedCert, CertPinner, pin, pin_from_conn, check_pin, verify, verify_parsed,
  verify_peer_certificate,
}

module _ {C : Type 0} (fingerprint : C → String) (not_after : C → ℕ) where
  check_pin_iff :
      (now : ℕ) (cert : C) (c : PinnedCert)
      → (check_pin fingerprint not_after now cert (some c) ≡ none)
        ↔ ((now ≤ c.expiry) × (fingerprint cert ≡ c.fingerprint))
  check_pin_iff now cert c = ground (arith, eq_iff (fingerprint cert) c.fingerprint)

  -- After the first certificate of a connection has been pinned for a server, a handshake with that
  -- server is accepted just if its first certificate can be parsed to one with the same fingerprint
  -- and the pinned one has not expired.
  pub verify-pin_from_conn :
      {R : Type 0} (parse : R → Option C) (now : ℕ) (server : String) (cert : C) (certs : List C)
      (raw : R) (raws : List R) (p : CertPinner)
      → let after = (pin_from_conn fingerprint not_after server (some (cert ∷ certs)) p).0 in
        (verify_peer_certificate fingerprint not_after parse now server (raw ∷ raws) after ≡ none)
        ↔ ((seen : C) × (parse raw ≡ some seen)
            × (now ≤ not_after cert)
            × (fingerprint seen ≡ fingerprint cert))
  unfolding verify_peer_certificate pin_from_conn verify pin
  verify-pin_from_conn parse now server cert certs raw raws p =
      let entry : PinnedCert = record {
        name = server;
        fingerprint = fingerprint cert;
        expiry = not_after cert;
      } in
      elim (Option-cases (parse raw)) [
        | inl e ↦ rw e (λ h. absurd (ground arith), λ h. absurd (ground (arith, h.1)))
        | inr (seen, e) ↦
            let iff = check_pin_iff now seen entry in
            rw (e, get-put p.pinned server entry server, str_eq_self server)
              (
                λ h. (seen, refl, (iff.0 h).0, (iff.0 h).1),
                λ h. iff.1 (h.2, ap fingerprint (some-injective _ _ h.1) ∙ h.3),
              )
      ]

  get-pin_from_conn :
      (server other : String) (certs : Option (List C)) (p : CertPinner)
      → server ≢ other
      → get (pin_from_conn fingerprint not_after server certs p).0.pinned other ≡ get p.pinned other
  unfolding pin_from_conn pin
  get-pin_from_conn server other none p h = refl
  get-pin_from_conn server other (some []) p h = refl
  get-pin_from_conn server other (some (cert ∷ certs)) p h =
      get-put p.pinned server
        (record { name = server; fingerprint = fingerprint cert; expiry = not_after cert }) other
      ∙ rw (ne-str_eq server other h) refl

  verify_parsed-same :
      (now : ℕ) (name : String) (cert : Option C) (p q : CertPinner)
      → get p.pinned name ≡ get q.pinned name
      → verify_parsed fingerprint not_after now name cert p
        ≡ verify_parsed fingerprint not_after now name cert q
  unfolding verify
  verify_parsed-same now name none p q h = refl
  verify_parsed-same now name (some cert) p q h = ap (check_pin fingerprint not_after now cert) h

  -- Pinning a certificate for one server changes nothing for another: a handshake with that one is
  -- judged as before.
  verify-pin_other :
      {R : Type 0} (parse : R → Option C) (now : ℕ) (server other : String)
      (certs : Option (List C)) (raws : List R) (p : CertPinner)
      → server ≢ other
      → verify_peer_certificate fingerprint not_after parse now other raws
          (pin_from_conn fingerprint not_after server certs p).0
        ≡ verify_peer_certificate fingerprint not_after parse now other raws p
  unfolding verify_peer_certificate
  verify-pin_other parse now server other certs [] p h = refl
  verify-pin_other parse now server other certs (raw ∷ raws) p h =
      verify_parsed-same now other (parse raw)
        (pin_from_conn fingerprint not_after server certs p).0 p
        (get-pin_from_conn server other certs p h)
