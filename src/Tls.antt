-- ===== src/Tls.antt =====
-- internal/tls/pinning.go. `C` is the type of the certificates of Go's package x509; `fingerprint`
-- stands for `certFingerprint`, which hashes a certificate by crypto/sha256, and `not_after` for
-- its field NotAfter. Times are numbers.
pub mod Pinned
pub mod Tests
use nyxora.Common.{
  ℕ, Bool, true, false, not, String, str_eq, Option, none, some, List, [], ◌∷◌, if◌then◌else◌, ltb,
}
use nyxora.Common.Assoc.{get, put, values}

pub record PinnedCert : Type 0 where
  pub name : String
  pub fingerprint : String
  pub expiry : ℕ

pub record CertPinner : Type 0 where
  pub pinned : List (String × PinnedCert)
  pub allowed_hashes : List String
  pub verify_hostname : Bool

-- Why a certificate is refused; an empty handshake and a certificate that cannot be parsed are
-- errors of `TLSConfig`.
pub data PinError : Type 0 where
  not_pinned expired mismatch no_certificates unparsable not_tls : PinError

unfoldable pub new_cert_pinner : CertPinner
new_cert_pinner = record { pinned = []; allowed_hashes = []; verify_hostname = true }

unfoldable pub pin : String → String → ℕ → CertPinner → CertPinner
pin name fingerprint expiry p = record p {
  pinned = put p.pinned name (record { name = name; fingerprint = fingerprint; expiry = expiry });
}

unfoldable pub list : CertPinner → List PinnedCert
list p = values p.pinned

module _ {C : Type 0} (fingerprint : C → String) (not_after : C → ℕ) where
  -- `none` is a connection without TLS; the list is the certificates of the peer.
  abbrev pub pin_first : String → List C → CertPinner → CertPinner × Option PinError
  pin_first name [] p = (p, some no_certificates)
  pin_first name (cert ∷ _) p = (pin name (fingerprint cert) (not_after cert) p, none)

  unfoldable pub pin_from_conn :
      String → Option (List C) → CertPinner → CertPinner × Option PinError
  pin_from_conn name none p = (p, some not_tls)
  pin_from_conn name (some certs) p = pin_first name certs p

  abbrev pub check_pin : ℕ → C → Option PinnedCert → Option PinError
  check_pin now cert none = some not_pinned
  check_pin now cert (some c) =
      if ltb c.expiry now
      then some expired
      else if not (str_eq (fingerprint cert) c.fingerprint)
      then some mismatch
      else none

  -- `none` is no error.
  unfoldable pub verify : ℕ → String → C → CertPinner → Option PinError
  verify now name cert p = check_pin now cert (get p.pinned name)

  abbrev pub verify_parsed : ℕ → String → Option C → CertPinner → Option PinError
  verify_parsed now name none p = some unparsable
  verify_parsed now name (some cert) p = verify now name cert p

  -- `VerifyPeerCertificate` of the configuration that `TLSConfig` makes for a server; `parse`
  -- stands for `x509.ParseCertificate` on the type `R` of raw certificates.
  unfoldable pub verify_peer_certificate :
      {R : Type 0} → (R → Option C) → ℕ → String → List R → CertPinner → Option PinError
  unfolding verify
  verify_peer_certificate parse now server [] p = some no_certificates
  verify_peer_certificate parse now server (raw ∷ _) p = verify_parsed now server (parse raw) p
