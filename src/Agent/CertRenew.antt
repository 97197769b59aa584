-- ===== src/Agent/CertRenew.antt =====
-- internal/agent/cert_renew.go: the agent renews its certificate in time. The key and the request come
-- from Go's crypto, the answer from the gateway's Renew, and the disk may refuse a write: all are met
-- in a record of one renewal. The ticker loop is a sequence of checks.
use ai_edge.Prelude.{◌*◌, String, Bool, Option, none, some, ◌==◌, eqb, if◌then◌else◌}
use ai_edge.Prelude.Int.{ℤ, pos, negsuc, ltb_ℤ}

-- 12 hours and 30 days, in nanoseconds.
abbrev pub default_check_interval : ℤ
default_check_interval = pos (12 * 3600 * 1000000000)

abbrev pub default_renew_threshold : ℤ
default_renew_threshold = pos (30 * 24 * 3600 * 1000000000)

-- The files of the agent, and the certificate that its process uses, none before there is one.
pub record Credentials : Type 0 where
  pub key_file : String
  pub cert_file : String
  pub ca_file : String
  pub in_use : Option String

pub record RenewResponse : Type 0 where
  pub certificate_pem : String
  pub ca_pem : String

-- `key_pem` is none where the key or the request cannot be made, `response` where the call fails;
-- `pair_fits` is that tls.X509KeyPair accepts the certificate with the key.
pub record Renewal : Type 0 where
  pub key_pem : Option String
  pub response : Option RenewResponse
  pub key_written : Bool
  pub cert_written : Bool
  pub ca_written : Bool
  pub pair_fits : Bool

-- The text of the error, without the text of its cause, or none.
abbrev pub Renewed : Type 0
Renewed = Option String × Credentials

abbrev pub use_pair : Renewal → RenewResponse → Credentials → Renewed
use_pair r resp c =
    if r.pair_fits
    then (none, record c { in_use = some resp.certificate_pem })
    else (some "parse renewed cert", c)

abbrev pub write_ca : Renewal → RenewResponse → Credentials → Renewed
write_ca r resp c =
    if resp.ca_pem == ""
    then use_pair r resp c
    else if r.ca_written
    then use_pair r resp (record c { ca_file = resp.ca_pem })
    else (some "write CA", c)

abbrev pub write_cert : Renewal → RenewResponse → Credentials → Renewed
write_cert r resp c =
    if r.cert_written
    then write_ca r resp (record c { cert_file = resp.certificate_pem })
    else (some "write cert", c)

-- The key is written before the certificate: where only the first is, the two files do not fit.
abbrev pub write_key : Renewal → (key : String) → RenewResponse → Credentials → Renewed
write_key r key resp c =
    if r.key_written then write_cert r resp (record c { key_file = key }) else (some "write key", c)

abbrev pub answered : Renewal → (key : String) → Option RenewResponse → Credentials → Renewed
answered r key none c = (some "renew RPC", c)
answered r key (some resp) c = write_key r key resp c

abbrev pub renew_with : Renewal → Option String → Credentials → Renewed
renew_with r none c = (some "generate key", c)
renew_with r (some key) c = answered r key r.response c

unfoldable pub renew_certificate : Renewal → Credentials → Renewed
renew_certificate r c = renew_with r r.key_pem c

-- `remaining` is time.Until(leaf.NotAfter), none without a leaf certificate. An error is logged.
unfoldable pub check_and_renew :
    (threshold : ℤ) → (remaining : Option ℤ) → Renewal → Credentials → Credentials
check_and_renew threshold none r c = c
check_and_renew threshold (some remaining) r c =
    let after = (renew_certificate r c).1 in if ltb_ℤ threshold remaining then c else after

abbrev pub zero_or : ℤ → ℤ → ℤ
zero_or default (pos n) = if eqb n 0 then default else pos n
zero_or default (negsuc n) = negsuc n

pub record CertRenewer : Type 0 where
  pub check_interval : ℤ
  pub renew_threshold : ℤ

unfoldable pub new_cert_renewer : CertRenewer → CertRenewer
new_cert_renewer cfg = record {
  check_interval = zero_or default_check_interval cfg.check_interval;
  renew_threshold = zero_or default_renew_threshold cfg.renew_threshold;
}
