-- ===== src/Crypto.antt =====
-- crypto/lease_token.rs. The HMAC and its base64 text are third-party code: a function of the
-- lease reference and the secret.
use tpn_worker.Base.{Bool, Text, eq_text}

abbrev pub Mac : Type 0
Mac = Text → Text → Text

unfoldable pub sign_lease_token : Mac → Text → Text → Text
sign_lease_token mac lease_ref secret = mac lease_ref secret

-- The comparison in constant time answers as the one of the bytes does.
unfoldable pub verify_lease_token : Mac → Text → Text → Text → Bool
verify_lease_token mac lease_ref token secret =
    eq_text (sign_lease_token mac lease_ref secret) token
