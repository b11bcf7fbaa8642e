-- ===== src/Auth/Session/Tests.antt =====
-- The theorem at work on one token.
use modo.Base.{ℕ, zero, suc, ◌≡◌, ◌↔◌, [], ◌∷◌}
use modo.Base.Text.{to_lowercase}
use modo.Encoding.Bytes.{Bytes}
use modo.Auth.Session.Token.{SessionToken, token, from_hex, as_hex}
use modo.Auth.Session.TokenText.{IsToken, from_hex_iff}

repeated : ℕ → Bytes
repeated zero = []
repeated (suc n) = 0xc5 ∷ repeated n

abbrev sample : SessionToken
sample = repeated 32

from_hex_iff_example :
    (from_hex (as_hex sample) ≡ token sample)
    ↔ (IsToken sample × (as_hex sample ≡ to_lowercase (as_hex sample)))
from_hex_iff_example = from_hex_iff (as_hex sample) sample
