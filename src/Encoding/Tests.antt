-- ===== src/Encoding/Tests.antt =====
-- The theorems at work on concrete bytes.
use modo.Base.{◌≡◌, [], ◌∷◌, arith}
use modo.Base.Errors.{ok}
use modo.Encoding.Bytes.{Bytes, IsByte}
use modo.Encoding.Base64url
use modo.Encoding.Base64url.RoundTrip.{base64url_round_trip}
use modo.Encoding.Base32
use modo.Encoding.Base32.RoundTrip.{base32_round_trip}
use modo.Base.Lists.{All}

abbrev sample : Bytes
sample = 0 ∷ 255 ∷ 77 ∷ 128 ∷ []

sample-AreBytes : All IsByte sample
sample-AreBytes = (omega arith, (omega arith, (omega arith, (omega arith, tt))))

base64url_round_trip_example : Base64url.decode (Base64url.encode sample) ≡ ok sample
base64url_round_trip_example = base64url_round_trip sample sample-AreBytes

base32_round_trip_example : Base32.decode (Base32.encode sample) ≡ ok sample
base32_round_trip_example = base32_round_trip sample sample-AreBytes
