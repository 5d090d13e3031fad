-- ===== src/Codec/Hex/Tests.antt =====
-- The hexadecimal codec on small inputs.
use mwc.Prelude.{◌≡◌, refl, [], ◌∷◌, Bytes, codes, ok, err, panic, arith}
use mwc.ErrorKind.{number_parsing_error}
use mwc.Codec.Hex.{to_hex, from_hex, split_n, split_rounds, parse_bytes}
use mwc.Codec.Hex.RoundTrip.{from_hex-to_hex}

abbrev bytes : Bytes
bytes = 0 ∷ 171 ∷ 255 ∷ []

bytes_written : to_hex bytes ≡ codes "00abff"
unfolding to_hex
bytes_written = refl

prefixed_read : from_hex (codes "0x00ABff") ≡ ok bytes
unfolding from_hex split_n split_rounds parse_bytes
prefixed_read = refl

odd_refused : from_hex (codes "abc") ≡ err number_parsing_error
unfolding from_hex split_n split_rounds parse_bytes
odd_refused = refl

-- A text that is empty behind its prefix, and one that is odd behind its spaces.
prefix_only : from_hex (codes "0x") ≡ panic
unfolding from_hex split_n split_rounds
prefix_only = refl

odd_trimmed : from_hex (codes "abc ") ≡ panic
unfolding from_hex split_n split_rounds
odd_trimmed = refl

from_hex-to_hex_example : from_hex (to_hex bytes) ≡ ok bytes
from_hex-to_hex_example = from_hex-to_hex bytes (cc) (omega arith) (omega arith)
