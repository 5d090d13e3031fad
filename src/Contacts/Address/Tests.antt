-- ===== src/Contacts/Address/Tests.antt =====
-- Addresses with a bad port.
use mwc.Prelude.{◌≡◌, refl, inr, ◌++◌, Bytes, codes, replicate, panic, arith}
use mwc.Samples.{sample_crypto}
use mwc.Contacts.Address.{grinbox, from_str, scheme, is_base58, is_domain}
use mwc.Contacts.Address.Chars.{Of}
use mwc.Contacts.Address.Mq.{from_str_bad_port}

abbrev key : Bytes
key = replicate 52 b'1'

key-Of : Of is_base58 key
unfolding is_base58
key-Of = ground arith

domain-Of : Of is_domain (codes "a")
unfolding is_domain
domain-Of = ground arith

from_str_bad_port_example :
    (from_str sample_crypto grinbox (key ++ codes "@a:65536") ≡ panic)
    × (from_str sample_crypto grinbox (scheme grinbox ++ (key ++ codes "@a:65536")) ≡ panic)
from_str_bad_port_example =
    from_str_bad_port sample_crypto grinbox key (codes "a") (codes "65536") refl key-Of (cc)
      domain-Of (ground arith) (inr (omega arith))
