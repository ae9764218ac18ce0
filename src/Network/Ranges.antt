-- ===== src/Network/Ranges.antt =====
-- Which addresses `IsPrivateIP` takes for private ones.
use gxydb_api.Base.{
  ℕ, ◌≡◌, ◌<◌, Bool, ◌||◌, ◌&&◌, String, inr, Option, some, arith, ◌==◌, nat_eq, leb,
}
use gxydb_api.Network.{Ip, v4, octets, contains, is_private_ip}

-- The ranges of RFC 1918 and the loopback, by their bytes.
abbrev pub is_reserved : ℕ → ℕ → Bool
is_reserved a b =
    a == 10 || (a == 172 && (leb 16 b && leb b 31)) || (a == 192 && b == 168) || a == 127

module _ (a b c d : ℕ) (fits : (a < 256) × (b < 256) × (c < 256) × (d < 256)) where
  contains-first : (k : ℕ) → k < 256 → contains (octets k 0 0 0) 8 (v4 (octets a b c d)) ≡ (a == k)
  contains-first k small = ground arith

  contains-twelve :
      contains (octets 172 16 0 0) 12 (v4 (octets a b c d)) ≡ (a == 172 && (leb 16 b && leb b 31))
  contains-twelve = ground arith

  contains-sixteen : contains (octets 192 168 0 0) 16 (v4 (octets a b c d)) ≡ (a == 192 && b == 168)
  contains-sixteen = ground arith

  -- A text that is read as an address of four bytes is taken for private exactly if its first two
  -- bytes are those of the ranges 10.*, 172.16.* to 172.31.*, 192.168.* and 127.*.
  pub is_private_ip-reserved :
      (parse : String → Option Ip) (address : String)
      → parse address ≡ some (v4 (octets a b c d))
      → is_private_ip parse address ≡ inr (is_reserved a b)
  unfolding is_private_ip
  is_private_ip-reserved parse address read = ground (
    arith,
    contains-first 10 (omega arith),
    contains-first 127 (omega arith),
    contains-twelve,
    contains-sixteen,
  )
