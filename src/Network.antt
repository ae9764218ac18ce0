-- ===== src/Network.antt =====
-- The address of a client: pkg/httputil/ipaddr.go, and `isAllowedIP` of middleware/auth.go, which
-- nothing calls. `net.ParseIP` and `net.SplitHostPort` are parameters.
pub mod Forwarded
pub mod Ranges
pub mod Tests
use Prim.Native.Char.{Char, code}
use gxydb_api.Base.{
  ℕ, ◌+◌, ◌*◌, ◌-◌, ◌/◌, ◌^◌, Bool, false, true, ◌||◌, String, List, [], ◌∷◌, ◌⊎◌, inl, inr, Option,
  none, some, ◌==◌, nat_eq, string_eq, if◌then◌else◌, reverse, last?,
}
use gxydb_api.Base.Text.{chars, of_chars, split, trim_space}

abbrev pub drop_sep : ℕ → List Char → List Char
drop_sep sep [] = []
drop_sep sep (c ∷ s) = let rest = drop_sep sep s in if code c == sep then rest else c ∷ s

-- `strings.Trim` with a set of one character.
unfoldable pub trim : ℕ → String → String
trim sep s = of_chars (reverse (drop_sep sep (reverse (drop_sep sep (chars s)))))

-- `r.RemoteAddr` and the two headers, which are empty if they are not there.
pub record Origin : Type 0 where
  pub remote_addr : String
  pub forwarded_for : String
  pub real_ip : String

-- `net.SplitHostPort`, the host only, and `net.ParseIP` with `String` of what it gives.
pub record Resolver : Type 0 where
  pub split_host : String → Option String
  pub parse_ip : String → Option String

abbrev pub or_else : Option String → String → String
or_else none s = s
or_else (some t) s = t

-- The address of the connection.
abbrev pub host_of : Resolver → Origin → String
host_of net r = or_else (net.split_host r.remote_addr) ""

-- `addrs[len(addrs)-1]`
abbrev pub last_address : String → String
last_address xff = or_else (last? (split b',' xff)) ""

-- `GetRealIP`
unfoldable pub get_real_ip : Resolver → Origin → String
get_real_ip net r =
    let xff = trim b',' r.forwarded_for in
    if xff == ""
    then if r.real_ip == "" then host_of net r else or_else (net.parse_ip r.real_ip) (host_of net r)
    else or_else (net.parse_ip (last_address xff)) (host_of net r)

-- What `net.ParseIP` gives: an address of four bytes, as a number, or one that is not of this kind.
pub data Ip : Type 0 where
  v4 : ℕ → Ip
  v6 : Ip

abbrev pub octets : ℕ → ℕ → ℕ → ℕ → ℕ
octets a b c d = ((a * 256 + b) * 256 + c) * 256 + d

-- `Contains` of the network `base/bits`: the first `bits` bits agree.
abbrev pub contains : ℕ → ℕ → Ip → Bool
contains base bits v6 = false
contains base bits (v4 n) = n / 2 ^ (32 - bits) == base / 2 ^ (32 - bits)

-- `IsPrivateIP`; the error is the text that is no address.
unfoldable pub is_private_ip : (String → Option Ip) → String → String ⊎ Bool
is_private_ip parse address = elim (parse address) [
  | none ↦ inl address
  | some ip ↦ inr (
      contains (octets 10 0 0 0) 8 ip
      || contains (octets 172 16 0 0) 12 ip
      || contains (octets 192 168 0 0) 16 ip
      || contains (octets 127 0 0 0) 8 ip)
]

-- `isAllowedIP`
unfoldable pub is_allowed_ip : (String → Option Ip) → String → String ⊎ Bool
is_allowed_ip parse address = elim (parse (trim_space address)) [
  | none ↦ inl address
  | some ip ↦ inr (contains (octets 10 66 0 0) 16 ip || contains (octets 172 16 102 0) 24 ip)
]
