-- ===== src/Network/Tests.antt =====
-- Addresses on concrete data.
use Prim.Native.Char.{Char, code}
use gxydb_api.Base.{
  List, [], ◌∷◌, nat_eq, ap, ◌≡◌, refl, true, inr, String, Option, none, some, ◌==◌, string_eq,
  if◌then◌else◌,
}
use gxydb_api.Base.Text.{split, append, chars}
use gxydb_api.Network.{Origin, Resolver, trim, get_real_ip, v4, octets, is_allowed_ip}
use gxydb_api.Network.Forwarded.{chars-append, get_real_ip-last, get_real_ip-spaced}

-- A resolver that knows two addresses.
abbrev two_addresses : Resolver
two_addresses = record {
  split_host = λ a. some "10.0.0.9";
  parse_ip = λ a. if a == "1.2.3.4" then some a else none;
}

-- A resolver that takes every text for an address, but those that begin with a space.
abbrev address_of : List Char → String → Option String
address_of [] s = none
address_of (c ∷ _) s = if code c == b' ' then none else some s

abbrev strict_resolver : Resolver
strict_resolver = record {
  split_host = λ a. some "10.0.0.9";
  parse_ip = λ a. address_of (chars a) a;
}

strict : (s : String) → strict_resolver.parse_ip (append " " s) ≡ none
strict s = ap (λ cs. address_of cs (append " " s)) (chars-append " " s)

abbrev origin : String → Origin
origin xff = record { remote_addr = "10.0.0.9:80"; forwarded_for = xff; real_ip = "5.6.7.8" }

last_taken : get_real_ip two_addresses (origin "7.7.7.7,1.2.3.4") ≡ "1.2.3.4"
last_taken =
    get_real_ip-last two_addresses (origin "7.7.7.7,1.2.3.4") "7.7.7.7" "1.2.3.4" refl refl
      (λ e. cc)

-- The same addresses, as a proxy writes them.
last_spaced : get_real_ip two_addresses (origin "7.7.7.7, 1.2.3.4") ≡ "10.0.0.9"
unfolding get_real_ip trim split
last_spaced = refl

get_real_ip-spaced_example : get_real_ip strict_resolver (origin "7.7.7.7, 1.2.3.4") ≡ "10.0.0.9"
get_real_ip-spaced_example =
    get_real_ip-spaced strict_resolver (origin "7.7.7.7, 1.2.3.4") "7.7.7.7" "1.2.3.4" strict refl
      refl

allowed : is_allowed_ip (λ t. some (v4 (octets 172 16 102 9))) " 172.16.102.9" ≡ inr true
unfolding is_allowed_ip
allowed = refl
