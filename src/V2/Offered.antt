-- ===== src/V2/Offered.antt =====
-- Which gateways the configuration offers to clients, and with which token.
use gxydb_api.Base.{
  ◌≡◌, refl, ap, ◌∙◌, Bool, ◌&&◌, String, List, [], ◌∷◌, Option, none, some, arith, ◌==◌, ==_iff,
  string_eq, nat_eq, if◌then◌else◌, select, last?, Bool-cases, Option-cases, inl, inr,
}
use gxydb_api.Base.Maps.{Map, get, put, get-put}
use gxydb_api.Models.{Gateway}
use gxydb_api.Cache.{GatewayTokenCache, AppCache}
use gxydb_api.Cache.Gateways
use gxydb_api.Cache.Laws.{or_else, last-select}
use gxydb_api.V2.{V2Gateway, is_offered, add_gateway, offered_gateways, v2_get_config}

-- What the configuration offers under a kind and a name.
abbrev pub find_offer : String → String → Map String (Map String V2Gateway) → Option V2Gateway
find_offer kind name m = elim (get kind m) [ none ↦ none | some gs ↦ get name gs ]

abbrev pub offer_of : GatewayTokenCache → Gateway → V2Gateway
offer_of tokens g = record {
  name = g.name;
  url = g.url;
  kind = g.kind;
  token = elim (get g.id tokens.by_id) [ none ↦ "" | some t ↦ t ];
}

abbrev pub matches : String → String → Gateway → Bool
matches kind name g = is_offered g && g.kind == kind && g.name == name

abbrev of_kind : String → Map String (Map String V2Gateway) → Map String V2Gateway
of_kind kind m = elim (get kind m) [ none ↦ [] | some gs ↦ gs ]

put_offer-find :
    (k n kind name : String) (e : V2Gateway) (m : Map String (Map String V2Gateway))
    → find_offer kind name (put k (put n e (of_kind k m)) m)
      ≡ (if k == kind && n == name then some e else find_offer kind name m)
put_offer-find k n kind name e m = elim (Bool-cases (k == kind)) [
  | inr other ↦ ground (arith, get-put k kind (put n e (of_kind k m)) m, other)
  | inl same ↦
      let at = ap (λ i. get i m) ((==_iff k kind).0 same) in
      elim (Option-cases (get k m)) [
        | inl fresh ↦
            ground (
              arith,
              get-put k kind (put n e (of_kind k m)) m,
              same,
              at,
              fresh,
              get-put n name e [],
            )
        | inr (gs, there) ↦
            ground (
              arith,
              get-put k kind (put n e (of_kind k m)) m,
              same,
              at,
              there,
              get-put n name e gs,
            )
      ]
]

-- The offer for the last of some gateways that are offered under a kind and a name.
abbrev pub last_offer : GatewayTokenCache → String → String → List Gateway → Option V2Gateway
last_offer tokens kind name gs = elim (last? (select (matches kind name) gs)) [
  | none ↦ none
  | some g ↦ some (offer_of tokens g)
]

last_offer-cons :
    (tokens : GatewayTokenCache) (kind name : String) (g : Gateway) (gs : List Gateway)
    → last_offer tokens kind name (g ∷ gs)
      ≡ or_else
          (last_offer tokens kind name gs)
          (if matches kind name g then some (offer_of tokens g) else none)
last_offer-cons tokens kind name g gs = elim (Bool-cases (matches kind name g)) [
  | inl fits ↦ ground (arith, fits, last-select (matches kind name) g gs)
  | inr other ↦ ground (arith, other, last-select (matches kind name) g gs)
]

offered_gateways-find :
    (tokens : GatewayTokenCache) (kind name : String) (gs : List Gateway)
    (m : Map String (Map String V2Gateway))
    → find_offer kind name (offered_gateways tokens gs m)
      ≡ or_else (last_offer tokens kind name gs) (find_offer kind name m)
unfolding offered_gateways
offered_gateways-find tokens kind name [] m = refl
offered_gateways-find tokens kind name (g ∷ gs) m =
    let ih =
      offered_gateways-find tokens kind name gs
        (if is_offered g then add_gateway tokens g m else m) in
    ih ∙ elim (Bool-cases (is_offered g)) [
      | inr hidden ↦ ground (arith, last_offer-cons tokens kind name g gs, hidden)
      | inl shown ↦ ground (
        arith,
        last_offer-cons tokens kind name g gs,
        shown,
        put_offer-find g.kind g.name kind name (offer_of tokens g) m,
      )
    ]

or_else-none : {A : Type 0} (o : Option A) → or_else o none ≡ o
or_else-none none = refl
or_else-none (some a) = refl

-- The configuration for clients has, under a kind and a name, the last gateway of the cache that is
-- neither disabled nor removed and has them, with the token that the cache of tokens has for it, or
-- an empty one; and nothing if there is no such gateway.
pub v2_get_config-offered :
    {C : Type 0} (ice_servers : Map String (List String)) (cache : AppCache C) (kind name : String)
    → find_offer kind name (v2_get_config ice_servers cache).gateways
      ≡ last_offer cache.gateway_tokens kind name (Gateways.all cache.gateways)
unfolding v2_get_config
v2_get_config-offered ice_servers cache kind name =
    offered_gateways-find cache.gateway_tokens kind name (Gateways.all cache.gateways) []
    ∙ or_else-none (last_offer cache.gateway_tokens kind name (Gateways.all cache.gateways))
