-- ===== src/Tokens/Tests.antt =====
-- A synchronization on concrete data: one token of the row is expired and one is kept, the gateway
-- has the expired one and one that nobody knows.
use gxydb_api.Base.{
  subst, any, ◌*◌, ◌≡◌, refl, ap, true, false, not, ◌&&◌, String, List, [], ◌∷◌, inr, some, ◌==◌,
  ==_iff, string_eq, arith, select, elem,
}
use gxydb_api.Errors.{ok}
use gxydb_api.Tokens.Types.{Sync, Stores}
use gxydb_api.Tokens.Plan.{plan_token, plan_tokens, remove_unknown, token_set}
use gxydb_api.Tokens.Plan.Laws.{Plain}
use gxydb_api.Tokens.{
  day, list_tokens, create_token, remove_token, add_all, remove_all, read_props, read_tokens, save,
  generate, finish, carry_out, reconcile, sync_tokens, sync_gateway_tokens,
}
use gxydb_api.Tokens.Synced.{Synced, new_token, Separate, sync_gateway_tokens-Synced}
use gxydb_api.Tokens.Rounds.{Manager, sync_all, panics, sync_all-map}
use gxydb_api.Tokens.Active.{active_token, Reads, ReadsBack, active_token-sync_gateway_tokens}
use gxydb_api.Tokens.Registry.{
  Maker, Registry, find_api, set_api, api_for, after_all, api_for-lasting,
}
use gxydb_api.Models.{Gateway}
use gxydb_api.Tokens.Sample.{old, kept, new, service1, max_age1}
use gxydb_api.Examples.{gateway1}

abbrev sync1 : Sync (List String)
sync1 = record {
  gateway = record gateway1 { properties = some "row" };
  stored = some "row";
  store = "old" ∷ "foreign" ∷ [];
  calls = 0;
}

abbrev row1 : List Plain
row1 = (old, "old") ∷ (kept, "kept") ∷ []

abbrev after_sync : Sync (List String)
after_sync = (sync_gateway_tokens service1 max_age1 sync1).1

elem-select :
    (t u : String) (s : List String)
    → elem u (select (λ v. not (v == t)) s) ≡ (not (u == t) && elem u s)
elem-select t u [] = ground arith
elem-select t u (v ∷ s) = ground (arith, elem-select t u s, ==_iff u v, ==_iff v t, ==_iff u t)

stores1 : Stores service1
stores1 = record { added = λ t plugins s u. refl; removed = λ t s u. elem-select t u s }

props1 : read_props service1 (some "row") ≡ inr (("tokens", "row") ∷ [])
unfolding read_props
props1 = refl

tokens1 : read_tokens service1 (("tokens", "row") ∷ []) ≡ inr (old ∷ kept ∷ [])
unfolding read_tokens
tokens1 = refl

separate1 : Separate max_age1 (day * 3) ("old" ∷ "foreign" ∷ []) row1
separate1 u = ground (arith, differ)
  where
    fst-iff : (u == "old") ≡ true → u ≡ "old"
    fst-iff e = ground (arith, ==_iff u "old")

    differ : (u == "old") ≡ true → (u == "kept") ≡ false
    differ e = ap (λ v. v == "kept") (fst-iff e)

sync-ok : sync_gateway_tokens service1 max_age1 sync1 ≡ (ok true, after_sync)
unfolding sync_gateway_tokens read_props read_tokens sync_tokens list_tokens reconcile plan_tokens
    plan_token remove_unknown token_set carry_out generate create_token add_all remove_all
    remove_token finish save
sync-ok = refl

sync_gateway_tokens-Synced_example :
    Synced service1 max_age1
      (day * 3)
      (day * 3)
      "uid"
      (("tokens", "row") ∷ [])
      row1
      true
      sync1
      after_sync
sync_gateway_tokens-Synced_example =
    sync_gateway_tokens-Synced service1 max_age1 (("tokens", "row") ∷ []) row1 true sync1 after_sync
      stores1 (λ n. refl) props1 tokens1 (refl, (refl, tt)) (λ n. refl) separate1 sync-ok

codes1 : Reads service1 (("tokens", "row") ∷ []) (kept ∷ new ∷ [])
codes1 = record {
  props_back = λ text e. ground (arith, e);
  tokens_back = refl;
  decrypts = λ n plain cipher e. ground (arith, e);
}

back1 : ReadsBack service1 max_age1 (day * 3) "rooms" "uid" (("tokens", "row") ∷ []) row1
unfolding ReadsBack
back1 cipher m n e =
    subst
      (λ c.
        Reads service1 (("tokens", "row") ∷ [])
          (kept ∷ new_token service1 "rooms" c (day * 3) ∷ []))
      (ground arith) codes1

active_token-sync_gateway_tokens_example : active_token service1 after_sync.stored ≡ ok "uid"
active_token-sync_gateway_tokens_example =
    active_token-sync_gateway_tokens service1 max_age1 (("tokens", "row") ∷ []) row1 true sync1
      after_sync stores1 (λ n. refl) props1 tokens1 (refl, (refl, tt)) (λ n. refl) separate1 refl
      back1 sync-ok

calm1 : any (panics service1 max_age1) (sync1 ∷ []) ≡ false
unfolding sync_gateway_tokens read_props read_tokens sync_tokens list_tokens reconcile plan_tokens
    plan_token remove_unknown token_set carry_out generate create_token add_all remove_all
    remove_token finish save
calm1 = refl

abbrev idle : Manager
idle = record { wip = false; notified = 4 }

sync_all-map_example :
    sync_all service1 max_age1 (some (sync1 ∷ [])) idle
    ≡ (ok tt, record { wip = false; notified = 5 }, after_sync ∷ [])
unfolding sync_gateway_tokens read_props read_tokens sync_tokens list_tokens reconcile plan_tokens
    plan_token remove_unknown token_set carry_out generate create_token add_all remove_all
    remove_token finish save
sync_all-map_example = sync_all-map service1 max_age1 (sync1 ∷ []) idle refl calm1

-- What is on the gateway afterwards.
store-after : after_sync.store ≡ "kept" ∷ "uid" ∷ []
unfolding sync_gateway_tokens read_props read_tokens sync_tokens list_tokens reconcile plan_tokens
    plan_token remove_unknown token_set carry_out generate create_token add_all remove_all
    remove_token finish save
store-after = refl

-- An API is its URL and password; nothing is encrypted.
abbrev plain_maker : Maker (String × String)
plain_maker = record {
  decode = λ s. inr s;
  decrypt = λ s. inr s;
  new_api = λ url password. inr (url, password);
}

abbrev moved : Gateway
moved = record gateway1 { admin_url = "elsewhere"; admin_password = "new" }

abbrev other : Gateway
other = record gateway1 { id = 2 }

abbrev asked_both : Registry (String × String)
asked_both = after_all plain_maker (other ∷ []) (api_for plain_maker gateway1 []).1

api_for-lasting_example :
    api_for plain_maker moved asked_both
    ≡ (inr (gateway1.admin_url, gateway1.admin_password), asked_both)
unfolding api_for find_api set_api
api_for-lasting_example =
    api_for-lasting plain_maker gateway1 moved (other ∷ []) []
      (gateway1.admin_url, gateway1.admin_password) refl refl
