-- ===== src/Tokens.antt =====
-- domain/gateways.go: `GatewayTokensManager.syncGatewayTokens` brings the tokens that a gateway
-- stores and those in the row of the gateway into line.
pub mod Types
pub mod Plan
pub mod Store
pub mod Converge
pub mod Synced
pub mod Rounds
pub mod Active
pub mod Registry
pub mod Sample
pub mod Tests
use gxydb_api.Base.{
  ℕ, ◌+◌, ◌*◌, Bool, true, false, ◌&&◌, ◌||◌, not, String, List, [], ◌∷◌, ◌++◌, inl, inr, Option,
  none, some, ◌==◌, string_eq, nat_eq, if◌then◌else◌, ltb, elem, length, last?, map,
}
use gxydb_api.Base.Maps.{Map, get, put}
use gxydb_api.Errors.{Error, wrap, foreign, Outcome, ok, err, panic}
use gxydb_api.Models.{Gateway}
use gxydb_api.World.{Flow, Try, pure, fail, ◌>>=◌, ◌>>◌, wrapping, or_wrap}
use Types.{GatewayToken, Service, Sync, is_unsupported}
use Plan.{TokenPlan, plan_tokens, remove_unknown, empty_plan, token_set}

abbrev pub day : ℕ
day = 24 * 3600 * 1000000000

-- The plugins for which a token is made.
abbrev pub plugins_of : String → List String
plugins_of kind =
    if kind == "rooms"
    then "janus.plugin.videoroom" ∷ "janus.plugin.textroom" ∷ []
    else if kind == "streaming"
    then "janus.plugin.streaming" ∷ []
    else []

module _ {S : Type 0} (sv : Service S) where
  -- A call that can fail, and that changes the gateway's store where it does not.
  abbrev pub call : {A : Type 0} → (S → A × S) → Flow (Sync S) (Try A)
  call f s = elim (sv.fault s.calls) [
    | some e ↦ (ok (inl e), record s { calls = s.calls + 1 })
    | none ↦
        let (a, store) = f s.store in (ok (inr a), record s { store = store; calls = s.calls + 1 })
  ]

  abbrev pub clock : Flow (Sync S) ℕ
  clock s = (ok (sv.now s.calls), record s { calls = s.calls + 1 })

  -- `GatewayAdminAPIRegistry.For(gateway)`: it can fail, and changes nothing on the gateway.
  abbrev pub admin_api : Flow (Sync S) (Unit {0})
  admin_api = or_wrap "Admin API for gateway" (call (λ store. (tt, store)))

  unfoldable pub list_tokens : Flow (Sync S) (List String)
  list_tokens =
      admin_api >> or_wrap "Admin API list token" (call (λ store. (sv.tokens store, store)))

  -- `crypt.Encrypt`, whose nonce is another for each call.
  abbrev encrypt : String → Flow (Sync S) (Try String)
  encrypt plain s = (ok (sv.encrypt s.calls plain), record s { calls = s.calls + 1 })

  unfoldable pub create_token : String → Flow (Sync S) GatewayToken
  create_token plain = do
    created ← clock
    admin_api
    plugins ← (λ s. (ok (plugins_of s.gateway.kind), s))
    _ ← or_wrap "Admin API add token" (call (λ store. (tt, sv.add_token plain plugins store)))
    cipher ← or_wrap "crypt.Encrypt new token" (encrypt plain)
    pure (record { token = cipher; plugins = plugins; created_at = created })

  unfoldable pub remove_token : String → Flow (Sync S) (Unit {0})
  remove_token plain =
      admin_api
      >> or_wrap "Admin API remove token" (call (λ store. (tt, sv.remove_token plain store)))

  -- The loop over `addOnGateway`: an error ends it.
  unfoldable pub add_all : List String → Flow (Sync S) (Unit {0})
  add_all [] = pure tt
  add_all (t ∷ ts) = wrapping "create token [existing]" (create_token t) >>= λ _. add_all ts

  -- The loop over `removeOnGateway`: an error is logged only.
  unfoldable pub remove_all : List String → Flow (Sync S) (Unit {0})
  remove_all [] s = (ok tt, s)
  remove_all (t ∷ ts) s =
      let (r, s') = remove_token t s in
      let rest = remove_all ts s' in elim r [ panic x ↦ (panic x, s') | _ ↦ rest ]

  unfoldable pub read_props : Option String → Try (Map String String)
  read_props none = inr []
  read_props (some text) = elim (sv.decode_props text) [
    | inl e ↦ inl (wrap e "json.Unmarshal gateway.Properties")
    | inr props ↦ inr props
  ]

  unfoldable pub read_tokens : Map String String → Try (List GatewayToken)
  read_tokens props = elim (get "tokens" props) [
    | none ↦ inr []
    | some text ↦ elim (sv.decode_tokens text) [
      | inl e ↦ inl (wrap e "json.Unmarshal tokens")
      | inr tokens ↦ inr tokens
    ]
  ]

  -- Write the properties to the gateway that the manager holds, and to its row.
  unfoldable pub save : Map String String → Flow (Sync S) (Unit {0})
  save props s = elim (sv.encode_props props) [
    | inl e ↦ (err (wrap e "json.Marshal props"), s)
    | inr text ↦
        let held : Sync S = record s {
          gateway = record (s.gateway) { properties = some text };
          calls = s.calls + 1;
        } in
        elim (sv.fault s.calls) [
          | some e ↦ (err (wrap e "gateway.Update"), held)
          | none ↦ (ok tt, record held { stored = some text })
        ]
  ]

  -- A gateway without support for tokens: delete all our tokens if any.
  unfoldable pub drop_tokens : Map String String → List GatewayToken → Flow (Sync S) Bool
  drop_tokens props [] = pure false
  drop_tokens props (_ ∷ _) = save (put "tokens" "null" props) >> pure true

  -- Is a new token due: no token is left, or the newest of the row is older than a day.
  abbrev pub is_due : ℕ → List GatewayToken → List GatewayToken → Bool
  is_due now tokens kept = elim (last? kept) [
    | none ↦ true
    | some _ ↦ elim (last? tokens) [ none ↦ true | some newest ↦ ltb (newest.created_at + day) now ]
  ]

  -- Generate a token if one is due; the answer is what it adds to the row.
  unfoldable pub generate : Bool → Flow (Sync S) (List GatewayToken)
  generate false s = (ok [], s)
  generate true s =
      (wrapping "create token" (create_token (sv.fresh_uid s.calls)) >>= λ t. pure (t ∷ [])) s

  -- Save changes in the row, if there are any.
  unfoldable pub finish : Map String String → Bool → List GatewayToken → Flow (Sync S) Bool
  finish props changed tokens =
      if changed
      then (save (put "tokens" (sv.encode_tokens tokens) props) >> pure true)
      else pure false

  -- Carry out a plan: the new token, then the gateway, then the row.
  unfoldable pub carry_out : Map String String → Bool → TokenPlan → Flow (Sync S) Bool
  carry_out props due p = generate due >>= λ made. add_all p.add_on_gateway >>= λ _.
      remove_all p.remove_on_gateway >>= λ _.
      finish props (p.changed || due) (p.next_db_tokens ++ made)

  unfoldable pub reconcile :
      ℕ → Map String String → List GatewayToken → List String → Flow (Sync S) Bool
  reconcile max_age props tokens listed = do
    let on_gateway = token_set listed
    now ← clock
    p ← (λ s. (plan_tokens max_age now on_gateway sv.decrypt tokens empty_plan, s))
    later ← clock
    carry_out props (is_due later tokens p.next_db_tokens) (remove_unknown on_gateway p)

  -- What follows the answer of `listTokens`.
  unfoldable pub sync_tokens : ℕ → Map String String → List GatewayToken → Flow (Sync S) Bool
  sync_tokens max_age props tokens s =
      let (r, s') = list_tokens s in
      elim r [
        | ok listed ↦ reconcile max_age props tokens listed s'
        | err e ↦
            if is_unsupported e
            then drop_tokens props tokens s'
            else (err (wrap e "gateway AdminAPI listTokens"), s')
        | panic x ↦ (panic x, s')
      ]

  unfoldable pub sync_gateway_tokens : ℕ → Flow (Sync S) Bool
  sync_gateway_tokens max_age s = elim (read_props s.gateway.properties) [
    | inl e ↦ (err e, s)
    | inr props ↦ elim (read_tokens props) [
      | inl e ↦ (err e, s)
      | inr tokens ↦ sync_tokens max_age props tokens s
    ]
  ]
