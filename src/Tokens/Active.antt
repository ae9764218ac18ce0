-- ===== src/Tokens/Active.antt =====
-- domain/gateways.go: `ActiveToken`, the token that clients are given, and what it is after a
-- synchronization.
use gxydb_api.Base.{
  ℕ, ◌+◌, ◌≡◌, sym, subst, All, elem, refl, ap, ◌∙◌, Bool, true, false, String, List, [], ◌∷◌, ◌++◌,
  inl, inr, Option, none, some, arith, string_eq, last?, map, select,
}
use gxydb_api.Base.Maps.{Map, get, put, get-put}
use gxydb_api.Errors.{wrap, Outcome, ok, err}
use gxydb_api.Tokens.Types.{GatewayToken, Service, Sync, Stores}
use gxydb_api.Tokens.{is_due, read_props, read_tokens, sync_gateway_tokens}
use gxydb_api.Tokens.Store.{NoFaults}
use gxydb_api.Tokens.Plan.Laws.{Plain, is_kept, Decrypts}
use gxydb_api.Tokens.Converge.{RowIs}
use gxydb_api.Tokens.Synced.{Separate, row_tokens, new_token, MadeIf, sync_gateway_tokens-Synced}

module _ {S : Type 0} (sv : Service S) where
  unfoldable pub newest : List GatewayToken → Outcome String
  newest tokens = elim (last? tokens) [ none ↦ ok "" | some t ↦ sv.decrypt t.token ]

  -- `ActiveToken` on the column `properties` of a gateway.
  unfoldable pub active_token : Option String → Outcome String
  active_token none = ok ""
  active_token (some text) = elim (sv.decode_props text) [
    | inl e ↦ err (wrap e "json.Unmarshal gateway.Properties")
    | inr props ↦ elim (get "tokens" props) [
      | none ↦ ok ""
      | some t ↦ elim (sv.decode_tokens t) [
        | inl e ↦ err (wrap e "json.Unmarshal tokens")
        | inr tokens ↦ newest tokens
      ]
    ]
  ]

  -- What is written to the row is read back, and what is encrypted decrypts.
  pub record Reads (props : Map String String) (tokens : List GatewayToken) : Type 0 where
    pub props_back :
        (text : String)
        → sv.encode_props (put "tokens" (sv.encode_tokens tokens) props) ≡ inr text
        → sv.decode_props text ≡ inr (put "tokens" (sv.encode_tokens tokens) props)
    pub tokens_back : sv.decode_tokens (sv.encode_tokens tokens) ≡ inr tokens
    pub decrypts :
        (n : ℕ) (plain cipher : String)
        → sv.encrypt n plain ≡ inr cipher
        → sv.decrypt cipher ≡ ok plain

  last-append : (ts : List GatewayToken) (t : GatewayToken) → last? (ts ++ t ∷ []) ≡ some t
  last-append [] t = refl
  last-append (u ∷ []) t = refl
  last-append (u ∷ w ∷ ts) t = last-append (w ∷ ts) t

  active_token-row :
      (props : Map String String) (tokens : List GatewayToken) (text : String)
      → Reads props tokens
      → sv.encode_props (put "tokens" (sv.encode_tokens tokens) props) ≡ inr text
      → active_token (some text) ≡ newest tokens
  unfolding active_token
  active_token-row props tokens text codes e = ground (
    arith,
    codes.props_back text e,
    codes.tokens_back,
    get-put "tokens" "tokens" (sv.encode_tokens tokens) props,
  )

  newest-MadeIf :
      (kept made : List GatewayToken) (due : Bool) (kind fresh : String)
      → due ≡ true
      → MadeIf sv due kind fresh made
      → ((n : ℕ) (plain cipher : String)
          → sv.encrypt n plain ≡ inr cipher
          → sv.decrypt cipher ≡ ok plain)
      → newest (kept ++ made) ≡ ok fresh
  unfolding newest
  newest-MadeIf kept made true kind fresh due (cipher, m, n, one, e) decrypts = ground (
    arith,
    one,
    last-append kept (new_token sv kind cipher (sv.now m)),
    decrypts n fresh cipher e,
  )
  newest-MadeIf kept made false kind fresh due m decrypts = absurd (ground arith)

  active_token-RowIs :
      (changed : Bool) (props : Map String String) (tokens : List GatewayToken) (s s' : Sync S)
      → changed ≡ true
      → Reads props tokens
      → RowIs sv changed props tokens s s'
      → active_token s'.stored ≡ newest tokens
  active_token-RowIs true props tokens s s' saved codes (text, e, stored, held) =
      ap active_token stored ∙ active_token-row props tokens text codes e
  active_token-RowIs false props tokens s s' saved codes row = absurd (ground arith)

  -- What a synchronization may write to the row is read back: the tokens that are kept, and after
  -- them a new one.
  unfoldable pub ReadsBack : ℕ → ℕ → String → String → Map String String → List Plain → Type 0
  ReadsBack max_age now kind fresh props ps =
      (cipher : String) (m n : ℕ)
      → sv.encrypt n fresh ≡ inr cipher
      → Reads props (row_tokens sv max_age now ps (new_token sv kind cipher (sv.now m) ∷ []))

  ReadsBack-MadeIf :
      (max_age now : ℕ) (kind fresh : String) (props : Map String String) (ps : List Plain)
      (due : Bool) (made : List GatewayToken)
      → due ≡ true
      → ReadsBack max_age now kind fresh props ps
      → MadeIf sv due kind fresh made
      → Reads props (row_tokens sv max_age now ps made)
  unfolding ReadsBack
  ReadsBack-MadeIf max_age now kind fresh props ps true made due back (cipher, m, n, one, e) =
      subst (λ ts. Reads props (row_tokens sv max_age now ps ts)) (sym one) (back cipher m n e)
  ReadsBack-MadeIf max_age now kind fresh props ps false made due back h = absurd (ground arith)

  -- Let the admin API store what it is given, let no call fail, let the properties of the gateway
  -- hold tokens that decrypt, none of them both expired and kept, and let the texts for new tokens
  -- be none of those on the gateway. When `syncGatewayTokens` has answered, and a token was due,
  -- `ActiveToken` of the row as it is then gives the text of the new token, where the row is read as
  -- it was written and what is encrypted decrypts.
  pub active_token-sync_gateway_tokens :
      (max_age : ℕ) (props : Map String String) (ps : List Plain) (changed : Bool) (s s' : Sync S)
      → Stores sv
      → NoFaults sv
      → read_props sv s.gateway.properties ≡ inr props
      → read_tokens sv props ≡ inr (map (λ tp. tp.0) ps)
      → All (Decrypts sv.decrypt) ps
      → ((n : ℕ) → elem (sv.fresh_uid n) (sv.tokens s.store) ≡ false)
      → Separate max_age (sv.now (s.calls + 1 + 1)) (sv.tokens s.store) ps
      → is_due sv
          (sv.now (s.calls + 1 + 1 + 1))
          (map (λ tp. tp.0) ps)
          (map (λ tp. tp.0) (select (is_kept max_age (sv.now (s.calls + 1 + 1))) ps))
        ≡ true
      → ReadsBack max_age
          (sv.now (s.calls + 1 + 1))
          s.gateway.kind
          (sv.fresh_uid (s.calls + 1 + 1 + 1 + 1))
          props
          ps
      → sync_gateway_tokens sv max_age s ≡ (ok changed, s')
      → active_token s'.stored ≡ ok (sv.fresh_uid (s.calls + 1 + 1 + 1 + 1))
  active_token-sync_gateway_tokens max_age props ps changed s s' laws fine h k readable new apart
        due back e =
      let now = sv.now (s.calls + 1 + 1) in
      let fresh = sv.fresh_uid (s.calls + 1 + 1 + 1 + 1) in
      let d =
        sync_gateway_tokens-Synced sv max_age props ps changed s s' laws fine h k readable new apart
          e in
      let is_made = d.due_when ∙ due in
      let codes =
        ReadsBack-MadeIf max_age now s.gateway.kind fresh props ps d.due d.made is_made back
          d.made_if in
      active_token-RowIs changed props (row_tokens sv max_age now ps d.made) s s'
        (ground (arith, d.says, is_made)) codes d.row
      ∙ newest-MadeIf (map (λ tp. tp.0) (select (is_kept max_age now) ps)) d.made d.due
          s.gateway.kind fresh is_made d.made_if codes.decrypts
