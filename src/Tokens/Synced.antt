-- ===== src/Tokens/Synced.antt =====
-- The whole of `syncGatewayTokens` on a gateway that supports tokens.
use gxydb_api.Base.{
  ℕ, ◌+◌, ◌≡◌, refl, ap, ◌∙◌, sym, subst, Bool, true, false, not, ◌&&◌, ◌||◌, String, List, [], ◌∷◌,
  ◌++◌, inr, arith, ◌==◌, ==_iff, string_eq, elem, any, select, All, map,
}
use gxydb_api.Base.Maps.{Map}
use gxydb_api.Errors.{ok}
use gxydb_api.Tokens.Types.{GatewayToken, Service, Sync, Stores}
use gxydb_api.Tokens.Plan.{TokenPlan, empty_plan, remove_unknown, token_set}
use gxydb_api.Tokens.Plan.Laws.{
  Plain, Decrypts, is_kept, is_valid, is_stale, plan_all, plan_tokens-plan_all, remove-plan_all,
  add-plan_all, known-plan_all, next-plan_all, changed-plan_all, remove-remove_unknown,
  rest-remove_unknown, elem-token_set,
}
use gxydb_api.Tokens.Store.{NoFaults, on_store, generate-none, generate-cipher}
use gxydb_api.Tokens.Converge.{RowIs, RowIs-from, Carried, carry_out-Carried}
use gxydb_api.Tokens.{
  plugins_of, is_due, reconcile, carry_out, generate, read_props, read_tokens, sync_tokens,
  sync_gateway_tokens, list_tokens,
}

module _ (max_age now : ℕ) (gw : List String) (ps : List Plain) where
  abbrev pub the_plan : TokenPlan
  the_plan = remove_unknown (token_set gw) (plan_all max_age now (token_set gw) ps empty_plan)

  -- No plain text belongs to an expired token and to one that is kept.
  abbrev pub Separate : Type 0
  Separate = (u : String) → (is_valid max_age now ps u && is_stale max_age now ps u) ≡ false

  -- Removing and adding what the plan says turns the gateway's tokens into those kept.
  pub plan-settles :
      (u : String)
      → Separate
      → (not (elem u the_plan.remove_on_gateway) && (elem u the_plan.add_on_gateway || elem u gw))
        ≡ is_valid max_age now ps u
  plan-settles u apart =
      let p = plan_all max_age now (token_set gw) ps empty_plan in
      ground (
        arith,
        apart u,
        remove-remove_unknown u (token_set gw) p,
        rest-remove_unknown (token_set gw) p,
        remove-plan_all max_age now (token_set gw) u ps empty_plan,
        add-plan_all max_age now (token_set gw) u ps empty_plan,
        known-plan_all max_age now (token_set gw) u ps empty_plan,
        elem-token_set u gw,
      )

  -- A token that the gateway does not have is not removed from it.
  pub plan-spares : (u : String) → elem u gw ≡ false → elem u the_plan.remove_on_gateway ≡ false
  plan-spares u absent =
      let p = plan_all max_age now (token_set gw) ps empty_plan in
      ground (
        arith,
        remove-remove_unknown u (token_set gw) p,
        remove-plan_all max_age now (token_set gw) u ps empty_plan,
        elem-token_set u gw,
      )

module _ {S : Type 0} (sv : Service S) where
  -- The tokens that the row has after a synchronization.
  abbrev pub row_tokens : ℕ → ℕ → List Plain → List GatewayToken → List GatewayToken
  row_tokens max_age now ps made = map (λ tp. tp.0) (select (is_kept max_age now) ps) ++ made

  -- A new token for the plugins of a gateway of the kind.
  abbrev pub new_token : String → String → ℕ → GatewayToken
  new_token kind cipher created = record {
    token = cipher;
    plugins = plugins_of kind;
    created_at = created;
  }

  -- A new token was made exactly if one was due, and it is the encryption of the new text.
  abbrev pub MadeIf : Bool → String → String → List GatewayToken → Type 0
  MadeIf false kind fresh made = made ≡ []
  MadeIf true kind fresh made =
      (cipher : String) × (m n : ℕ) × (made ≡ new_token kind cipher (sv.now m) ∷ [])
      × (sv.encrypt n fresh ≡ inr cipher)

  -- `now` and `later` are the two readings of the clock, `fresh` is the new text.
  pub record Synced (max_age now later : ℕ) (fresh : String) (props : Map String String)
      (ps : List Plain) (changed : Bool) (s s' : Sync S) : Type 0 where
    pub due : Bool
    pub made : List GatewayToken
    pub due_when :
        due
        ≡ is_due sv later (map (λ tp. tp.0) ps) (map (λ tp. tp.0) (select (is_kept max_age now) ps))
    pub made_if : MadeIf due s.gateway.kind fresh made
    pub says : changed ≡ (any (λ tp. not (is_kept max_age now tp)) ps || due)
    pub on_gateway :
        (u : String) → on_store sv u s' ≡ (is_valid max_age now ps u || (due && u == fresh))
    pub row : RowIs sv changed props (row_tokens max_age now ps made) s s'

  generate-MadeIf :
      (due : Bool) (s s' : Sync S) (made : List GatewayToken)
      → generate sv due s ≡ (ok made, s')
      → MadeIf due s.gateway.kind (sv.fresh_uid s.calls) made
  generate-MadeIf false s s' made e = generate-none sv s s' made e
  generate-MadeIf true s s' made e =
      let (cipher, n, one, encrypted) = generate-cipher sv s s' made e in
      (cipher, s.calls, n, one, encrypted)

  -- `Carried` for the plan of the row's tokens.
  Carried-Synced :
      (max_age now later : ℕ) (props : Map String String) (ps : List Plain) (gw : List String)
      (changed due : Bool) (s s' : Sync S)
      → ((u : String) → elem u gw ≡ on_store sv u s)
      → elem (sv.fresh_uid s.calls) gw ≡ false
      → Separate max_age now gw ps
      → due
        ≡ is_due sv later (map (λ tp. tp.0) ps) (map (λ tp. tp.0) (select (is_kept max_age now) ps))
      → Carried sv props due (the_plan max_age now gw ps) changed s s'
      → Synced max_age now later (sv.fresh_uid s.calls) props ps changed s s'
  Carried-Synced max_age now later props ps gw changed due s s' same fresh apart when c =
      let p = plan_all max_age now (token_set gw) ps empty_plan in
      let (adds, next, changes) = rest-remove_unknown (token_set gw) p in
      let tokens : (the_plan max_age now gw ps).next_db_tokens
          ≡ map (λ tp. tp.0) (select (is_kept max_age now) ps) =
        next ∙ next-plan_all max_age now (token_set gw) ps empty_plan in
      let differs : (the_plan max_age now gw ps).changed
          ≡ any (λ tp. not (is_kept max_age now tp)) ps =
        changes ∙ changed-plan_all max_age now (token_set gw) ps empty_plan in
      record {
        due = due;
        made = c.made;
        due_when = when;
        made_if = generate-MadeIf due s c.middle c.made c.generated;
        says = c.says ∙ ap (λ b. b || due) differs;
        on_gateway = λ u. ground (
          arith,
          c.on_gateway u,
          same u,
          plan-settles max_age now gw ps u apart,
          plan-spares max_age now gw ps (sv.fresh_uid s.calls) fresh,
          ==_iff u (sv.fresh_uid s.calls),
        );
        row =
            subst (λ b. RowIs sv b props (row_tokens max_age now ps c.made) s s') (sym c.says)
              (subst
                (λ ts.
                  RowIs sv ((the_plan max_age now gw ps).changed || due) props (ts ++ c.made) s s')
                tokens c.row);
      }

  Synced-from :
      (max_age now later : ℕ) (fresh : String) (props : Map String String) (ps : List Plain)
      (changed : Bool) (s u s' : Sync S)
      → u.stored ≡ s.stored
      → u.gateway ≡ s.gateway
      → Synced max_age now later fresh props ps changed u s'
      → Synced max_age now later fresh props ps changed s s'
  Synced-from max_age now later fresh props ps changed s u s' stored held d = record {
    due = d.due;
    made = d.made;
    due_when = d.due_when;
    made_if = subst (λ g. MadeIf d.due g.kind fresh d.made) held d.made_if;
    says = d.says;
    on_gateway = d.on_gateway;
    row =
        RowIs-from sv changed props (row_tokens max_age now ps d.made) s u s'
          (record { gateway = held; stored = stored }) d.row;
  }

  -- Where every token of the row decrypts, what is carried out is the plan for their texts.
  reconcile-plan_all :
      (max_age : ℕ) (props : Map String String) (ps : List Plain) (gw : List String) (s : Sync S)
      → All (Decrypts sv.decrypt) ps
      → reconcile sv max_age props (map (λ tp. tp.0) ps) gw s
        ≡ carry_out sv props
            (is_due sv
              (sv.now (s.calls + 1))
              (map (λ tp. tp.0) ps)
              (plan_all max_age (sv.now s.calls) (token_set gw) ps empty_plan).next_db_tokens)
            (the_plan max_age (sv.now s.calls) gw ps)
            (record s { calls = s.calls + 1 + 1 })
  unfolding reconcile
  reconcile-plan_all max_age props ps gw s readable =
      rw
        (plan_tokens-plan_all max_age (sv.now s.calls) (token_set gw) sv.decrypt ps empty_plan
          readable)
        refl

  -- The tokens on the gateway after the listing are those listed.
  reconcile-Synced :
      (max_age : ℕ) (props : Map String String) (ps : List Plain) (gw : List String)
      (changed : Bool) (s s' : Sync S)
      → Stores sv
      → NoFaults sv
      → All (Decrypts sv.decrypt) ps
      → gw ≡ sv.tokens s.store
      → ((n : ℕ) → elem (sv.fresh_uid n) gw ≡ false)
      → Separate max_age (sv.now s.calls) gw ps
      → reconcile sv max_age props (map (λ tp. tp.0) ps) gw s ≡ (ok changed, s')
      → Synced max_age
          (sv.now s.calls)
          (sv.now (s.calls + 1))
          (sv.fresh_uid (s.calls + 1 + 1))
          props
          ps
          changed
          s
          s'
  reconcile-Synced max_age props ps gw changed s s' laws fine readable same fresh apart e =
      let now = sv.now s.calls in
      let later = sv.now (s.calls + 1) in
      let p = plan_all max_age now (token_set gw) ps empty_plan in
      let due = is_due sv later (map (λ tp. tp.0) ps) p.next_db_tokens in
      let ready : Sync S = record s { calls = s.calls + 1 + 1 } in
      let c =
        carry_out-Carried sv props due (the_plan max_age now gw ps) changed ready s' laws fine
          (sym (reconcile-plan_all max_age props ps gw s readable) ∙ e) in
      Synced-from max_age now later (sv.fresh_uid ready.calls) props ps changed s ready s' refl refl
        (Carried-Synced max_age now later props ps gw changed due ready s' (λ u. ap (elem u) same)
          (fresh ready.calls) apart
          (ap (is_due sv later (map (λ tp. tp.0) ps))
            (next-plan_all max_age now (token_set gw) ps empty_plan))
          c)

  -- Listing takes two calls, and changes only their number.
  list_tokens-eq :
      (s : Sync S)
      → NoFaults sv
      → list_tokens sv s ≡ (ok (sv.tokens s.store), record s { calls = s.calls + 1 + 1 })
  unfolding list_tokens
  list_tokens-eq s fine = ground (arith, fine s.calls, fine (s.calls + 1))

  sync_tokens-reconcile :
      (max_age : ℕ) (props : Map String String) (tokens : List GatewayToken) (s : Sync S)
      → NoFaults sv
      → sync_tokens sv max_age props tokens s
        ≡ reconcile sv max_age props tokens
            (sv.tokens s.store)
            (record s { calls = s.calls + 1 + 1 })
  unfolding sync_tokens
  sync_tokens-reconcile max_age props tokens s fine = ground (arith, list_tokens-eq s fine)

  sync_gateway_tokens-sync_tokens :
      (max_age : ℕ) (props : Map String String) (tokens : List GatewayToken) (s : Sync S)
      → read_props sv s.gateway.properties ≡ inr props
      → read_tokens sv props ≡ inr tokens
      → sync_gateway_tokens sv max_age s ≡ sync_tokens sv max_age props tokens s
  unfolding sync_gateway_tokens
  sync_gateway_tokens-sync_tokens max_age props tokens s h k = ground (arith, h, k)

  -- Let the admin API store what it is given, let no call fail, let the properties of the gateway
  -- hold tokens that decrypt, none of them both expired and kept, and let the texts for new tokens
  -- be none of those on the gateway. After `syncGatewayTokens` answered, the tokens on the gateway
  -- are those of the row that are younger than `maxAge`, and the new text if a token was due; the
  -- row holds the same, the new token last; it is written, and the answer is true, exactly if a
  -- token had expired or one was due.
  pub sync_gateway_tokens-Synced :
      (max_age : ℕ) (props : Map String String) (ps : List Plain) (changed : Bool) (s s' : Sync S)
      → Stores sv
      → NoFaults sv
      → read_props sv s.gateway.properties ≡ inr props
      → read_tokens sv props ≡ inr (map (λ tp. tp.0) ps)
      → All (Decrypts sv.decrypt) ps
      → ((n : ℕ) → elem (sv.fresh_uid n) (sv.tokens s.store) ≡ false)
      → Separate max_age (sv.now (s.calls + 1 + 1)) (sv.tokens s.store) ps
      → sync_gateway_tokens sv max_age s ≡ (ok changed, s')
      → Synced max_age
          (sv.now (s.calls + 1 + 1))
          (sv.now (s.calls + 1 + 1 + 1))
          (sv.fresh_uid (s.calls + 1 + 1 + 1 + 1))
          props
          ps
          changed
          s
          s'
  sync_gateway_tokens-Synced max_age props ps changed s s' laws fine h k readable fresh apart e =
      let tokens = map (λ tp. tp.0) ps in
      let ready : Sync S = record s { calls = s.calls + 1 + 1 } in
      let run =
        sym (
          sync_gateway_tokens-sync_tokens max_age props tokens s h k
          ∙ sync_tokens-reconcile max_age props tokens s fine)
        ∙ e in
      Synced-from max_age (sv.now ready.calls) (sv.now (ready.calls + 1))
        (sv.fresh_uid (ready.calls + 1 + 1)) props ps changed s ready s' refl refl
        (reconcile-Synced max_age props ps (sv.tokens s.store) changed ready s' laws fine readable
          refl fresh apart run)
