-- ===== src/Tokens/Converge.antt =====
-- A synchronization brings the gateway and the row into line.
use gxydb_api.Base.{
  ◌≡◌, ap, ◌∙◌, Bool, true, false, not, ◌&&◌, ◌||◌, String, List, ◌++◌, inl, inr, some, arith, ◌==◌,
  string_eq, elem, Either-cases,
}
use gxydb_api.Base.Maps.{Map, put}
use gxydb_api.Errors.{ok}
use gxydb_api.World.{◌>>=◌, >>=-eq-ok}
use gxydb_api.Tokens.Types.{GatewayToken, Service, Sync, Stores}
use gxydb_api.Tokens.Plan.{TokenPlan}
use gxydb_api.Tokens.Store.{
  NoFaults, on_store, SameRow, SameRow-trans, add_all-store, remove_all-store, generate-store,
  add_all-SameRow, remove_all-SameRow, generate-SameRow,
}
use gxydb_api.Tokens.{generate, add_all, remove_all, save, finish, carry_out}

module _ {S : Type 0} (sv : Service S) where
  -- The row after a change, or its being as before.
  abbrev pub RowIs : Bool → Map String String → List GatewayToken → Sync S → Sync S → Type 0
  RowIs true props tokens s s' =
      (text : String) × (sv.encode_props (put "tokens" (sv.encode_tokens tokens) props) ≡ inr text)
      × (s'.stored ≡ some text)
      × (s'.gateway.properties ≡ some text)
  RowIs false props tokens s s' =
      (s'.stored ≡ s.stored) × (s'.gateway.properties ≡ s.gateway.properties)

  pub RowIs-from :
      (b : Bool) (props : Map String String) (tokens : List GatewayToken) (s u v : Sync S)
      → SameRow sv s u
      → RowIs b props tokens u v
      → RowIs b props tokens s v
  RowIs-from true props tokens s u v same row = row
  RowIs-from false props tokens s u v same row = ground arith

  finish-RowIs :
      (props : Map String String) (b : Bool) (tokens : List GatewayToken) (s s' : Sync S)
      (changed : Bool)
      → finish sv props b tokens s ≡ (ok changed, s')
      → (changed ≡ b) × (s'.store ≡ s.store) × RowIs b props tokens s s'
  unfolding finish save
  finish-RowIs props true tokens s s' changed e =
      elim (Either-cases (sv.encode_props (put "tokens" (sv.encode_tokens tokens) props))) [
        | inl (x, bad) ↦ absurd (ground (arith, bad))
        | inr (text, good) ↦ (
          ground (arith, good),
          ground (arith, good),
          (text, good, ground (arith, good), ground (arith, good)),
        )
      ]
  finish-RowIs props false tokens s s' changed e = ground arith

  pub record Carried (props : Map String String) (due : Bool) (p : TokenPlan) (changed : Bool)
      (s s' : Sync S) : Type 0 where
    pub made : List GatewayToken
    pub middle : Sync S
    pub generated : generate sv due s ≡ (ok made, middle)
    pub says : changed ≡ (p.changed || due)
    pub on_gateway :
        (u : String)
        → on_store sv u s' ≡ (
            not (elem u p.remove_on_gateway)
            && (elem u p.add_on_gateway || ((due && u == sv.fresh_uid s.calls) || on_store sv u s)))
    pub row : RowIs (p.changed || due) props (p.next_db_tokens ++ made) s s'

  pub carry_out-Carried :
      (props : Map String String) (due : Bool) (p : TokenPlan) (changed : Bool) (s s' : Sync S)
      → Stores sv
      → NoFaults sv
      → carry_out sv props due p s ≡ (ok changed, s')
      → Carried props due p changed s s'
  unfolding carry_out
  carry_out-Carried props due p changed s s' laws fine e =
      let (made, g, e₁) =
        >>=-eq-ok (generate sv due)
          (λ made. add_all sv p.add_on_gateway >>= λ _. remove_all sv p.remove_on_gateway >>= λ _.
            finish sv props (p.changed || due) (p.next_db_tokens ++ made))
          s e in
      let s₁ = (generate sv due s).1 in
      let (_, a, e₂) =
        >>=-eq-ok (add_all sv p.add_on_gateway)
          (λ _. remove_all sv p.remove_on_gateway >>= λ _.
            finish sv props (p.changed || due) (p.next_db_tokens ++ made))
          s₁ e₁ in
      let s₂ = (add_all sv p.add_on_gateway s₁).1 in
      let (_, r, e₃) =
        >>=-eq-ok (remove_all sv p.remove_on_gateway)
          (λ _. finish sv props (p.changed || due) (p.next_db_tokens ++ made)) s₂ e₂ in
      let s₃ = (remove_all sv p.remove_on_gateway s₂).1 in
      let (says, store, row) =
        finish-RowIs props (p.changed || due) (p.next_db_tokens ++ made) s₃ s' changed e₃ in
      let same : SameRow sv s s₃ = SameRow-trans sv s s₁ s₃ (generate-SameRow sv due s s₁ made g) (
        SameRow-trans sv s₁ s₂ s₃ (add_all-SameRow sv p.add_on_gateway s₁ s₂ a)
          (remove_all-SameRow sv p.remove_on_gateway s₂)) in
      record {
        made = made;
        middle = s₁;
        generated = g;
        says = says;
        on_gateway = λ u.
            ap (λ st. elem u (sv.tokens st)) store
            ∙ remove_all-store sv laws u p.remove_on_gateway s₂ fine
            ∙ ap (λ b. not (elem u p.remove_on_gateway) && b)
                (add_all-store sv laws u p.add_on_gateway s₁ s₂ a
                  ∙ ap (λ b. elem u p.add_on_gateway || b)
                      (generate-store sv laws u due s s₁ made g));
        row = RowIs-from (p.changed || due) props (p.next_db_tokens ++ made) s s₃ s' same row;
      }
