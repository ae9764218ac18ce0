-- ===== src/Tokens/Plan.antt =====
-- The part of `syncGatewayTokens` between listing the gateway's tokens and the first change: which
-- tokens to remove from the gateway, which to add to it, and which to keep in the row.
pub mod Laws
use gxydb_api.Base.{
  ℕ, ◌+◌, Bool, true, false, ◌||◌, not, String, List, [], ◌∷◌, ◌++◌, ◌==◌, string_eq, if◌then◌else◌,
  ltb, elem,
}
use gxydb_api.Errors.{Error, wrap, Outcome, ok, err, panic}
use gxydb_api.Tokens.Types.{GatewayToken}

-- `known` are the keys of `dbTokensMap`.
pub record TokenPlan : Type 0 where
  pub remove_on_gateway : List String
  pub add_on_gateway : List String
  pub next_db_tokens : List GatewayToken
  pub changed : Bool
  pub known : List String

abbrev pub empty_plan : TokenPlan
empty_plan = record {
  remove_on_gateway = [];
  add_on_gateway = [];
  next_db_tokens = [];
  changed = false;
  known = [];
}

-- `token.CreatedAt.Before(now.Add(-maxAge))`
abbrev pub is_expired : ℕ → ℕ → GatewayToken → Bool
is_expired max_age now token = ltb (token.created_at + max_age) now

abbrev pub append_if : Bool → List String → String → List String
append_if b xs x = if b then xs ++ x ∷ [] else xs

module _ (max_age now : ℕ) (on_gateway : List String) where
  -- The body of the loop over the row's tokens, once the token is decrypted.
  unfoldable pub plan_token : GatewayToken → String → TokenPlan → TokenPlan
  plan_token token plain p =
      if is_expired max_age now token
      then record {
        remove_on_gateway = append_if (elem plain on_gateway) p.remove_on_gateway plain;
        add_on_gateway = p.add_on_gateway;
        next_db_tokens = p.next_db_tokens;
        changed = true;
        known = plain ∷ p.known;
      }
      else record {
        remove_on_gateway = p.remove_on_gateway;
        add_on_gateway = append_if (not (elem plain on_gateway)) p.add_on_gateway plain;
        next_db_tokens = p.next_db_tokens ++ token ∷ [];
        changed = p.changed;
        known = plain ∷ p.known;
      }

  unfoldable pub plan_tokens :
      (String → Outcome String) → List GatewayToken → TokenPlan → Outcome TokenPlan
  plan_tokens decrypt [] p = ok p
  plan_tokens decrypt (token ∷ tokens) p = elim (decrypt token.token) [
    | ok plain ↦ plan_tokens decrypt tokens (plan_token token plain p)
    | err e ↦ err (wrap e "decrypt token")
    | panic x ↦ panic x
  ]

-- Maybe something on the gateway that the row is not aware of.
unfoldable pub remove_unknown : List String → TokenPlan → TokenPlan
remove_unknown [] p = p
remove_unknown (token ∷ tokens) p = remove_unknown tokens (record p {
  remove_on_gateway = append_if (not (elem token p.known)) p.remove_on_gateway token;
})

-- The keys of `gatewayTokensMap`.
unfoldable pub token_set : List String → List String
token_set [] = []
token_set (t ∷ ts) = let rest = token_set ts in if elem t rest then rest else t ∷ rest
