-- ===== src/Tokens/Types.antt =====
-- What the manager of tokens works on, and what it takes from elsewhere: the admin API of a
-- gateway, the encryption of tokens, JSON, the clock, and the source of new tokens.
use gxydb_api.Base.{
  ℕ, ◌≡◌, Bool, false, ◌||◌, ◌&&◌, not, String, List, Option, ◌==◌, string_eq, nat_eq, elem,
}
use gxydb_api.Base.Maps.{Map}
use gxydb_api.Errors.{Error, Outcome, wrap, with_stack, admin_response}
use gxydb_api.Models.{Gateway}
use gxydb_api.World.{Try}

pub record GatewayToken : Type 0 where
  pub token : String
  pub plugins : List String
  pub created_at : ℕ

-- `S` is the state of the gateway's store of tokens. `fault` says which calls out of the process
-- fail, by their number; `now` and `fresh_uid` are read at such a number too.
pub record Service (S : Type 0) : Type 0 where
  pub fault : ℕ → Option Error
  pub now : ℕ → ℕ
  pub fresh_uid : ℕ → String
  -- the admin API
  pub tokens : S → List String
  pub add_token : String → List String → S → S
  pub remove_token : String → S → S
  -- pkg/crypt with base64, under the configured secret; encryption draws a nonce
  pub encrypt : ℕ → String → Try String
  pub decrypt : String → Outcome String
  -- JSON
  pub decode_props : String → Try (Map String String)
  pub encode_props : Map String String → Try String
  pub decode_tokens : String → Try (List GatewayToken)
  pub encode_tokens : List GatewayToken → String

-- The gateway as the manager holds it, the column `properties` of its row, the store on the
-- gateway, and the number of calls so far.
pub record Sync (S : Type 0) : Type 0 where
  pub gateway : Gateway
  pub stored : Option String
  pub store : S
  pub calls : ℕ

-- `pkgerr.As(err, &e) && e.Err.Code == 490`
unfoldable pub is_unsupported : Error → Bool
is_unsupported (admin_response code) = code == 490
is_unsupported (wrap e _) = is_unsupported e
is_unsupported (with_stack e) = is_unsupported e
is_unsupported _ = false

-- What the documentation of the admin API says of the two calls that change the store.
pub record Stores {S : Type 0} (sv : Service S) : Type 0 where
  pub added :
      (t : String) (plugins : List String) (s : S) (u : String)
      → elem u (sv.tokens (sv.add_token t plugins s)) ≡ (u == t || elem u (sv.tokens s))
  pub removed :
      (t : String) (s : S) (u : String)
      → elem u (sv.tokens (sv.remove_token t s)) ≡ (not (u == t) && elem u (sv.tokens s))
