-- ===== src/Tokens/Sample.antt =====
-- A store of tokens for the tests: one token of the row is old, one is kept.
use gxydb_api.Base.{
  ℕ, ◌*◌, not, [], ◌∷◌, List, String, inr, none, some, ◌==◌, string_eq, if◌then◌else◌, select,
}
use gxydb_api.Base.Maps.{get}
use gxydb_api.Errors.{ok}
use gxydb_api.Tokens.Types.{GatewayToken, Service}
use gxydb_api.Tokens.{day}

abbrev pub old : GatewayToken
old = record { token = "old"; plugins = []; created_at = 0 }

abbrev pub kept : GatewayToken
kept = record { token = "kept"; plugins = []; created_at = day }

abbrev pub new : GatewayToken
new = record {
  token = "uid";
  plugins = "janus.plugin.videoroom" ∷ "janus.plugin.textroom" ∷ [];
  created_at = day * 3;
}

-- The store is a list; a cipher is the plain text; JSON is read as one fixed value.
abbrev pub service1 : Service (List String)
service1 = record {
  fault = λ n. none;
  now = λ n. day * 3;
  fresh_uid = λ n. "uid";
  tokens = λ s. s;
  add_token = λ t plugins s. t ∷ s;
  remove_token = λ t s. select (λ u. not (u == t)) s;
  encrypt = λ n t. inr t;
  decrypt = λ t. ok t;
  decode_props = λ t. inr (("tokens", t) ∷ []);
  encode_props = λ m. inr (elim (get "tokens" m) [ none ↦ "" | some t ↦ t ]);
  decode_tokens = λ t. inr (if t == "row" then old ∷ kept ∷ [] else kept ∷ new ∷ []);
  encode_tokens = λ ts. "tokens";
}

-- A token expires after two days.
abbrev pub max_age1 : ℕ
max_age1 = day * 2
