-- ===== src/Auth/Bearer.antt =====
-- `parseToken` of middleware/auth.go.
use gxydb_api.Base.{◌&&◌, not, String, List, [], ◌∷◌, ◌==◌, string_eq, if◌then◌else◌}
use gxydb_api.Base.Text.{trim_space, split, lower_is}

abbrev bearer_token : List String → String
bearer_token (scheme ∷ token ∷ []) =
    if lower_is scheme "bearer" && not (token == "") then token else ""
bearer_token _ = ""

unfoldable pub parse_token : String → String
parse_token header = bearer_token (split b' ' (trim_space header))
