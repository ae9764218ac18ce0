-- ===== src/Settings/Tests.antt =====
-- Settings read from concrete environments.
use gxydb_api.Base.{String, ◌↔◌, inl, inr, ◌≡◌, refl, ◌==◌, string_eq, if◌then◌else◌}
use gxydb_api.Base.Int.{pos, ◌≤ℤ◌}
use gxydb_api.Errors.{ok}
use gxydb_api.Settings.{Settings, Parser, new_config, settings_with, init}
use gxydb_api.Settings.Read.{AllReadable, init-AllReadable}

abbrev parse : Parser
parse s = if s == "5" then inr (pos 5) else inl "invalid"

abbrev five_seconds : String → String
five_seconds name = if name == "DEAD_SESSION_PERIOD" then "5" else ""

init-AllReadable_example :
    (((s : Settings) × (init five_seconds parse parse ≡ ok s))
      ↔ AllReadable five_seconds parse parse)
    × ((s : Settings) → init five_seconds parse parse ≡ ok s → pos 1 ≤ℤ s.dead_session_period)
init-AllReadable_example = init-AllReadable five_seconds parse parse

-- Nothing but "true" switches a setting on.
any_case : (init (λ name. if name == "SKIP_AUTH" then "TRUE" else "") parse parse) ≡ ok new_config
unfolding init settings_with new_config
any_case = refl
