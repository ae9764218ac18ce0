-- ===== src/Settings/Read.antt =====
-- When the settings can be read, and what is sure of those that are.
use gxydb_api.Base.{
  ◌≡◌, refl, ap, ◌∙◌, String, ◌⊎◌, ◌↔◌, inl, inr, arith, ◌==◌, ==_iff, string_eq, Bool-cases,
  Either-cases,
}
use gxydb_api.Base.Int.{ℤ, pos, ◌≤ℤ◌}
use gxydb_api.Errors.{Outcome, ok, err, panic}
use gxydb_api.Settings.{
  Settings, new_config, Parser, number_or, period_or, ◌>>=ₛ◌, settings_with, init,
}

module _ (lookup : String → String) where
  -- A variable is unset, or a text that the parser reads.
  abbrev pub Readable : Parser → String → Type 0
  Readable parse name = (lookup name ≡ "") ⊎ ((z : ℤ) × (parse (lookup name) ≡ inr z))

  -- The same of a variable whose value must be positive.
  abbrev pub PositiveReadable : Parser → String → Type 0
  PositiveReadable parse name =
      (lookup name ≡ "") ⊎ ((z : ℤ) × (parse (lookup name) ≡ inr z) × (pos 1 ≤ℤ z))

  pub record AllReadable (parse_duration atoi : Parser) : Type 0 where
    pub interval : Readable parse_duration "CLEAN_SESSIONS_INTERVAL"
    pub period : PositiveReadable parse_duration "DEAD_SESSION_PERIOD"
    pub idle : Readable atoi "DB_MAX_IDLE_CONNS"
    pub opened : Readable atoi "DB_MAX_OPEN_CONNS"
    pub lifetime : Readable parse_duration "DB_CONN_MAX_LIFETIME"

  number_or-ok :
      (parse : Parser) (name : String) (d z : ℤ)
      → number_or lookup parse name d ≡ ok z
      → Readable parse name
  number_or-ok parse name d z e = elim (Bool-cases (lookup name == "")) [
    | inl unset ↦ inl ((==_iff (lookup name) "").0 unset)
    | inr given ↦ elim (Either-cases (parse (lookup name))) [
      | inl (x, bad) ↦ absurd (ground arith)
      | inr (n, good) ↦ inr (n, good)
    ]
  ]

  number_or-Readable :
      (parse : Parser) (name : String) (d : ℤ)
      → Readable parse name
      → (z : ℤ) × (number_or lookup parse name d ≡ ok z)
  number_or-Readable parse name d (inl unset) = (d, ground (arith, ==_iff (lookup name) ""))
  number_or-Readable parse name d (inr (z, good)) = elim (Bool-cases (lookup name == "")) [
    | inl unset ↦ (d, ground arith)
    | inr given ↦ (z, ground arith)
  ]

  period_or-ok :
      (parse : Parser) (name : String) (d z : ℤ)
      → pos 1 ≤ℤ d
      → period_or lookup parse name d ≡ ok z
      → PositiveReadable parse name × (pos 1 ≤ℤ z)
  period_or-ok parse name d z h e = elim (Bool-cases (lookup name == "")) [
    | inl unset ↦ (inl ((==_iff (lookup name) "").0 unset), ground arith)
    | inr given ↦ elim (Either-cases (parse (lookup name))) [
      | inl (x, bad) ↦ absurd (ground arith)
      | inr (n, good) ↦ (inr (n, good, ground arith), ground arith)
    ]
  ]

  period_or-Readable :
      (parse : Parser) (name : String) (d : ℤ)
      → PositiveReadable parse name
      → (z : ℤ) × (period_or lookup parse name d ≡ ok z)
  period_or-Readable parse name d (inl unset) = (d, ground (arith, ==_iff (lookup name) ""))
  period_or-Readable parse name d (inr (z, good, positive)) =
      elim (Bool-cases (lookup name == "")) [
        | inl unset ↦ (d, ground arith)
        | inr given ↦ (z, ground arith)
      ]

  bind-ok :
      (r : Outcome ℤ) (f : ℤ → Outcome Settings) (s : Settings)
      → ◌>>=ₛ◌ lookup r f ≡ ok s
      → (z : ℤ) × (r ≡ ok z) × (f z ≡ ok s)
  bind-ok (ok z) f s e = (z, refl, e)
  bind-ok (err x) f s e = absurd (ground arith)
  bind-ok (panic x) f s e = absurd (ground arith)

  bind-run :
      (r : Outcome ℤ) (f : ℤ → Outcome Settings) (z : ℤ) (s : Settings)
      → r ≡ ok z
      → f z ≡ ok s
      → ◌>>=ₛ◌ lookup r f ≡ ok s
  bind-run r f z s e k = ap (λ o. ◌>>=ₛ◌ lookup o f) e ∙ k

  default_period : pos 1 ≤ℤ new_config.dead_session_period
  unfolding new_config
  default_period = omega arith

  period_kept :
      (a b c d f : ℤ) (s : Settings)
      → ok (settings_with lookup a b c d f) ≡ ok s
      → pos 1 ≤ℤ b
      → pos 1 ≤ℤ s.dead_session_period
  unfolding settings_with
  period_kept a b c d f s e h = ground arith

  init-ok :
      (parse_duration atoi : Parser) (s : Settings)
      → init lookup parse_duration atoi ≡ ok s
      → AllReadable parse_duration atoi × (pos 1 ≤ℤ s.dead_session_period)
  unfolding init
  init-ok parse_duration atoi s e =
      let (a, ea, ka) = bind-ok _ _ s e in
      let (b, eb, kb) = bind-ok _ _ s ka in
      let (c, ec, kc) = bind-ok _ _ s kb in
      let (d, ed, kd) = bind-ok _ _ s kc in
      let (f, ef, kf) = bind-ok _ _ s kd in
      let (period, positive) =
        period_or-ok parse_duration "DEAD_SESSION_PERIOD" new_config.dead_session_period b
          default_period eb in
      (
        record {
          interval = number_or-ok parse_duration "CLEAN_SESSIONS_INTERVAL" _ a ea;
          period = period;
          idle = number_or-ok atoi "DB_MAX_IDLE_CONNS" _ c ec;
          opened = number_or-ok atoi "DB_MAX_OPEN_CONNS" _ d ed;
          lifetime = number_or-ok parse_duration "DB_CONN_MAX_LIFETIME" _ f ef;
        },
        period_kept a b c d f s kf positive,
      )

  -- `Init` returns settings if and only if each variable for a number or a duration is unset or can be
  -- read, and the period of dead sessions, if it is set, is positive; whenever it returns settings,
  -- the period in them is positive.
  pub init-AllReadable :
      (parse_duration atoi : Parser)
      → (((s : Settings) × (init lookup parse_duration atoi ≡ ok s))
          ↔ AllReadable parse_duration atoi)
        × ((s : Settings) → init lookup parse_duration atoi ≡ ok s → pos 1 ≤ℤ s.dead_session_period)
  unfolding init
  init-AllReadable parse_duration atoi = (
    (
      (λ (s, e). (init-ok parse_duration atoi s e).0),
      λ r.
          let (a, ea) =
            number_or-Readable parse_duration "CLEAN_SESSIONS_INTERVAL"
              new_config.clean_sessions_interval r.interval in
          let (b, eb) =
            period_or-Readable parse_duration "DEAD_SESSION_PERIOD" new_config.dead_session_period
              r.period in
          let (c, ec) =
            number_or-Readable atoi "DB_MAX_IDLE_CONNS" new_config.db_max_idle_conns r.idle in
          let (d, ed) =
            number_or-Readable atoi "DB_MAX_OPEN_CONNS" new_config.db_max_open_conns r.opened in
          let (f, ef) =
            number_or-Readable parse_duration "DB_CONN_MAX_LIFETIME" new_config.db_conn_max_lifetime
              r.lifetime in
          (
            settings_with lookup a b c d f,
            bind-run _ _ a _ ea (
                bind-run _ _ b _ eb
                  (bind-run _ _ c _ ec (bind-run _ _ d _ ed (bind-run _ _ f _ ef refl)))),
          ),
    ),
    λ s e. (init-ok parse_duration atoi s e).1,
  )
