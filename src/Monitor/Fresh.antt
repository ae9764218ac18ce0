-- ===== src/Monitor/Fresh.antt =====
-- After a round in which tokens have changed, the cache of tokens has those of the table.
use gxydb_api.Base.{
  ℕ, ◌+◌, ◌≡◌, refl, ap, sym, ◌∙◌, Bool, true, false, String, List, [], ◌∷◌, Option, none, some,
  arith, ◌==◌, nat_eq, if◌then◌else◌, last?, select, map, any, All,
}
use gxydb_api.Base.Maps.{Map, get, put, get-put}
use gxydb_api.Errors.{Outcome, ok, err, panic}
use gxydb_api.Models.{Gateway}
use gxydb_api.Cache.Laws.{or_else, last-select}
use gxydb_api.World.{Env, World, query}
use gxydb_api.Tokens.Types.{Service, Sync}
use gxydb_api.Tokens.{sync_gateway_tokens}
use gxydb_api.Tokens.Rounds.{Manager, is_live, changes, panics, sync_all-map}
use gxydb_api.V2.{fill_tokens, reload_tokens}
use gxydb_api.Observer.{add_observer, notify_all}
use gxydb_api.Monitor.{registered, token_of, app_notify, opened, written, monitor_round}

module _ (token : Gateway → Outcome String) where
  -- The token of a row can be read.
  abbrev pub Readable : Gateway → Type 0
  Readable g = (t : String) × (token g ≡ ok t)

  abbrev of_row : Option Gateway → Option String → Option String
  of_row none before = before
  of_row (some g) before = elim (token g) [ ok t ↦ some t | err _ ↦ none | panic _ ↦ none ]

  of_row-or_else :
      (o : Option Gateway) (b : Bool) (g : Gateway) (t : String) (before : Option String)
      → token g ≡ ok t
      → of_row (or_else o (if b then some g else none)) before
        ≡ of_row o (if b then some t else before)
  of_row-or_else none true g t before e = ground arith
  of_row-or_else none false g t before e = refl
  of_row-or_else (some h) b g t before e = refl

  fill_tokens-get :
      (id : ℕ) (gs : List Gateway) (m : Map ℕ String)
      → All Readable gs
      → ((fill_tokens token gs m).0 ≡ ok tt)
        × (get id (fill_tokens token gs m).1
            ≡ of_row (last? (select (λ g. g.id == id) gs)) (get id m))
  unfolding fill_tokens
  fill_tokens-get id [] m h = (refl, refl)
  fill_tokens-get id (g ∷ gs) m ((t, e), h) =
      let rest = fill_tokens-get id gs (put g.id t m) h in
      let step : fill_tokens token (g ∷ gs) m ≡ fill_tokens token gs (put g.id t m) =
        ground arith in
      (
        ground (arith, e, rest.0),
        ap (λ (r : Outcome (Unit {0}) × Map ℕ String). get id r.1) step
            ∙ rest.1
            ∙ ap (of_row (last? (select (λ g. g.id == id) gs))) (get-put g.id id t m)
            ∙ sym
                (of_row-or_else (last? (select (λ g. g.id == id) gs)) (g.id == id) g t (get id m) e)
            ∙ ap (λ o. of_row o (get id m)) (sym (last-select (λ g. g.id == id) g gs)),
      )

module _ {C S : Type 0} (env : Env) (sv : Service S) (max_age : ℕ) (stores : ℕ → S)
    (calls : ℕ → ℕ) where
  -- The gateways that a round synchronizes, and what the synchronizations leave.
  abbrev pub live_rows : World C → List (Sync S)
  live_rows w = select (λ s. is_live s.gateway) (map (opened stores calls) (w.db).gateways)

  abbrev pub rows_after : World C → List Gateway
  rows_after w =
      map (written (map (λ s. (sync_gateway_tokens sv max_age s).1) (live_rows w))) (w.db).gateways

  reload_tokens-get :
      (w : World C) (id : ℕ)
      → env.fault w.calls ≡ none
      → All (Readable (token_of sv)) (w.db).gateways
      → let u = (reload_tokens env (token_of sv) w).1 in
        (u.db ≡ w.db)
        × (get id u.cache.gateway_tokens.by_id
            ≡ of_row (token_of sv) (last? (select (λ g. g.id == id) (w.db).gateways)) none)
  unfolding reload_tokens query
  reload_tokens-get w id fine readable =
      let filled = fill_tokens-get (token_of sv) id (w.db).gateways [] readable in
      (ground (arith, fine), ground (arith, fine, filled.1))

  abbrev stored_rows : World C → World C
  stored_rows w = record w { db = record (w.db) { gateways = rows_after w }; calls = w.calls + 1 }

  monitor_round-step :
      (tm : Manager) (w : World C)
      → tm.wip ≡ false
      → env.fault w.calls ≡ none
      → any (panics sv max_age) (live_rows w) ≡ false
      → any (changes sv max_age) (live_rows w) ≡ true
      → monitor_round env sv max_age stores calls registered tm w ≡ (
        ok tt,
        record { wip = false; notified = tm.notified + 1 },
        (reload_tokens env (token_of sv) (stored_rows w)).1,
      )
  unfolding monitor_round app_notify add_observer notify_all
  monitor_round-step tm w idle fine calm changed =
      let synced =
        sync_all-map sv max_age (map (opened stores calls) (w.db).gateways) tm idle calm in
      ground (arith, synced)

  -- After a round in which a synchronization changed tokens, where no other round is under way,
  -- neither of the two queries for gateways fails, none of the synchronizations panics, and the
  -- tokens in the table can be read, the table has what the synchronizations left, and the cache
  -- has for the last gateway of an id its newest token there.
  pub monitor_round-fresh :
      (tm : Manager) (w : World C) (id : ℕ) (g : Gateway) (t : String)
      → tm.wip ≡ false
      → env.fault w.calls ≡ none
      → env.fault (w.calls + 1) ≡ none
      → any (panics sv max_age) (live_rows w) ≡ false
      → any (changes sv max_age) (live_rows w) ≡ true
      → All (Readable (token_of sv)) (rows_after w)
      → last? (select (λ h. h.id == id) (rows_after w)) ≡ some g
      → token_of sv g ≡ ok t
      → let (r, tm', u) = monitor_round env sv max_age stores calls registered tm w in
        (r ≡ ok tt)
        × (tm'.wip ≡ false)
        × ((u.db).gateways ≡ rows_after w)
        × (get id u.cache.gateway_tokens.by_id ≡ some t)
  monitor_round-fresh tm w id g t idle fine fine' calm changed readable last newest =
      let step = monitor_round-step tm w idle fine calm changed in
      let (tables, cached) = reload_tokens-get (stored_rows w) id fine' readable in
      let own : of_row (token_of sv) (some g) none ≡ some t = ground (arith, newest) in
      (
        ap (λ p. p.0) step,
        ap (λ p. p.1.wip) step,
        ap (λ p. p.2.db.gateways) step ∙ ap (λ db. db.gateways) tables,
        ap (λ p. get id p.2.cache.gateway_tokens.by_id) step
            ∙ cached
            ∙ ap (λ o. of_row (token_of sv) o none) last
            ∙ own,
      )
