-- ===== src/Tokens/Rounds.antt =====
-- domain/gateways.go: `SyncAll`, which synchronizes all gateways in turn and tells the observers.
use gxydb_api.Base.{
  ℕ, ◌+◌, ◌≡◌, Bool, true, false, not, ◌&&◌, ◌||◌, List, [], ◌∷◌, Option, none, some, arith, select,
  map, any, if◌then◌else◌,
}
use gxydb_api.Errors.{Outcome, ok, err, panic}
use gxydb_api.Models.{Gateway}
use gxydb_api.Tokens.Types.{Service, Sync}
use gxydb_api.Tokens.{sync_gateway_tokens}

-- `wip`, and how often the observers were told that tokens changed.
pub record Manager : Type 0 where
  pub wip : Bool
  pub notified : ℕ

abbrev pub is_live : Gateway → Bool
is_live g = not g.disabled && (elim g.removed_at [ none ↦ true | some _ ↦ false ])

module _ {S : Type 0} (sv : Service S) (max_age : ℕ) where
  -- The loop over the gateways, each with what a synchronization works on: an error is logged only.
  unfoldable pub sync_rows : List (Sync S) → Bool → Outcome Bool × List (Sync S)
  sync_rows [] notify = (ok notify, [])
  sync_rows (s ∷ ss) notify =
      let (r, s') = sync_gateway_tokens sv max_age s in
      let (told, rest) = sync_rows ss true in
      let (same, rest') = sync_rows ss notify in
      elim r [
        | ok changed ↦ if changed then (told, s' ∷ rest) else (same, s' ∷ rest')
        | err e ↦ (same, s' ∷ rest')
        | panic p ↦ (panic p, s' ∷ ss)
      ]

  -- `gateways` are the rows of the table, or none if the query fails. The answer ends with the
  -- gateways that a synchronization has left, which are none where there was no round.
  unfoldable pub sync_all :
      Option (List (Sync S)) → Manager → Outcome (Unit {0}) × Manager × List (Sync S)
  sync_all gateways tm = if tm.wip then (ok tt, tm, []) else (elim gateways [
    | none ↦ (ok tt, record tm { wip = false }, [])
    | some ss ↦
        let (r, ss') = sync_rows (select (λ s. is_live s.gateway) ss) false in
        elim r [
          | ok notify ↦ (
            ok tt,
            record { wip = false; notified = if notify then tm.notified + 1 else tm.notified },
            ss',
          )
          | err e ↦ (err e, record tm { wip = false }, ss')
          | panic p ↦ (panic p, record tm { wip = false }, ss')
        ]
  ])

  abbrev pub changes : Sync S → Bool
  changes s = elim (sync_gateway_tokens sv max_age s).0 [
    | ok changed ↦ changed
    | err _ ↦ false
    | panic _ ↦ false
  ]

  abbrev pub panics : Sync S → Bool
  panics s = elim (sync_gateway_tokens sv max_age s).0 [ panic _ ↦ true | _ ↦ false ]

  sync_rows-map :
      (ss : List (Sync S)) (notify : Bool)
      → any panics ss ≡ false
      → sync_rows ss notify
        ≡ (ok (notify || any changes ss), map (λ s. (sync_gateway_tokens sv max_age s).1) ss)
  unfolding sync_rows
  sync_rows-map [] notify calm = ground arith
  sync_rows-map (s ∷ ss) notify calm =
      ground (arith, sync_rows-map ss true, sync_rows-map ss notify)

  -- Where no other round is under way and no synchronization panics, `SyncAll` synchronizes every
  -- live gateway, whether or not another fails, and tells the observers once if the tokens of one
  -- changed, and not otherwise; then another round may begin.
  pub sync_all-map :
      (ss : List (Sync S)) (tm : Manager)
      → tm.wip ≡ false
      → any panics (select (λ s. is_live s.gateway) ss) ≡ false
      → let live = select (λ s. is_live s.gateway) ss in
        sync_all (some ss) tm ≡ (
          ok tt,
          record {
            wip = false;
            notified = if any changes live then tm.notified + 1 else tm.notified;
          },
          map (λ s. (sync_gateway_tokens sv max_age s).1) live,
        )
  unfolding sync_all
  sync_all-map ss tm idle calm =
      ground (arith, sync_rows-map (select (λ s. is_live s.gateway) ss) false calm)
