-- ===== src/Tokens/Plan/Laws.antt =====
-- Which tokens a plan names, as functions of the row's tokens and of those on the gateway.
use gxydb_api.Base.{
  ℕ, ◌≡◌, refl, sym, Bool, not, ◌&&◌, ◌||◌, String, List, [], ◌∷◌, ◌++◌, arith, ◌==◌, ==_iff,
  string_eq, elem, any, select, All, map,
}
use mathlib.Core.List.{append_assoc, append-nil}
use gxydb_api.Errors.{Outcome, ok}
use gxydb_api.Tokens.Types.{GatewayToken}
use gxydb_api.Tokens.Plan.{
  TokenPlan, is_expired, plan_token, plan_tokens, remove_unknown, token_set, append_if,
}

-- A token of the row with its plain text.
abbrev pub Plain : Type 0
Plain = GatewayToken × String

abbrev pub Decrypts : (String → Outcome String) → Plain → Type 0
Decrypts decrypt (t, p) = decrypt t.token ≡ ok p

pub elem-append : (u : String) (xs ys : List String) → elem u (xs ++ ys) ≡ (elem u xs || elem u ys)
elem-append u [] ys = refl
elem-append u (x ∷ xs) ys = ground (arith, elem-append u xs ys)

pub elem-token_set : (u : String) (ts : List String) → elem u (token_set ts) ≡ elem u ts
unfolding token_set
elem-token_set u [] = refl
elem-token_set u (t ∷ ts) = ground (arith, elem-token_set u ts, elem-token_set t ts, ==_iff u t)

module _ (max_age now : ℕ) where
  abbrev pub is_kept : Plain → Bool
  is_kept (t, p) = not (is_expired max_age now t)

  abbrev pub is_valid : List Plain → String → Bool
  is_valid ps u = any (λ tp. is_kept tp && u == tp.1) ps

  abbrev pub is_stale : List Plain → String → Bool
  is_stale ps u = any (λ tp. not (is_kept tp) && u == tp.1) ps

  module _ (gw : List String) where
    abbrev pub plan_all : List Plain → TokenPlan → TokenPlan
    plan_all [] p = p
    plan_all ((t, x) ∷ ps) p = plan_all ps (plan_token max_age now gw t x p)

    pub plan_tokens-plan_all :
        (decrypt : String → Outcome String) (ps : List Plain) (p : TokenPlan)
        → All (Decrypts decrypt) ps
        → plan_tokens max_age now gw decrypt (map (λ tp. tp.0) ps) p ≡ ok (plan_all ps p)
    unfolding plan_tokens
    plan_tokens-plan_all decrypt [] p h = refl
    plan_tokens-plan_all decrypt ((t, x) ∷ ps) p (e, h) =
        rw e (plan_tokens-plan_all decrypt ps (plan_token max_age now gw t x p) h)

    -- One lemma for each list of the plan.
    pub remove-plan_all :
        (u : String) (ps : List Plain) (p : TokenPlan)
        → elem u (plan_all ps p).remove_on_gateway
          ≡ (elem u p.remove_on_gateway || (elem u gw && is_stale ps u))
    unfolding plan_token
    remove-plan_all u [] p = ground arith
    remove-plan_all u ((t, x) ∷ ps) p = ground (
      arith,
      remove-plan_all u ps (plan_token max_age now gw t x p),
      elem-append u p.remove_on_gateway (x ∷ []),
      ==_iff u x,
    )

    pub add-plan_all :
        (u : String) (ps : List Plain) (p : TokenPlan)
        → elem u (plan_all ps p).add_on_gateway
          ≡ (elem u p.add_on_gateway || (not (elem u gw) && is_valid ps u))
    unfolding plan_token
    add-plan_all u [] p = ground arith
    add-plan_all u ((t, x) ∷ ps) p = ground (
      arith,
      add-plan_all u ps (plan_token max_age now gw t x p),
      elem-append u p.add_on_gateway (x ∷ []),
      ==_iff u x,
    )

    pub known-plan_all :
        (u : String) (ps : List Plain) (p : TokenPlan)
        → elem u (plan_all ps p).known ≡ (elem u p.known || (is_valid ps u || is_stale ps u))
    unfolding plan_token
    known-plan_all u [] p = ground arith
    known-plan_all u ((t, x) ∷ ps) p =
        ground (arith, known-plan_all u ps (plan_token max_age now gw t x p))

    pub next-plan_all :
        (ps : List Plain) (p : TokenPlan)
        → (plan_all ps p).next_db_tokens ≡ p.next_db_tokens ++ map (λ tp. tp.0) (select is_kept ps)
    unfolding plan_token
    next-plan_all [] p = sym (append-nil p.next_db_tokens)
    next-plan_all ((t, x) ∷ ps) p = ground (
      arith,
      next-plan_all ps (plan_token max_age now gw t x p),
      append_assoc p.next_db_tokens (t ∷ []) (map (λ tp. tp.0) (select is_kept ps)),
    )

    pub changed-plan_all :
        (ps : List Plain) (p : TokenPlan)
        → (plan_all ps p).changed ≡ (p.changed || any (λ tp. not (is_kept tp)) ps)
    unfolding plan_token
    changed-plan_all [] p = ground arith
    changed-plan_all ((t, x) ∷ ps) p =
        ground (arith, changed-plan_all ps (plan_token max_age now gw t x p))

pub remove-remove_unknown :
    (u : String) (gs : List String) (p : TokenPlan)
    → elem u (remove_unknown gs p).remove_on_gateway
      ≡ (elem u p.remove_on_gateway || (elem u gs && not (elem u p.known)))
unfolding remove_unknown
remove-remove_unknown u [] p = ground arith
remove-remove_unknown u (g ∷ gs) p = ground (
  arith,
  remove-remove_unknown u gs
      (record p { remove_on_gateway = append_if (not (elem g p.known)) p.remove_on_gateway g }),
  elem-append u p.remove_on_gateway (g ∷ []),
  ==_iff u g,
)

-- It changes nothing else.
pub rest-remove_unknown :
    (gs : List String) (p : TokenPlan)
    → ((remove_unknown gs p).add_on_gateway ≡ p.add_on_gateway)
      × ((remove_unknown gs p).next_db_tokens ≡ p.next_db_tokens)
      × ((remove_unknown gs p).changed ≡ p.changed)
unfolding remove_unknown
rest-remove_unknown [] p = (refl, refl, refl)
rest-remove_unknown (g ∷ gs) p = rest-remove_unknown gs _
