-- ===== src/Tokens/Store.antt =====
-- What the steps of a synchronization do to the store on the gateway and to the row.
use gxydb_api.Base.{
  ℕ, ◌+◌, ◌≡◌, refl, Bool, true, false, not, ◌&&◌, ◌||◌, String, List, [], ◌∷◌, inr, none, arith,
  ◌==◌, string_eq, elem,
}
use gxydb_api.Errors.{ok}
use gxydb_api.World.{pure, >>=-eq-ok, wrapping, wrapping-eq-ok}
use gxydb_api.Tokens.Types.{GatewayToken, Service, Sync, Stores}
use gxydb_api.Tokens.{plugins_of, create_token, remove_token, add_all, remove_all, generate}

module _ {S : Type 0} (sv : Service S) where
  -- No call fails.
  abbrev pub NoFaults : Type 0
  NoFaults = (n : ℕ) → sv.fault n ≡ none

  abbrev pub on_store : String → Sync S → Bool
  on_store u s = elem u (sv.tokens s.store)

  -- The row and the gateway that the manager holds are untouched.
  pub record SameRow (s s' : Sync S) : Type 0 where
    pub gateway : s'.gateway ≡ s.gateway
    pub stored : s'.stored ≡ s.stored

  pub SameRow-trans : (a b c : Sync S) → SameRow a b → SameRow b c → SameRow a c
  SameRow-trans a b c h k = ground arith

  pub create_token-SameRow : (t : String) (s : Sync S) → SameRow s (create_token sv t s).1
  unfolding create_token
  create_token-SameRow t s = ground arith

  pub create_token-cipher :
      (t : String) (s : Sync S) (token : GatewayToken) (s' : Sync S)
      → create_token sv t s ≡ (ok token, s')
      → sv.encrypt (s.calls + 1 + 1 + 1) t ≡ inr token.token
  unfolding create_token
  create_token-cipher t s token s' e = ground arith

  create_token-made :
      (t : String) (s : Sync S) (token : GatewayToken) (s' : Sync S)
      → create_token sv t s ≡ (ok token, s')
      → token ≡ record {
        token = token.token;
        plugins = plugins_of s.gateway.kind;
        created_at = sv.now s.calls;
      }
  unfolding create_token
  create_token-made t s token s' e = ground arith

  pub remove_token-ok : (t : String) (s : Sync S) → NoFaults → (remove_token sv t s).0 ≡ ok tt
  unfolding remove_token
  remove_token-ok t s fine = ground (arith, fine s.calls, fine (s.calls + 1))

  pub remove_token-SameRow : (t : String) (s : Sync S) → SameRow s (remove_token sv t s).1
  unfolding remove_token
  remove_token-SameRow t s = ground arith

  pub add_all-SameRow :
      (ts : List String) (s s' : Sync S) → add_all sv ts s ≡ (ok tt, s') → SameRow s s'
  unfolding add_all
  add_all-SameRow [] s s' e = ground arith
  add_all-SameRow (t ∷ ts) s s' e =
      let (token, made, later) =
        >>=-eq-ok (wrapping "create token [existing]" (create_token sv t)) (λ _. add_all sv ts) s
          e in
      SameRow-trans s (create_token sv t s).1 s' (create_token-SameRow t s)
        (ground (arith, add_all-SameRow ts (create_token sv t s).1 s'))

  pub remove_all-SameRow : (ts : List String) (s : Sync S) → SameRow s (remove_all sv ts s).1
  unfolding remove_all
  remove_all-SameRow [] s = record { gateway = refl; stored = refl }
  remove_all-SameRow (t ∷ ts) s =
      ground (arith, remove_token-SameRow t s, remove_all-SameRow ts (remove_token sv t s).1)

  pub remove_all-ok : (ts : List String) (s : Sync S) → NoFaults → (remove_all sv ts s).0 ≡ ok tt
  unfolding remove_all
  remove_all-ok [] s fine = refl
  remove_all-ok (t ∷ ts) s fine =
      ground (arith, remove_token-ok t s fine, remove_all-ok ts (remove_token sv t s).1 fine)

  -- A generation makes a token exactly if one is due; its cipher is that of the new text.
  pub generate-cipher :
      (s s' : Sync S) (made : List GatewayToken)
      → generate sv true s ≡ (ok made, s')
      → (cipher : String) × (n : ℕ) × (made
          ≡ record {
            token = cipher;
            plugins = plugins_of s.gateway.kind;
            created_at = sv.now s.calls;
          }
            ∷ [])
        × (sv.encrypt n (sv.fresh_uid s.calls) ≡ inr cipher)
  unfolding generate
  generate-cipher s s' made e =
      let (token, created, later) =
        >>=-eq-ok (wrapping "create token" (create_token sv (sv.fresh_uid s.calls)))
          (λ t. pure (t ∷ [])) s e in
      let run = wrapping-eq-ok "create token" (create_token sv (sv.fresh_uid s.calls)) s created in
      (
        token.token,
        s.calls + 1 + 1 + 1,
        ground (arith, create_token-made (sv.fresh_uid s.calls) s token _ run),
        create_token-cipher (sv.fresh_uid s.calls) s token _
            (wrapping-eq-ok "create token" (create_token sv (sv.fresh_uid s.calls)) s created),
      )

  pub generate-none :
      (s s' : Sync S) (made : List GatewayToken) → generate sv false s ≡ (ok made, s') → made ≡ []
  unfolding generate
  generate-none s s' made e = ground arith

  pub generate-SameRow :
      (due : Bool) (s s' : Sync S) (made : List GatewayToken)
      → generate sv due s ≡ (ok made, s')
      → SameRow s s'
  unfolding generate
  generate-SameRow false s s' made e = ground arith
  generate-SameRow true s s' made e = ground (arith, create_token-SameRow (sv.fresh_uid s.calls) s)

  module _ (laws : Stores sv) where
    pub create_token-store :
        (u t : String) (s : Sync S) (token : GatewayToken) (s' : Sync S)
        → create_token sv t s ≡ (ok token, s')
        → on_store u s' ≡ (u == t || on_store u s)
    unfolding create_token
    create_token-store u t s token s' e =
        ground (arith, laws.added t (plugins_of s.gateway.kind) s.store u)

    pub remove_token-store :
        (u t : String) (s : Sync S)
        → NoFaults
        → on_store u (remove_token sv t s).1 ≡ (not (u == t) && on_store u s)
    unfolding remove_token
    remove_token-store u t s fine =
        ground (arith, fine s.calls, fine (s.calls + 1), laws.removed t s.store u)

    pub add_all-store :
        (u : String) (ts : List String) (s s' : Sync S)
        → add_all sv ts s ≡ (ok tt, s')
        → on_store u s' ≡ (elem u ts || on_store u s)
    unfolding add_all
    add_all-store u [] s s' e = ground arith
    add_all-store u (t ∷ ts) s s' e =
        let (token, made, later) =
          >>=-eq-ok (wrapping "create token [existing]" (create_token sv t)) (λ _. add_all sv ts) s
            e in
        let first =
          create_token-store u t s token _
            (wrapping-eq-ok "create token [existing]" (create_token sv t) s made) in
        ground (arith, first, add_all-store u ts _ s' later)

    pub remove_all-store :
        (u : String) (ts : List String) (s : Sync S)
        → NoFaults
        → on_store u (remove_all sv ts s).1 ≡ (not (elem u ts) && on_store u s)
    unfolding remove_all
    remove_all-store u [] s fine = refl
    remove_all-store u (t ∷ ts) s fine = ground (
      arith,
      remove_token-ok t s fine,
      remove_token-store u t s fine,
      remove_all-store u ts (remove_token sv t s).1 fine,
    )

    pub generate-store :
        (u : String) (due : Bool) (s s' : Sync S) (made : List GatewayToken)
        → generate sv due s ≡ (ok made, s')
        → on_store u s' ≡ ((due && u == sv.fresh_uid s.calls) || on_store u s)
    unfolding generate
    generate-store u false s s' made e = ground arith
    generate-store u true s s' made e =
        let (token, created, later) =
          >>=-eq-ok (wrapping "create token" (create_token sv (sv.fresh_uid s.calls)))
            (λ t. pure (t ∷ [])) s e in
        ground (
          arith,
          create_token-store u (sv.fresh_uid s.calls) s token _
              (wrapping-eq-ok "create token" (create_token sv (sv.fresh_uid s.calls)) s created),
        )
