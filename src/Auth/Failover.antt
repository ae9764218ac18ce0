-- ===== src/Auth/Failover.antt =====
-- `FailoverOIDCTokenVerifier` of middleware/auth.go. The verifiers of the issuers, and making one
-- from an issuer's address, are the library's.
use gxydb_api.Base.{
  ◌≡◌, ◌≢◌, refl, String, List, [], ◌∷◌, ◌++◌, ◌⊎◌, inl, inr, Option, none, some, ap, Either-cases,
  All,
}
use gxydb_api.Errors.{Error, wrap}
use gxydb_api.World.{Try}

-- `Verify` of one issuer.
abbrev pub IssuerVerifier : Type 0 → Type 0
IssuerVerifier Token = String → Try Token

-- `NewFailoverOIDCTokenVerifier`: one verifier for each issuer, or the error of the first that has
-- none.
unfoldable pub new_failover :
    {Token : Type 0}
    → (String → Try (IssuerVerifier Token))
    → List String
    → Try (List (IssuerVerifier Token))
new_failover new_provider [] = inr []
new_failover new_provider (url ∷ urls) =
    let rest = new_failover new_provider urls in
    elim (new_provider url) [
      | inl e ↦ inl (wrap e "oidc.NewProvider")
      | inr verifier ↦ elim rest [ inl e ↦ inl e | inr verifiers ↦ inr (verifier ∷ verifiers) ]
    ]

-- The loop of `Verify`, with the error of the last issuer that refused.
unfoldable pub verify_from :
    {Token : Type 0}
    → List (IssuerVerifier Token)
    → String
    → Option Error
    → Option Token × Option Error
verify_from [] token error = (none, error)
verify_from (verifier ∷ verifiers) token error =
    let rest = λ (e : Error). verify_from verifiers token (some e) in
    elim (verifier token) [ inr verified ↦ (some verified, none) | inl e ↦ rest e ]

-- `Verify`
unfoldable pub verify :
    {Token : Type 0} → List (IssuerVerifier Token) → String → Option Token × Option Error
verify verifiers token = verify_from verifiers token none

-- An issuer has accepted the token, and those before it have refused.
pub record Accepted {Token : Type 0} (verifiers : List (IssuerVerifier Token)) (token : String)
    (verified : Token) : Type 0 where
  pub before : List (IssuerVerifier Token)
  pub issuer : IssuerVerifier Token
  pub after : List (IssuerVerifier Token)
  pub in_order : verifiers ≡ before ++ issuer ∷ after
  pub refused : All (λ v. (e : Error) × (v token ≡ inl e)) before
  pub accepts : issuer token ≡ inr verified

-- All issuers have refused the token, the last with the error.
pub record Refused {Token : Type 0} (verifiers : List (IssuerVerifier Token)) (token : String)
    (error : Error) : Type 0 where
  pub before : List (IssuerVerifier Token)
  pub issuer : IssuerVerifier Token
  pub in_order : verifiers ≡ before ++ issuer ∷ []
  pub refused : All (λ v. (e : Error) × (v token ≡ inl e)) before
  pub refuses : issuer token ≡ inl error

module _ {Token : Type 0} where
  -- The first issuer that accepts decides, and the last that refuses if none does.
  abbrev pub Decided : List (IssuerVerifier Token) → String → Option Token × Option Error → Type 0
  Decided verifiers token r =
      ((t : Token) × (r ≡ (some t, none)) × Accepted verifiers token t)
      ⊎ ((e : Error) × (r ≡ (none, some e)) × Refused verifiers token e)

  Decided-cons :
      (verifier : IssuerVerifier Token) (verifiers : List (IssuerVerifier Token)) (token : String)
      (r : Option Token × Option Error)
      → (e : Error) × (verifier token ≡ inl e)
      → Decided verifiers token r
      → Decided (verifier ∷ verifiers) token r
  Decided-cons verifier verifiers token r refuses (inl (t, same, a)) = inl (
    t,
    same,
    record {
      before = verifier ∷ a.before;
      issuer = a.issuer;
      after = a.after;
      in_order = ap (λ vs. verifier ∷ vs) a.in_order;
      refused = (refuses, a.refused);
      accepts = a.accepts;
    },
  )
  Decided-cons verifier verifiers token r refuses (inr (e, same, a)) = inr (
    e,
    same,
    record {
      before = verifier ∷ a.before;
      issuer = a.issuer;
      in_order = ap (λ vs. verifier ∷ vs) a.in_order;
      refused = (refuses, a.refused);
      refuses = a.refuses;
    },
  )

  Decided-accepts :
      (verifier : IssuerVerifier Token) (verifiers : List (IssuerVerifier Token)) (token : String)
      (t : Token)
      → verifier token ≡ inr t
      → Decided (verifier ∷ verifiers) token (some t, none)
  Decided-accepts verifier verifiers token t accepts = inl (
    t,
    refl,
    record {
      before = [];
      issuer = verifier;
      after = verifiers;
      in_order = refl;
      refused = tt;
      accepts = accepts;
    },
  )

  Decided-refuses :
      (verifier : IssuerVerifier Token) (token : String) (e : Error)
      → verifier token ≡ inl e
      → Decided (verifier ∷ []) token (none, some e)
  Decided-refuses verifier token e refuses = inr (
    e,
    refl,
    record { before = []; issuer = verifier; in_order = refl; refused = tt; refuses = refuses },
  )

  verify_from-Decided :
      (verifier : IssuerVerifier Token) (verifiers : List (IssuerVerifier Token)) (token : String)
      (error : Option Error)
      → Decided (verifier ∷ verifiers) token (verify_from (verifier ∷ verifiers) token error)
  unfolding verify_from
  verify_from-Decided verifier [] token error = elim (Either-cases (verifier token)) [
    | inr (t, accepts) ↦ rw accepts (Decided-accepts verifier [] token t accepts)
    | inl (e, refuses) ↦ rw refuses (Decided-refuses verifier token e refuses)
  ]
  verify_from-Decided verifier (second ∷ verifiers) token error =
      elim (Either-cases (verifier token)) [
        | inr (t, accepts) ↦
            rw accepts (Decided-accepts verifier (second ∷ verifiers) token t accepts)
        | inl (e, refuses) ↦ rw refuses (
            Decided-cons verifier (second ∷ verifiers) token
              (verify_from (second ∷ verifiers) token (some e)) (e, refuses)
              (verify_from-Decided second verifiers token (some e)))
      ]

  -- Where there is an issuer, the token is verified by the first issuer that accepts it, and if all
  -- refuse it, there is none and the error is that of the last.
  pub verify-Decided :
      (verifiers : List (IssuerVerifier Token)) (token : String)
      → verifiers ≢ []
      → Decided verifiers token (verify verifiers token)
  unfolding verify
  verify-Decided [] token h = absurd (h refl)
  verify-Decided (verifier ∷ verifiers) token h = verify_from-Decided verifier verifiers token none
