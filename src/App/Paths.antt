-- ===== src/App/Paths.antt =====
-- The paths under which no check is left out: a path that begins like the fixed part of a template.
use Prim.Native.Char.{Char, code}
use text.Mathlib.Text.{starts_with}
use text.Mathlib.TextEquality.{starts_with_iff}
use gxydb_api.Base.{
  ℕ, ◌≡◌, ◌≢◌, refl, ap, sym, ◌∙◌, Bool, true, false, not, ◌||◌, String, List, [], ◌∷◌, ◌++◌,
  Option, none, some, arith, ◌==◌, ==_iff, nat_eq, string_eq, Bool-cases, inl, inr,
}
use gxydb_api.Base.Text.{chars}
use gxydb_api.Network.Forwarded.{chars-append}
use gxydb_api.Auth.{is_open_path, is_event_path}

-- The character after the slash.
abbrev pub second? : List Char → Option ℕ
second? [] = none
second? (c ∷ []) = none
second? (c ∷ d ∷ s) = some (code d)

second?-append : (p q : List Char) (k : ℕ) → second? p ≡ some k → second? (p ++ q) ≡ some k
second?-append [] q k h = absurd (ground arith)
second?-append (c ∷ []) q k h = absurd (ground arith)
second?-append (c ∷ d ∷ p) q k h = h

second?-prefix :
    (path start : String) (k : ℕ)
    → starts_with path start ≡ true
    → second? (chars start) ≡ some k
    → second? (chars path) ≡ some k
second?-prefix path start k h e =
    let (rest, whole) = (starts_with_iff path start).0 h in
    ap (λ t. second? (chars t)) (sym whole)
    ∙ ap second? (chars-append start rest)
    ∙ second?-append (chars start) (chars rest) k e

other_text :
    (path t : String) (k j : ℕ)
    → second? (chars path) ≡ some k
    → second? (chars t) ≡ some j
    → k ≢ j
    → (path == t) ≡ false
other_text path t k j h e differ = elim (Bool-cases (path == t)) [
  | inr other ↦ other
  | inl same ↦
      let found : some k ≡ some j =
        sym h ∙ ap (λ u. second? (chars u)) ((==_iff path t).0 same) ∙ e in
      absurd (differ (cc found))
]

other_start :
    (path start : String) (k j : ℕ)
    → second? (chars path) ≡ some k
    → second? (chars start) ≡ some j
    → k ≢ j
    → starts_with path start ≡ false
other_start path start k j h e differ = elim (Bool-cases (starts_with path start)) [
  | inr other ↦ other
  | inl begins ↦
      let found : some k ≡ some j = sym h ∙ second?-prefix path start j begins e in
      absurd (differ (cc found))
]

-- No path that is open or a gateway's begins like this.
abbrev pub is_checked : Option ℕ → Bool
is_checked none = false
is_checked (some k) = not (k == b'e' || k == b'p' || k == b'h' || k == b'm')

pub closed_paths :
    (path start : String)
    → starts_with path start ≡ true
    → is_checked (second? (chars start)) ≡ true
    → (is_open_path path ≡ false) × (is_event_path path ≡ false)
closed_paths path start begins checked = split (second? (chars start)) refl
  where
    split :
        (o : Option ℕ)
        → second? (chars start) ≡ o
        → (is_open_path path ≡ false) × (is_event_path path ≡ false)
    split none e = absurd (ground (arith, e))
    split (some k) e =
        let h = second?-prefix path start k begins e in
        let safe : not (k == b'e' || k == b'p' || k == b'h' || k == b'm') ≡ true =
          ap is_checked (sym e) ∙ checked in
        (
          ground (
            arith,
            other_text path "/health_check" k b'h' h refl (λ same. ground arith),
            other_text path "/metrics" k b'm' h refl (λ same. ground arith),
          ),
          ground (
            arith,
            other_text path "/event" k b'e' h refl (λ same. ground arith),
            other_start path "/protocol" k b'p' h refl (λ same. ground arith),
          ),
        )
