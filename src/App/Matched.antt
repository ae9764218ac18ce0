-- ===== src/App/Matched.antt =====
-- What is known of the route that the router finds for a request.
use Prim.Native.Char.{Char, code}
use text.Mathlib.Text.{starts_with}
use gxydb_api.Base.{
  nat_eq, if◌then◌else◌, subst, [], ◌∷◌, ◌++◌, any, ◌≡◌, Bool, true, false, String, List, inr,
  arith, ◌==◌,
}
use gxydb_api.Base.Maps.{Map}
use gxydb_api.Base.Text.{chars, of_chars}
use gxydb_api.App.{Route, takes, routes, Server}

abbrev upto_brace : List Char → List Char
upto_brace [] = []
upto_brace (c ∷ s) = let rest = upto_brace s in if code c == b'{' then [] else c ∷ rest

-- The text of a template before its first variable.
abbrev pub fixed_part : String → String
fixed_part template = of_chars (upto_brace (chars template))

-- What the router's documentation says of the route that it finds: it is one of the routes, it takes
-- the method of the request, and the path begins with what the template has before its variables.
pub record Matched (method path : String) (found : Route) : Type 0 where
  pub front : List Route
  pub back : List Route
  pub listed : routes ≡ front ++ found ∷ back
  pub same_method : takes found method ≡ true
  pub under : starts_with path (fixed_part found.template) ≡ true

abbrev pub RouterWorks : {Token C : Type 0} → Server Token C → Type 0
RouterWorks s =
    (method path : String) (found : Route) (vars : Map String String)
    → s.find_route routes method path ≡ inr (found, vars)
    → Matched method path found

any-middle :
    (p : Route → Bool) (front back : List Route) (found : Route)
    → any p (front ++ found ∷ back) ≡ false
    → p found ≡ false
any-middle p [] back found h = ground arith
any-middle p (r ∷ front) back found h = any-middle p front back found (ground arith)

-- What holds of no route does not hold of the one that is found.
pub Matched-not :
    (p : Route → Bool) (method path : String) (found : Route)
    → any p routes ≡ false
    → Matched method path found
    → p found ≡ false
Matched-not p method path found none_of m =
    any-middle p m.front m.back found (subst (λ rs. any p rs ≡ false) m.listed none_of)
