-- ===== src/Auth/Roles.antt =====
-- The roles in a token: `IDTokenClaims` of middleware/auth.go and the role names of
-- common/consts.go.
use gxydb_api.Base.{
  ◌≡◌, refl, ◌||◌, any, Bool, true, false, String, List, [], ◌∷◌, Option, none, some, string_eq,
  elem, if◌then◌else◌, arith, ==_iff,
}
use gxydb_api.Base.Maps.{Map, put, has, has-put}

-- `realm_access.roles`, which may be absent, and the cache that `initRoleMap` fills once.
pub record IdTokenClaims : Type 0 where
  pub realm_roles : List String
  pub roles_map : Option (Map String (Unit {0}))

unfoldable pub fill_roles : List String → Map String (Unit {0}) → Map String (Unit {0})
fill_roles [] m = m
fill_roles (r ∷ roles) m = fill_roles roles (put r tt m)

unfoldable pub init_role_map : IdTokenClaims → Map String (Unit {0})
init_role_map c = elim c.roles_map [ some m ↦ m | none ↦ fill_roles c.realm_roles [] ]

unfoldable pub any_in : List String → Map String (Unit {0}) → Bool
any_in [] m = false
any_in (role ∷ roles) m = let rest = any_in roles m in if has role m then true else rest

unfoldable pub has_any_role : List String → IdTokenClaims → Bool
has_any_role roles c = any_in roles (init_role_map c)

abbrev pub role_shidur : String
role_shidur = "gxy_shidur"

abbrev pub role_admin : String
role_admin = "gxy_admin"

abbrev pub role_root : String
role_root = "gxy_root"

abbrev pub all_roles : List String
all_roles =
    "gxy_guest" ∷ "gxy_user" ∷ role_shidur ∷ "gxy_sndman" ∷ "gxy_viewer" ∷ role_admin ∷ role_root
    ∷ []

has-fill_roles :
    (role : String) (roles : List String) (m : Map String (Unit {0}))
    → has role (fill_roles roles m) ≡ (elem role roles || has role m)
unfolding fill_roles
has-fill_roles role [] m = refl
has-fill_roles role (r ∷ roles) m = ground (
  arith,
  has-fill_roles role roles (put r tt m),
  has-put r role tt m,
  ==_iff r role,
  ==_iff role r,
)

any_in-fill_roles :
    (roles held : List String)
    → any_in roles (fill_roles held []) ≡ any (λ role. elem role held) roles
unfolding any_in
any_in-fill_roles [] held = refl
any_in-fill_roles (role ∷ roles) held =
    ground (arith, has-fill_roles role held [], any_in-fill_roles roles held)

-- For claims as they are decoded, before the map of roles is filled, `HasAnyRole` answers whether
-- one of the roles asked for is among the roles in the token.
pub has_any_role-any :
    (roles : List String) (c : IdTokenClaims)
    → c.roles_map ≡ none
    → has_any_role roles c ≡ any (λ role. elem role c.realm_roles) roles
unfolding has_any_role init_role_map
has_any_role-any roles c h = rw (h, init_role_map) (any_in-fill_roles roles c.realm_roles)
