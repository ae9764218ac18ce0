-- ===== src/Base/Maps.antt =====
-- Go maps as association lists without duplicate keys. The order of the list stands for the order
-- in which `range` yields the entries, which Go leaves open.
use gxydb_api.Base.{
  ◌≡◌, refl, Bool, false, ◌||◌, List, [], ◌∷◌, Option, none, some, arith, Eq, ◌==◌, ==_iff,
  if◌then◌else◌,
}

abbrev pub Map : Type 0 → Type 0 → Type 0
Map K V = List (K × V)

module _ {K V : Type 0} ⦃e : Eq K⦄ where
  abbrev pub get : K → Map K V → Option V
  get k [] = none
  get k ((j, v) ∷ m) = if j == k then some v else get k m

  abbrev pub put : K → V → Map K V → Map K V
  put k v [] = (k, v) ∷ []
  put k v ((key, old) ∷ rest) = if key == k then (k, v) ∷ rest else (key, old) ∷ put k v rest

  abbrev pub del : K → Map K V → Map K V
  del k [] = []
  del k ((j, w) ∷ m) = let rest = del k m in if j == k then rest else (j, w) ∷ rest

  abbrev pub has : K → Map K V → Bool
  has k [] = false
  has k ((j, v) ∷ m) = j == k || has k m

  pub get-put :
      (k j : K) (v : V) (m : Map K V) → get j (put k v m) ≡ (if k == j then some v else get j m)
  get-put k j v [] = refl
  get-put k j v ((i, w) ∷ m) = ground (arith, ==_iff k j, ==_iff i k, ==_iff i j, get-put k j v m)

  pub get-del : (k j : K) (m : Map K V) → get j (del k m) ≡ (if k == j then none else get j m)
  get-del k j [] = ground arith
  get-del k j ((i, w) ∷ m) = ground (arith, ==_iff k j, ==_iff i k, ==_iff i j, get-del k j m)

  -- Every key occurs once.
  abbrev pub IsMap : Map K V → Type 0
  IsMap [] = Unit {0}
  IsMap ((k, v) ∷ m) = (has k m ≡ false) × IsMap m

  pub has-put : (k j : K) (v : V) (m : Map K V) → has j (put k v m) ≡ (k == j || has j m)
  has-put k j v [] = refl
  has-put k j v ((i, w) ∷ m) = ground (arith, ==_iff k j, ==_iff i k, ==_iff i j, has-put k j v m)

  pub put-IsMap : (k : K) (v : V) (m : Map K V) → IsMap m → IsMap (put k v m)
  put-IsMap k v [] h = ground arith
  put-IsMap k v ((i, w) ∷ m) (fresh, h) =
      ground (arith, ==_iff i k, ==_iff k i, has-put k i v m, put-IsMap k v m h)

abbrev pub values : {K V : Type 0} → Map K V → List V
values [] = []
values ((k, v) ∷ m) = v ∷ values m
