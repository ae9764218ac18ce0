-- ===== src/V1/Active.antt =====
-- Which sessions a room is made of: of each user the one that was active last.
use gxydb_api.Base.{
  ℕ, ◌≤◌, ◌≡◌, refl, sym, subst, ap, ◌∙◌, ◌⊎◌, inl, inr, List, [], ◌∷◌, some, arith, ◌==◌, ==_iff,
  nat_eq, if◌then◌else◌, ltb, All, Option-cases, Bool-cases,
}
use gxydb_api.Base.Maps.{Map, get, put, get-put, IsMap, put-IsMap}
use gxydb_api.V1.Rooms.{Loaded, active_at, keep_latest, latest_from, latest_by_user}

-- An item of the list of which P holds.
abbrev pub Some : {A : Type 0} → (A → Type 0) → List A → Type 0
Some P [] = ⊥
Some P (x ∷ xs) = P x ⊎ Some P xs

-- The entry of a user, if there is one, is the user's, and was active no earlier than `l`.
abbrev pub Covers : Map ℕ Loaded → Loaded → Type 0
Covers m l =
    (t : Loaded) × (get l.session.user_id m ≡ some t)
    × (t.session.user_id ≡ l.session.user_id)
    × (active_at l.session ≤ active_at t.session)

abbrev pub Entries : (ℕ → Loaded → Type 0) → Map ℕ Loaded → Type 0
Entries Q m = All (λ (k, t). Q k t) m

abbrev Owned : ℕ → Loaded → Type 0
Owned k t = t.session.user_id ≡ k

put-Entries :
    (Q : ℕ → Loaded → Type 0) (k : ℕ) (l : Loaded) (m : Map ℕ Loaded)
    → Q k l
    → Entries Q m
    → Entries Q (put k l m)
put-Entries Q k l [] q h = (q, tt)
put-Entries Q k l ((j, t) ∷ m) q (p, h) = elim (Bool-cases (j == k)) [
  | inl same ↦
      subst (λ b. Entries Q (if b then (k, l) ∷ m else (j, t) ∷ put k l m)) (sym same) (q, h)
  | inr other ↦
      subst (λ b. Entries Q (if b then (k, l) ∷ m else (j, t) ∷ put k l m)) (sym other)
        (p, put-Entries Q k l m q h)
]

get-Entries :
    (Q : ℕ → Loaded → Type 0) (k : ℕ) (l : Loaded) (m : Map ℕ Loaded)
    → Entries Q m
    → get k m ≡ some l
    → Q k l
get-Entries Q k l [] h e = absurd (ground arith)
get-Entries Q k l ((j, t) ∷ m) (q, h) e = elim (Bool-cases (j == k)) [
  | inl same ↦
      let here : t ≡ l = ground arith in
      subst (λ i. Q i l) ((==_iff j k).0 same) (subst (Q j) here q)
  | inr other ↦ get-Entries Q k l m h (ground arith)
]

Kept : Loaded → Map ℕ Loaded → Type 0
Kept l m =
    (keep_latest l m ≡ m)
    × (s : Loaded) × (get l.session.user_id m ≡ some s)
    × (active_at l.session ≤ active_at s.session)

Replaced : Loaded → Map ℕ Loaded → Type 0
Replaced l m =
    (keep_latest l m ≡ put l.session.user_id l m)
    × ((s : Loaded) → get l.session.user_id m ≡ some s → active_at s.session ≤ active_at l.session)

keep_latest-cases : (l : Loaded) (m : Map ℕ Loaded) → Kept l m ⊎ Replaced l m
unfolding Kept Replaced
keep_latest-cases l m = elim (Option-cases (get l.session.user_id m)) [
  | inl fresh ↦ inr (ground (arith, fresh), λ s e. absurd (ground (arith, fresh)))
  | inr (t, there) ↦ elim (Bool-cases (ltb (active_at t.session) (active_at l.session))) [
    | inl newer ↦ inr (ground (arith, there, newer), λ s e. ground (arith, there))
    | inr older ↦ inl (ground (arith, there, older), t, there, ground arith)
  ]
]

keep_latest-Entries :
    (Q : ℕ → Loaded → Type 0) (l : Loaded) (m : Map ℕ Loaded)
    → Q l.session.user_id l
    → Entries Q m
    → Entries Q (keep_latest l m)
unfolding Kept Replaced
keep_latest-Entries Q l m q h = elim (keep_latest-cases l m) [
  | inl (same, _, _, _) ↦ subst (Entries Q) (sym same) h
  | inr (new, _) ↦ subst (Entries Q) (sym new) (put-Entries Q l.session.user_id l m q h)
]

keep_latest-IsMap : (l : Loaded) (m : Map ℕ Loaded) → IsMap m → IsMap (keep_latest l m)
unfolding Kept Replaced
keep_latest-IsMap l m h = elim (keep_latest-cases l m) [
  | inl (same, _, _, _) ↦ subst IsMap (sym same) h
  | inr (new, _) ↦ subst IsMap (sym new) (put-IsMap l.session.user_id l m h)
]

keep_latest-new : (l : Loaded) (m : Map ℕ Loaded) → Entries Owned m → Covers (keep_latest l m) l
unfolding Kept Replaced
keep_latest-new l m own = elim (keep_latest-cases l m) [
  | inl (same, s, there, later) ↦
      subst (λ n. Covers n l) (sym same)
        (s, there, get-Entries Owned l.session.user_id s m own there, later)
  | inr (new, _) ↦
      subst (λ n. Covers n l) (sym new)
        (
          l,
          ground (
            arith,
            get-put l.session.user_id l.session.user_id l m,
            ==_iff l.session.user_id l.session.user_id,
          ),
          refl,
          omega arith,
        )
]

keep_latest-Covers : (l k : Loaded) (m : Map ℕ Loaded) → Covers m k → Covers (keep_latest l m) k
unfolding Kept Replaced
keep_latest-Covers l k m (t, there, whose, later) = elim (keep_latest-cases l m) [
  | inl (same, _, _, _) ↦ subst (λ n. Covers n k) (sym same) (t, there, whose, later)
  | inr (new, newer) ↦
      subst (λ n. Covers n k) (sym new)
        (elim (Bool-cases (l.session.user_id == k.session.user_id)) [
          | inl one ↦
              let at : l.session.user_id ≡ k.session.user_id =
                (==_iff l.session.user_id k.session.user_id).0 one in
              (
                l,
                ground (arith, get-put l.session.user_id k.session.user_id l m),
                at,
                omega (arith, later, newer t (ap (λ u. get u m) at ∙ there)),
              )
          | inr two ↦
              (t, ground (arith, get-put l.session.user_id k.session.user_id l m), whose, later)
        ])
]

latest_from-Covers :
    (k : Loaded) (ls : List Loaded) (m : Map ℕ Loaded) → Covers m k → Covers (latest_from m ls) k
unfolding latest_from
latest_from-Covers k [] m h = h
latest_from-Covers k (l ∷ ls) m h =
    latest_from-Covers k ls (keep_latest l m) (keep_latest-Covers l k m h)

latest_from-Latest :
    (Q : ℕ → Loaded → Type 0) (ls : List Loaded) (m : Map ℕ Loaded)
    → IsMap m
    → Entries Owned m
    → Entries Q m
    → All (λ l. Q l.session.user_id l) ls
    → IsMap (latest_from m ls)
      × Entries Owned (latest_from m ls)
      × Entries Q (latest_from m ls)
      × All (Covers (latest_from m ls)) ls
unfolding latest_from
latest_from-Latest Q [] m a b c d = (a, b, c, tt)
latest_from-Latest Q (l ∷ ls) m a b c (q, d) =
    let (h, i, j, k) =
      latest_from-Latest Q ls (keep_latest l m) (keep_latest-IsMap l m a)
        (keep_latest-Entries Owned l m refl b) (keep_latest-Entries Q l m q c) d in
    (h, i, j, (latest_from-Covers l ls (keep_latest l m) (keep_latest-new l m b), k))

All-map :
    {A : Type 0} (P Q : A → Type 0) (xs : List A) → ((x : A) → P x → Q x) → All P xs → All Q xs
All-map P Q [] f h = tt
All-map P Q (x ∷ xs) f (p, h) = (f x p, All-map P Q xs f h)

All-Some : {A : Type 0} (xs : List A) → All (λ x. Some (λ y. y ≡ x) xs) xs
All-Some [] = tt
All-Some (x ∷ xs) = (inl refl, All-map _ _ xs (λ y h. inr h) (All-Some xs))

both-Entries :
    (P Q : ℕ → Loaded → Type 0) (m : Map ℕ Loaded)
    → Entries P m
    → Entries Q m
    → Entries (λ k t. P k t × Q k t) m
both-Entries P Q [] h g = tt
both-Entries P Q (e ∷ m) (p, h) (q, g) = ((p, q), both-Entries P Q m h g)

-- Of the sessions of a room each user has one entry, which is a session of the user from the list
-- that was active no earlier than any other of the user's.
pub latest_by_user-Latest :
    (ls : List Loaded)
    → IsMap (latest_by_user ls)
      × Entries
          (λ user_id l. (l.session.user_id ≡ user_id) × Some (λ x. x ≡ l) ls)
          (latest_by_user ls)
      × All (Covers (latest_by_user ls)) ls
latest_by_user-Latest ls =
    let (once, own, among, covered) =
      latest_from-Latest (λ user_id l. Some (λ x. x ≡ l) ls) ls [] tt tt tt (All-Some ls) in
    (once, both-Entries _ _ (latest_by_user ls) own among, covered)
