-- ===== src/Listing/Wanted.antt =====
-- Which rooms a list of rooms may hold, and when a page is refused.
use gxydb_api.Base.{
  ℕ, zero, suc, ◌≡◌, refl, sym, subst, ap, ◌∙◌, Bool, true, false, String, List, [], ◌∷◌, ◌++◌, ◌⊎◌,
  inl, inr, Option, none, some, arith, Option-cases, ◌==◌, nat_eq, string_eq, bool_eq, Bool-cases,
  ==_iff, if◌then◌else◌, take, drop, select, any, All, Either-cases, List-cases,
}
use gxydb_api.Base.Int.{ℤ, pos, negsuc, int_eq}
use gxydb_api.Errors.{ok}
use gxydb_api.Models.{Db, Room}
use gxydb_api.World.{Env, World, query, Try}
use gxydb_api.Auth.{Config, Verifiers, RequestContext}
use gxydb_api.Listing.{
  Mod, group_by, order_by, limit, offset, Values, Atoi, ListParams, parse_list_params,
  append_list_mods, Sorting, Ordered, run_mod, run_mods, listed, list_rows, refused, rank,
  run_ranked,
}
use gxydb_api.Listing.Requests.{RoomsRequest, parse_rooms_request, Matching, passes, list_rooms}

abbrev pub SortReorders : {A : Type 0} → Sorting A → Type 1
SortReorders {A} ordered =
    (clause : String) (rows sorted : List A) (P : A → Type 0)
    → ordered clause rows ≡ some sorted
    → All P rows
    → All P sorted

-- The operation ORDER BY yields rows that it was given, in whatever query.
abbrev pub Reorders : {A : Type 0} → Ordered A → Type 1
Reorders {A} ordered = (ms : List Mod) → SortReorders (ordered ms)

module _ {A : Type 0} (ordered : Sorting A) (P : A → Type 0) where
  take-All : (n : ℕ) (xs : List A) → All P xs → All P (take n xs)
  take-All n [] h = h
  take-All zero (x ∷ xs) h = tt
  take-All (suc n) (x ∷ xs) (p, h) = (p, take-All n xs h)

  drop-All : (n : ℕ) (xs : List A) → All P xs → All P (drop n xs)
  drop-All n [] h = h
  drop-All zero (x ∷ xs) h = h
  drop-All (suc n) (x ∷ xs) (p, h) = drop-All n xs h

  Kept : Try (List A) → Type 0
  Kept (inl e) = Unit
  Kept (inr rows) = All P rows

  ordered-Kept :
      (o : Option (List A))
      → ((sorted : List A) → o ≡ some sorted → All P sorted)
      → Kept (elim o [ none ↦ inl refused | some sorted ↦ inr sorted ])
  unfolding Kept
  ordered-Kept none h = tt
  ordered-Kept (some sorted) h = h sorted refl

  run_mod-Kept :
      (m : Mod) (rows : List A) → SortReorders ordered → All P rows → Kept (run_mod ordered m rows)
  unfolding Kept
  run_mod-Kept (group_by _) rows re h = h
  run_mod-Kept (order_by clause) rows re h =
      ordered-Kept (ordered clause rows) (λ sorted e. re clause rows sorted P e h)
  run_mod-Kept (limit (pos n)) rows re h = take-All n rows h
  run_mod-Kept (limit (negsuc _)) rows re h = tt
  run_mod-Kept (offset (pos n)) rows re h = drop-All n rows h
  run_mod-Kept (offset (negsuc _)) rows re h = tt

  bind-Kept :
      (r : Try (List A)) (f : List A → Try (List A))
      → Kept r
      → ((rows : List A) → All P rows → Kept (f rows))
      → Kept (elim r [ inl e ↦ inl e | inr rows ↦ f rows ])
  unfolding Kept
  bind-Kept (inl e) f h k = tt
  bind-Kept (inr rows) f h k = k rows h

  if-Kept : (b : Bool) (r s : Try (List A)) → Kept r → Kept s → Kept (if b then r else s)
  if-Kept true r s h k = h
  if-Kept false r s h k = k

  run_ranked-Kept :
      (n : ℕ) (ms : List Mod) (rows : List A)
      → SortReorders ordered
      → All P rows
      → Kept (run_ranked ordered n ms rows)
  unfolding Kept
  run_ranked-Kept n [] rows re h = h
  run_ranked-Kept n (m ∷ ms) rows re h =
      if-Kept (rank ordered m == n) _ _
        (bind-Kept (run_mod ordered m rows) (run_ranked ordered n ms) (run_mod-Kept m rows re h)
          (λ rows' h'. run_ranked-Kept n ms rows' re h'))
        (run_ranked-Kept n ms rows re h)

  run_mods-Kept :
      (ms : List Mod) (rows : List A)
      → SortReorders ordered
      → All P rows
      → Kept (run_mods ordered ms rows)
  unfolding run_mods
  run_mods-Kept ms rows re h =
      let step = λ (n : ℕ) (r : List A) (k : All P r). run_ranked-Kept n ms r re k in
      bind-Kept _ _ (step 0 rows h)
        λ a ha. bind-Kept _ _ (step 1 a ha) λ b hb. bind-Kept _ _ (step 2 b hb) λ c hc. step 3 c hc

list_rows-rows :
    {A C : Type 0} (ordered : Ordered A) (env : Env) (found : Db → List A) (p : ListParams)
    (w u : World C) (total : ℕ) (rows : List A)
    → list_rows ordered env found p w ≡ (ok (listed total rows), u)
    → (rows ≡ [])
      ⊎ (run_mods (ordered (append_list_mods p []).0) (append_list_mods p []).0 (found w.db)
          ≡ inr rows)
unfolding list_rows query
list_rows-rows ordered env found p w u total rows h =
    elim (Either-cases
      (run_mods (ordered (append_list_mods p []).0) (append_list_mods p []).0 (found w.db))) [
        | inl (e, bad) ↦ ground (arith, bad)
        | inr (page, good) ↦ ground (arith, good)
      ]

list_rows-All :
    {A C : Type 0} (ordered : Ordered A) (P : A → Type 0) (env : Env) (found : Db → List A)
    (p : ListParams) (w u : World C) (total : ℕ) (rows : List A)
    → Reorders ordered
    → All P (found w.db)
    → list_rows ordered env found p w ≡ (ok (listed total rows), u)
    → All P rows
unfolding Kept
list_rows-All ordered P env found p w u total rows re h e =
    elim (list_rows-rows ordered env found p w u total rows e) [
      | inl empty ↦ subst (All P) (sym empty) tt
      | inr page ↦ subst (Kept (ordered (append_list_mods p []).0) P) page (
          run_mods-Kept (ordered (append_list_mods p []).0) P (append_list_mods p []).0 (found w.db)
            (re (append_list_mods p []).0) h)
    ]

select-All :
    {A : Type 0} (test : A → Bool) (P : A → Type 0) (xs : List A)
    → ((x : A) → test x ≡ true → P x)
    → All P (select test xs)
select-All test P [] h = tt
select-All test P (x ∷ xs) h = elim (Bool-cases (test x)) [
  | inl passed ↦
      subst (λ b. All P (if b then x ∷ select test xs else select test xs)) (sym passed)
        (h x passed, select-All test P xs h)
  | inr failed ↦
      subst (λ b. All P (if b then x ∷ select test xs else select test xs)) (sym failed)
        (select-All test P xs h)
]

-- What a request for rooms asks of a room.
pub record Wanted (matching : Matching) (parse_uint : Atoi) (request : RoomsRequest) (room : Room)
    : Type 0 where
  pub same_disabled : (request.disabled ≡ none) ⊎ (request.disabled ≡ some room.disabled)
  pub same_removed :
      (request.removed ≡ none)
      ⊎ (request.removed ≡ some false) × (room.removed_at ≡ none)
      ⊎ (request.removed ≡ some true) × (t : ℕ) × (room.removed_at ≡ some t)
  pub on_gateway :
      (request.gateways ≡ [])
      ⊎ ((before : List ℤ) × (after : List ℤ) × (request.gateways
            ≡ before ++ pos room.default_gateway_id ∷ after))
  pub matches_term :
      (request.term ≡ "")
      ⊎ (matching.name_matches room.name request.term ≡ true)
      ⊎ ((n : ℤ) × (parse_uint request.term ≡ inr n)
          × ((pos room.id ≡ n) ⊎ (matching.is_number room.gateway_uid n ≡ true)))

any-split :
    (a : ℤ) (ids : List ℤ)
    → any (λ id. a == id) ids ≡ true
    → (before : List ℤ) × (after : List ℤ) × (ids ≡ before ++ a ∷ after)
any-split a [] h = absurd (ground arith)
any-split a (id ∷ ids) h = elim (Bool-cases (a == id)) [
  | inl same ↦ ([], ids, ap (λ z. z ∷ ids) (sym ((==_iff a id).0 same)))
  | inr other ↦
      let (before, after, e) = any-split a ids (ground arith) in
      (id ∷ before, after, ap (λ zs. id ∷ zs) e)
]

passes-Wanted :
    (matching : Matching) (parse_uint : Atoi) (request : RoomsRequest) (room : Room)
    → passes matching parse_uint request room ≡ true
    → Wanted matching parse_uint request room
unfolding passes
passes-Wanted matching parse_uint request room h = record {
  same_disabled = elim (Option-cases request.disabled) [
    | inl any ↦ inl any
    | inr (b, asked) ↦
        inr (asked ∙ ap some (sym ((==_iff room.disabled b).0 (ground (arith, asked)))))
  ];
  same_removed = elim (Option-cases request.removed) [
    | inl any ↦ inl any
    | inr (false, asked) ↦ inr (inl (asked, ground (arith, asked)))
    | inr (true, asked) ↦ elim (Option-cases room.removed_at) [
      | inl live ↦ absurd (ground (arith, asked, live))
      | inr (t, gone) ↦ inr (inr (asked, t, gone))
    ]
  ];
  on_gateway = elim (List-cases request.gateways) [
    | inl any ↦ inl any
    | inr (id, ids, there) ↦
        inr (any-split (pos room.default_gateway_id) request.gateways (ground (arith, there)))
  ];
  matches_term = elim (Bool-cases (request.term == "")) [
    | inl any ↦ inl ((==_iff request.term "").0 any)
    | inr asked ↦ elim (Bool-cases (matching.name_matches room.name request.term)) [
      | inl named ↦ inr (inl named)
      | inr unnamed ↦ elim (Either-cases (parse_uint request.term)) [
        | inl (x, text) ↦ absurd (ground arith)
        | inr (n, number) ↦ elim (Bool-cases (pos room.id == n)) [
          | inl same ↦ inr (inr (n, number, inl ((==_iff (pos room.id) n).0 same)))
          | inr differs ↦ elim (Bool-cases (matching.is_number room.gateway_uid n)) [
            | inl uid ↦ inr (inr (n, number, inr uid))
            | inr no_uid ↦ absurd (ground arith)
          ]
        ]
      ]
    ]
  ];
}

module _ {Token C : Type 0} (config : Config) (v : Verifiers Token) (env : Env) (atoi : Atoi) where
  -- Every room of a list of rooms is one that the parameters of the request ask for, whichever
  -- calls fail.
  pub list_rooms-Wanted :
      (ordered : Ordered Room) (matching : Matching) (parse_uint : Atoi) (c : RequestContext)
      (values : Values) (request : RoomsRequest) (total : ℕ) (rooms : List Room) (w u : World C)
      → Reorders ordered
      → parse_rooms_request atoi values ≡ inr request
      → list_rooms config v env atoi ordered matching parse_uint c values w
        ≡ (ok (listed total rooms), u)
      → All (Wanted matching parse_uint request) rooms
  unfolding list_rooms
  list_rooms-Wanted ordered matching parse_uint c values request total rooms w u re parsed e =
      elim (Either-cases (parse_list_params atoi values)) [
        | inl (x, bad) ↦ absurd (ground (arith, bad))
        | inr (p, good) ↦
            list_rows-All ordered _ env (λ db. select (passes matching parse_uint request) db.rooms)
              p w u total rooms re
              (select-All _ _ w.db.rooms (passes-Wanted matching parse_uint request))
              (ground (arith, good, parsed))
      ]
