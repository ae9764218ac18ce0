-- ===== src/Listing.antt =====
-- api/api_admin.go: the parameters of the handlers that list rows a page at a time, and the three
-- handlers. `strconv` is a parameter; the clause ORDER BY, whose text the client gives, is one of
-- the server that runs it.
pub mod Bounds
pub mod Pages
pub mod Requests
pub mod Wanted
pub mod Tests
use gxydb_api.Base.{
  ℕ, ◌+◌, ◌-◌, ◌%◌, ◌^◌, Bool, true, false, String, List, [], ◌∷◌, ◌++◌, ◌⊎◌, inl, inr, Option,
  none, some, ◌==◌, string_eq, nat_eq, if◌then◌else◌, ltb, leb, length, take, drop,
}
use gxydb_api.Base.Int.{ℤ, pos, negsuc, ltb_ℤ, int_eq, ◌-ℤ◌, ◌*ℤ◌}
use gxydb_api.Base.Maps.{Map, get}
use gxydb_api.Errors.{Error, foreign, wrap, Outcome, ok, err, panic}
use gxydb_api.Models.{Db}
use gxydb_api.World.{Env, World, Action, Try, pure, ◌>>=◌, query}

-- Two's complement: the `int` of 64 bits that an integer wraps to.
abbrev residue : ℤ → ℕ
residue (pos n) = n % 2 ^ 64
residue (negsuc n) = 2 ^ 64 - 1 - n % 2 ^ 64

abbrev signed64 : ℕ → ℤ
signed64 r = if ltb r (2 ^ 63) then pos r else negsuc (2 ^ 64 - 1 - r)

unfoldable pub wrap64 : ℤ → ℤ
wrap64 z = signed64 (residue z)

-- `url.Values`, and its method `Get`.
abbrev pub Values : Type 0
Values = Map String (List String)

abbrev pub value_of : String → Values → String
value_of key values = elim (get key values) [
  | none ↦ ""
  | some texts ↦ elim texts [ [] ↦ "" | ◌∷◌ text rest ↦ text ]
]

-- `strconv.Atoi` and `strconv.ParseInt`: the text of an error, or an `int` of 64 bits.
abbrev pub Atoi : Type 0
Atoi = String → String ⊎ ℤ

pub record ListParams : Type 0 where
  pub page_number : ℤ
  pub page_size : ℤ
  pub order_by : String
  pub group_by : String

-- A parameter that must be an integer from 1 on, if it is there.
unfoldable pub positive_param : Atoi → String → ℤ → Values → Try ℤ
positive_param atoi key default values =
    let text = value_of key values in
    if text == "" then inr default else (elim (atoi text) [
      | inl e ↦ inl (wrap (foreign e) "is not an integer")
      | inr n ↦ if ltb_ℤ n (pos 1) then inl (foreign "must be at least 1") else inr n
    ])

unfoldable pub parse_list_params : Atoi → Values → Try ListParams
parse_list_params atoi values = elim (positive_param atoi "page_no" (pos 1) values) [
  | inl e ↦ inl e
  | inr page_number ↦ elim (positive_param atoi "page_size" (pos 50) values) [
    | inl e ↦ inl e
    | inr page_size ↦ inr (record {
      page_number = page_number;
      page_size = page_size;
      order_by = value_of "order_by" values;
      group_by = "";
    })
  ]
]

-- What `appendListMods` adds to a query.
pub data Mod : Type 0 where
  group_by order_by : String → Mod
  limit offset : ℤ → Mod

abbrev pub default_page_size : ℤ
default_page_size = pos 50

abbrev pub max_page_size : ℤ
max_page_size = pos 1000

-- `mathutil.Min`
unfoldable pub min : ℤ → ℤ → ℤ
min a b = if ltb_ℤ a b then a else b

unfoldable pub limit_of : ListParams → ℤ
limit_of p = if p.page_size == pos 0 then default_page_size else min p.page_size max_page_size

unfoldable pub offset_of : ListParams → ℤ
offset_of p =
    if ltb_ℤ (pos 1) p.page_number
    then wrap64 (wrap64 (p.page_number -ℤ pos 1) *ℤ limit_of p)
    else pos 0

unfoldable pub append_list_mods : ListParams → List Mod → List Mod × ℤ × ℤ
append_list_mods p mods = (
  mods
      ++ group_by (if p.group_by == "" then "id" else p.group_by)
        ∷ order_by (if p.order_by == "" then "created_at desc" else p.order_by)
        ∷ limit (limit_of p)
        ∷ (if offset_of p == pos 0 then [] else offset (offset_of p) ∷ []),
  limit_of p,
  offset_of p,
)

-- What ORDER BY makes of rows in one query: it sorts by a clause, or refuses it.
abbrev pub Sorting : Type 0 → Type 0
Sorting A = String → List A → Option (List A)

-- The same for each query: of rows that the clause does not tell apart, two queries that differ in
-- LIMIT or OFFSET may have another order.
abbrev pub Ordered : Type 0 → Type 0
Ordered A = List Mod → Sorting A

abbrev pub refused : Error
refused = foreign "pq: the statement is refused"

-- The status of an aborted request, or the field `total` and the rows.
pub data Listed (A : Type 0) : Type 0 where
  aborted : ℕ → Listed A
  listed : ℕ → List A → Listed A

-- The rows that the server answers with; a negative LIMIT or OFFSET is refused. The key of a table
-- groups nothing.
module _ {A : Type 0} (ordered : Sorting A) where
  abbrev pub run_mod : Mod → List A → Try (List A)
  run_mod (group_by _) rows = inr rows
  run_mod (order_by clause) rows = elim (ordered clause rows) [
    | none ↦ inl refused
    | some sorted ↦ inr sorted
  ]
  run_mod (limit (pos n)) rows = inr (take n rows)
  run_mod (limit (negsuc _)) rows = inl refused
  run_mod (offset (pos n)) rows = inr (drop n rows)
  run_mod (offset (negsuc _)) rows = inl refused

  -- ORDER BY, then OFFSET, then LIMIT, in whatever order the query names them.
  abbrev pub rank : Mod → ℕ
  rank (group_by _) = 0
  rank (order_by _) = 1
  rank (offset _) = 2
  rank (limit _) = 3

  abbrev pub run_ranked : ℕ → List Mod → List A → Try (List A)
  run_ranked k [] rows = inr rows
  run_ranked k (m ∷ ms) rows =
      let run = run_mod m rows in
      let skipped = run_ranked k ms rows in
      if rank m == k
      then (elim run [ inl e ↦ inl e | inr rows' ↦ run_ranked k ms rows' ])
      else skipped

  unfoldable pub run_mods : List Mod → List A → Try (List A)
  run_mods ms rows = elim (run_ranked 0 ms rows) [
    | inl e ↦ inl e
    | inr grouped ↦ elim (run_ranked 1 ms grouped) [
      | inl e ↦ inl e
      | inr sorted ↦ elim (run_ranked 2 ms sorted) [
        | inl e ↦ inl e
        | inr rest ↦ run_ranked 3 ms rest
      ]
    ]
  ]

module _ {A : Type 0} (ordered : Ordered A) where
  -- The count query, the page and the data query, which the three handlers share; `found` are the
  -- rows that pass their filters. A page beyond the last row has the total 0.
  unfoldable pub list_rows : {C : Type 0} → Env → (Db → List A) → ListParams → Action C (Listed A)
  list_rows env found p = query env (λ db. inr (length (found db), db)) >>= λ count. elim count [
    | inl e ↦ pure (aborted 500)
    | inr total ↦
        let (mods, _, skip) = append_list_mods p [] in
        let answer : Action _ (Listed A) =
          query env (λ db. elim (run_mods (ordered mods) mods (found db)) [
            | inl e ↦ inl e
            | inr rows ↦ inr (rows, db)
          ])
          >>= λ r. elim r [ inl e ↦ pure (aborted 500) | inr rows ↦ pure (listed total rows) ] in
        if total == 0
        then pure (listed 0 [])
        else if ltb_ℤ skip (pos total)
        then answer
        else pure (listed 0 [])
  ]
