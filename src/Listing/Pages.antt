-- ===== src/Listing/Pages.antt =====
-- What the pages of a list hold: together, the rows in their order.
use gxydb_api.Base.{
  ℕ, zero, suc, ◌+◌, ◌*◌, ◌^◌, ◌≤◌, ◌<◌, ◌≡◌, refl, ap, ◌∙◌, String, List, [], ◌∷◌, ◌++◌, inl, inr,
  none, some, arith, ◌==◌, string_eq, Bool-cases, Option-cases, ◌≢◌, if◌then◌else◌, ltb, length,
  take, drop, take-add, take-length-le, drop-length-le,
}
use gxydb_api.Base.Int.{pos, int_eq, negsuc}
use gxydb_api.Errors.{Outcome, ok}
use gxydb_api.Models.{Db}
use gxydb_api.World.{Env, World, query}
use gxydb_api.Listing.{
  ListParams, limit_of, offset_of, append_list_mods, Sorting, Ordered, run_mods, Listed, aborted,
  listed, list_rows, refused,
}
use gxydb_api.Listing.Bounds.{Paged, offset_of-product, wrap64-small, wrap64-large}

abbrev pub clause_of : ListParams → String
clause_of p = if p.order_by == "" then "created_at desc" else p.order_by

append_list_mods-skip : (p : ListParams) → (append_list_mods p []).2 ≡ offset_of p
unfolding append_list_mods
append_list_mods-skip p = refl

length-positive : {A : Type 0} (xs : List A) → xs ≢ [] → 1 ≤ length xs
length-positive [] h = absurd (h refl)
length-positive (x ∷ xs) h = omega arith

take-zero : {A : Type 0} (xs : List A) → [] ≡ take 0 xs
take-zero [] = refl
take-zero (x ∷ xs) = refl

drop-zero : {A : Type 0} (xs : List A) → drop zero xs ≡ xs
drop-zero [] = refl
drop-zero (x ∷ xs) = refl

abbrev pub rows_of : {A : Type 0} → Outcome (Listed A) → List A
rows_of (ok (listed _ rows)) = rows
rows_of _ = []

module _ {A : Type 0} (ordered : Sorting A) where
  run_mods-page :
      (p : ListParams) (rows sorted : List A) (n o : ℕ)
      → ordered (clause_of p) rows ≡ some sorted
      → limit_of p ≡ pos n
      → offset_of p ≡ pos o
      → run_mods ordered (append_list_mods p []).0 rows ≡ inr (take n (drop o sorted))
  unfolding run_mods append_list_mods
  run_mods-page p rows sorted n zero s l o = ground (arith, s, l, o, drop-zero sorted)
  run_mods-page p rows sorted n (suc o') s l o = ground (arith, s, l, o)

  run_mods-negative :
      (p : ListParams) (rows : List A) (n o : ℕ)
      → limit_of p ≡ pos n
      → offset_of p ≡ negsuc o
      → run_mods ordered (append_list_mods p []).0 rows ≡ inl refused
  unfolding run_mods append_list_mods
  run_mods-negative p rows n o l skip = elim (Option-cases (ordered (clause_of p) rows)) [
    | inl bad ↦ ground (arith, l, skip, bad)
    | inr (sorted, good) ↦ ground (arith, l, skip, good)
  ]

at_page-Paged :
    (p : ListParams) (k n : ℕ)
    → limit_of p ≡ pos n
    → 1 ≤ n
    → n ≤ 1000
    → k < 2 ^ 63
    → Paged (record p { page_number = pos (suc k) }) k n
unfolding limit_of
at_page-Paged p k n l low high small = (
  refl,
  l,
  low,
  high,
  offset_of-product (record p { page_number = pos (suc k) }) k n refl l small,
)

module _ {A C : Type 0} (ordered : Ordered A) (env : Env) (found : Db → List A) where
  -- No call fails, and the rows found in the tables of `w` are `sorted` in the query for a page.
  abbrev pub Sorts : World C → ListParams → List A → Type 0
  Sorts w p sorted =
      ((n : ℕ) → env.fault n ≡ none)
      × (ordered (append_list_mods p []).0 (clause_of p) (found w.db) ≡ some sorted)
      × (length sorted ≡ length (found w.db))

  -- The rows of the pages from 0 to K - 1, each asked for in the state `w`.
  abbrev pub first_pages : ListParams → ℕ → World C → List A
  first_pages p zero w = []
  first_pages p (suc k) w =
      first_pages p k w
      ++ rows_of (list_rows ordered env found (record p { page_number = pos (suc k) }) w).0

  -- Where no call fails, the page k of a list, with n rows to a page, answers with the n rows from
  -- the place k * n on of all rows in their order; its total is the number of all rows, or 0 for a
  -- page beyond the last; and it changes neither a table nor a cache.
  pub list_rows-page :
      (p : ListParams) (k n : ℕ) (sorted : List A) (w : World C)
      → Paged p k n
      → k * n < 2 ^ 63
      → Sorts w p sorted
      → let (answer, v) = list_rows ordered env found p w in
        let total = length sorted in
        (answer
          ≡ ok (listed (if ltb (k * n) total then total else 0) (take n (drop (k * n) sorted))))
        × (v.db ≡ w.db)
        × (v.cache ≡ w.cache)
  unfolding list_rows query
  list_rows-page p k n sorted w (number, l, low, high, o) fits (fine, s, same) =
      let at = o ∙ wrap64-small (k * n) fits in
      elim (Bool-cases (ltb (k * n) (length sorted))) [
        | inl inside ↦
            let page =
              run_mods-page (ordered (append_list_mods p []).0) p (found w.db) sorted n (k * n) s l
                at in
            (
              ground (
                arith,
                fine w.calls,
                fine (w.calls + 1),
                append_list_mods-skip p,
                at,
                same,
                page,
              ),
              ground (
                arith,
                fine w.calls,
                fine (w.calls + 1),
                append_list_mods-skip p,
                at,
                same,
                page,
              ),
              ground (
                arith,
                fine w.calls,
                fine (w.calls + 1),
                append_list_mods-skip p,
                at,
                same,
                page,
              ),
            )
        | inr beyond ↦
            let rest = drop-length-le (k * n) sorted (ground arith) in
            (
              ground (arith, fine w.calls, append_list_mods-skip p, at, same, ap (take n) rest),
              ground (arith, fine w.calls, append_list_mods-skip p, at, same),
              ground (arith, fine w.calls, append_list_mods-skip p, at, same),
            )
      ]

  first_pages-take :
      (p : ListParams) (k n : ℕ) (sorted : List A) (w : World C)
      → limit_of p ≡ pos n
      → 1 ≤ n
      → n ≤ 1000
      → k * n < 2 ^ 63
      → ((j : ℕ) → Sorts w (record p { page_number = pos (suc j) }) sorted)
      → first_pages p k w ≡ take (k * n) sorted
  first_pages-take p zero n sorted w l low high fits sorts =
      take-zero sorted ∙ ap (λ m. take m sorted) (omega arith)
  first_pages-take p (suc k) (suc m) sorted w l low high fits sorts =
      let at = at_page-Paged p k (suc m) l low high (omega arith) in
      let p' : ListParams = record p { page_number = pos (suc k) } in
      let sum : suc k * suc m ≡ k * suc m + suc m = omega arith in
      let (page, _, _) = list_rows-page p' k (suc m) sorted w at (omega arith) (sorts k) in
      ground (
        arith,
        first_pages-take p k (suc m) sorted w l low high (omega arith) sorts,
        ap (rows_of) page,
        ap (λ j. take j sorted) sum ∙ take-add (k * suc m) (suc m) sorted,
      )
  first_pages-take p (suc k) zero sorted w l low high fits sorts = absurd (omega arith)

  -- Where no call fails, a page holds from 1 to 1000 rows, and the server has the rows in one order
  -- in the queries for all pages, as it does if the clause orders them totally, the pages put
  -- together are all rows in this order, none left out and none twice, if there are enough of them;
  -- places from 2 ^ 63 on are not reached.
  pub list_rows-tile :
      (p : ListParams) (k n : ℕ) (sorted : List A) (w : World C)
      → limit_of p ≡ pos n
      → 1 ≤ n
      → n ≤ 1000
      → k * n < 2 ^ 63
      → length sorted ≤ k * n
      → ((j : ℕ) → Sorts w (record p { page_number = pos (suc j) }) sorted)
      → first_pages p k w ≡ sorted
  list_rows-tile p k n sorted w l low high fits enough sorts =
      first_pages-take p k n sorted w l low high fits sorts ∙ take-length-le (k * n) sorted enough

  -- A page whose first place is from 2 ^ 63 on, and below 2 ^ 64, is answered with an internal error
  -- where there are rows at all, whichever calls fail.
  pub list_rows-overflow :
      (p : ListParams) (k n : ℕ) (w : World C)
      → p.page_number ≡ pos (suc k)
      → limit_of p ≡ pos n
      → k < 2 ^ 63
      → 2 ^ 63 ≤ k * n
      → k * n < 2 ^ 64
      → found w.db ≢ []
      → (list_rows ordered env found p w).0 ≡ ok (aborted 500)
  unfolding list_rows query
  list_rows-overflow p k n w number l small low high rows =
      let skip = offset_of-product p k n number l small ∙ wrap64-large (k * n) low high in
      let bad = run_mods-negative (ordered (append_list_mods p []).0) p (found w.db) n _ l skip in
      elim (Option-cases (env.fault w.calls)) [
        | inr (x, broken) ↦ ground (arith, broken)
        | inl fine ↦ elim (Option-cases (env.fault (w.calls + 1))) [
          | inr (x, broken) ↦ ground (
            arith,
            fine,
            broken,
            append_list_mods-skip p,
            skip,
            bad,
            length-positive (found w.db) rows,
          )
          | inl fine' ↦ ground (
            arith,
            fine,
            fine',
            append_list_mods-skip p,
            skip,
            bad,
            length-positive (found w.db) rows,
          )
        ]
      ]
