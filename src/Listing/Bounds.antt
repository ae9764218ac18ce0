-- ===== src/Listing/Bounds.antt =====
-- The LIMIT and the OFFSET that the parameters of a request come to.
use gxydb_api.Base.{
  ℕ, zero, suc, ◌-◌, ◌*◌, ◌^◌, ◌≤◌, ◌<◌, ◌≡◌, sym, ap, ◌∙◌, String, inl, inr, arith, ◌==◌,
  string_eq, Bool-cases, Either-cases,
}
use gxydb_api.Base.Int.{ℤ, pos, negsuc, pos_part, neg_part, ltb_ℤ, int_eq, ◌-ℤ◌, ◌*ℤ◌}
use gxydb_api.Listing.{
  wrap64, Values, value_of, Atoi, ListParams, positive_param, parse_list_params, limit_of,
  offset_of, min,
}

-- `strconv.Atoi` answers with an `int` of 64 bits.
abbrev pub InRange : Atoi → Type 0
InRange atoi = (s : String) (z : ℤ) → atoi s ≡ inr z → (pos_part z < 2 ^ 63) × (neg_part z ≤ 2 ^ 63)

-- The page k, counted from 0, with n rows to a page.
abbrev pub Paged : ListParams → ℕ → ℕ → Type 0
Paged p k n =
    (p.page_number ≡ pos (suc k))
    × (limit_of p ≡ pos n)
    × (1 ≤ n)
    × (n ≤ 1000)
    × (offset_of p ≡ wrap64 (pos (k * n)))

pub wrap64-small : (m : ℕ) → m < 2 ^ 63 → wrap64 (pos m) ≡ pos m
unfolding wrap64
wrap64-small m h = ground arith

positive_param-Positive :
    (atoi : Atoi) (key : String) (d : ℕ) (values : Values) (z : ℤ)
    → InRange atoi
    → d < 2 ^ 62
    → positive_param atoi key (pos (suc d)) values ≡ inr z
    → (k : ℕ) × (z ≡ pos (suc k)) × (suc k < 2 ^ 63)
unfolding positive_param
positive_param-Positive atoi key d values z range small h =
    elim (Bool-cases (value_of key values == "")) [
      | inl empty ↦ (d, ground arith, omega arith)
      | inr full ↦ elim (Either-cases (atoi (value_of key values))) [
        | inl (e, bad) ↦ absurd (ground arith)
        | inr (pos zero, good) ↦ absurd (ground arith)
        | inr (pos (suc k), good) ↦
            (k, ground arith, (range (value_of key values) (pos (suc k)) good).0)
        | inr (negsuc k, good) ↦ absurd (ground arith)
      ]
    ]

parse_list_params-split :
    (atoi : Atoi) (values : Values) (p : ListParams)
    → parse_list_params atoi values ≡ inr p
    → (positive_param atoi "page_no" (pos 1) values ≡ inr p.page_number)
      × (positive_param atoi "page_size" (pos 50) values ≡ inr p.page_size)
unfolding parse_list_params
parse_list_params-split atoi values p h =
    elim (Either-cases (positive_param atoi "page_no" (pos 1) values)) [
      | inl (e, bad) ↦ absurd (ground arith)
      | inr (a, good) ↦ elim (Either-cases (positive_param atoi "page_size" (pos 50) values)) [
        | inl (e, bad) ↦ absurd (ground arith)
        | inr (b, good') ↦ (ground arith, ground arith)
      ]
    ]

limit_of-Bounded :
    (p : ListParams) (m : ℕ)
    → p.page_size ≡ pos (suc m)
    → (n : ℕ) × (limit_of p ≡ pos n) × (1 ≤ n) × (n ≤ 1000)
unfolding limit_of min
limit_of-Bounded p m size = elim (Bool-cases (ltb_ℤ (pos (suc m)) (pos 1000))) [
  | inl small ↦ (suc m, ground (arith, size), omega arith, ground arith)
  | inr large ↦ (1000, ground (arith, size), omega arith, omega arith)
]

zero_times : (n : ℕ) → 0 ≡ 0 * n
zero_times n = omega arith

pred_pos : (k : ℕ) → pos (suc k) -ℤ pos 1 ≡ pos k
unfolding ◌-ℤ◌
pred_pos k = ground arith

times_pos : (a b : ℕ) → pos a *ℤ pos b ≡ pos (a * b)
unfolding ◌*ℤ◌
times_pos a b = ground arith

pub offset_of-product :
    (p : ListParams) (k n : ℕ)
    → p.page_number ≡ pos (suc k)
    → limit_of p ≡ pos n
    → k < 2 ^ 63
    → offset_of p ≡ wrap64 (pos (k * n))
unfolding offset_of
offset_of-product p zero n number rows small = ground (
  arith,
  number,
  rows,
  sym (wrap64-small 0 (omega arith)) ∙ ap (λ m. wrap64 (pos m)) (zero_times n),
)
offset_of-product p (suc k) n number rows small = ground (
  arith,
  number,
  rows,
  ap (λ z. wrap64 (wrap64 z *ℤ pos n)) (pred_pos (suc k))
      ∙ ap (λ z. wrap64 (z *ℤ pos n)) (wrap64-small (suc k) small)
      ∙ ap wrap64 (times_pos (suc k) n),
)

pub wrap64-large : (m : ℕ) → 2 ^ 63 ≤ m → m < 2 ^ 64 → wrap64 (pos m) ≡ negsuc (2 ^ 64 - 1 - m)
unfolding wrap64
wrap64-large m low high = ground arith

-- When the parameters of a list are accepted, the LIMIT is a number from 1 to 1000, and the OFFSET
-- is the number of rows on the pages before this one, wrapped to 64 bits.
pub parse_list_params-Paged :
    (atoi : Atoi) (values : Values) (p : ListParams)
    → InRange atoi
    → parse_list_params atoi values ≡ inr p
    → (k : ℕ) × (n : ℕ) × Paged p k n
parse_list_params-Paged atoi values p range h =
    let (number, size) = parse_list_params-split atoi values p h in
    let (k, numbered, small) =
      positive_param-Positive atoi "page_no" 0 values p.page_number range (omega arith) number in
    let (m, sized, _) =
      positive_param-Positive atoi "page_size" 49 values p.page_size range (omega arith) size in
    let (n, rows, low, high) = limit_of-Bounded p m sized in
    (k, n, (numbered, rows, low, high, offset_of-product p k n numbered rows (omega arith)))
