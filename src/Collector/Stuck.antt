-- ===== src/Collector/Stuck.antt =====
-- What becomes of the goroutines of `collectGatewaySessions`.
use gxydb_api.Base.{
  subst, ltb, Bool-cases, inl, inr, ◌↔◌, Option, string_eq, ℕ, ◌+◌, ◌≤◌, ◌≡◌, refl, sym, ap, ◌∙◌,
  none, some, true, false, ◌++◌, zero, suc, Bool, String, List, [], ◌∷◌, ◌⊎◌, arith, select, map,
  length, length-append, if◌then◌else◌,
}
use gxydb_api.Base.Maps.{Map, put}
use gxydb_api.Errors.{Error}
use gxydb_api.Models.{Gateway}
use gxydb_api.Collector.{
  Reply, CallResult, Collecting, is_asked, call_gateway, start_collecting, Round, receive, expire,
  Rounds, here, next,
}

-- One goroutine more than rounds that are left, once the timer has fired.
IsBalanced : Collecting → Type 0
IsBalanced s = length s.pending ≡ s.rounds + (if s.armed then 0 else 1)

length-map : {A B : Type 0} (f : A → B) (xs : List A) → length (map f xs) ≡ length xs
length-map f [] = refl
length-map f (x ∷ xs) = omega (arith, length-map f xs)

Round-IsBalanced : {s t : Collecting} → Round s t → IsBalanced s → IsBalanced t
unfolding IsBalanced
Round-IsBalanced (receive n front back r armed gauge) h =
    ground (arith, length-append front (some r ∷ back), length-append front back)
Round-IsBalanced (expire n pending gauge) h = ground arith

Rounds-IsBalanced : {s t : Collecting} → Rounds s t → IsBalanced s → IsBalanced t
Rounds-IsBalanced here h = h
Rounds-IsBalanced (next rs r) h = Round-IsBalanced r (Rounds-IsBalanced rs h)

Rounds-first : {s t u : Collecting} → Round s t → Rounds t u → Rounds s u
Rounds-first r here = next here r
Rounds-first r (next rs last) = next (Rounds-first r rs) last

abbrev pub is_hanging : Option CallResult → Bool
is_hanging none = true
is_hanging (some _) = false

-- The goroutines whose calls hang.
abbrev pub hanging : List (Option CallResult) → ℕ
hanging rs = length (select is_hanging rs)

hanging-received :
    (front back : List (Option CallResult)) (r : CallResult)
    → hanging (front ++ some r ∷ back) ≡ hanging (front ++ back)
hanging-received [] back r = refl
hanging-received (none ∷ front) back r = ground (arith, hanging-received front back r)
hanging-received (some q ∷ front) back r = hanging-received front back r

hanging-≤ : (rs : List (Option CallResult)) → hanging rs ≤ length rs
hanging-≤ [] = omega arith
hanging-≤ (none ∷ rs) = omega (arith, hanging-≤ rs)
hanging-≤ (some r ∷ rs) = omega (arith, hanging-≤ rs)

Round-hanging : {s t : Collecting} → Round s t → hanging t.pending ≡ hanging s.pending
Round-hanging (receive n front back r armed gauge) = sym (hanging-received front back r)
Round-hanging (expire n pending gauge) = refl

Rounds-hanging : {s t : Collecting} → Rounds s t → hanging t.pending ≡ hanging s.pending
Rounds-hanging here = refl
Rounds-hanging (next rs r) = Round-hanging r ∙ Rounds-hanging rs

-- A result that can be received, if not all goroutines hang.
first_result :
    (rs : List (Option CallResult))
    → suc (hanging rs) ≤ length rs
    → (front back : List (Option CallResult)) × (r : CallResult) × (rs ≡ front ++ some r ∷ back)
first_result [] h = absurd (omega arith)
first_result (some r ∷ rs) h = ([], rs, r, refl)
first_result (none ∷ rs) h =
    let (front, back, r, e) = first_result rs (omega arith) in
    (none ∷ front, back, r, ap (λ qs. none ∷ qs) e)

Ends : ℕ → List (Option CallResult) → Bool → Map String (String × ℕ) → Type 0
Ends n pending armed gauge =
    (t : Collecting) × Rounds
      (record { rounds = n; pending = pending; armed = armed; gauge = gauge }) t
    × (t.rounds ≡ 0)

-- The last round, in which only the timer can come.
last_round :
    (n : ℕ) (pending : List (Option CallResult)) (armed : Bool) (gauge : Map String (String × ℕ))
    → length pending ≡ suc n + (if armed then 0 else 1)
    → hanging pending ≤ 1
    → length pending ≤ hanging pending
    → Ends (suc n) pending armed gauge
unfolding Ends
last_round n pending false gauge h few all_hang = absurd (omega (arith, h))
last_round zero pending true gauge h few all_hang = (_, next here (expire zero pending gauge), refl)
last_round (suc n) pending true gauge h few all_hang = absurd (omega (arith, h))

-- With at most one call that hangs, the rounds can be gone through: results first, and the timer
-- when there is none left.
can_end :
    (n : ℕ) (pending : List (Option CallResult)) (armed : Bool) (gauge : Map String (String × ℕ))
    → length pending ≡ n + (if armed then 0 else 1)
    → hanging pending ≤ 1
    → Ends n pending armed gauge
unfolding Ends
can_end zero pending armed gauge h few = (_, here, refl)
can_end (suc n) pending armed gauge h few =
    elim (Bool-cases (ltb (hanging pending) (length pending))) [
      | inl some_result ↦
          let (front, back, r, e) = first_result pending (ground arith) in
          let fewer = sym (hanging-received front back r) ∙ sym (ap hanging e) in
          let (t, rounds, ended) =
            can_end n (front ++ back) armed
              (put (r.gateway).name ((r.gateway).kind, r.sessions) gauge)
              (ground (
                arith,
                length-append front (some r ∷ back),
                length-append front back,
                ap length e,
                h,
              ))
              (omega (arith, fewer, few)) in
          subst (λ ps. Ends (suc n) ps armed gauge) (sym e)
            (t, Rounds-first (receive n front back r armed gauge) rounds, ended)
      | inr all_hang ↦ last_round n pending armed gauge h few (ground arith)
    ]

module _ (api_for : Gateway → Error ⊎ Unit {0}) (list_sessions : Gateway → Reply (Option (List ℕ)))
    (gateways : List Gateway) where
  start-IsBalanced : IsBalanced (start_collecting api_for list_sessions gateways)
  unfolding IsBalanced
  start-IsBalanced =
      ground (arith, length-map (call_gateway api_for list_sessions) (select is_asked gateways))

  -- However the results and the timer come in, when the collector of sessions has ended its rounds,
  -- it has received the result of every gateway if the timer did not fire; if it did, it has ended
  -- only after it received all results but one, whose goroutine is left behind for good.
  pub Rounds-left_behind :
      {s : Collecting}
      → Rounds (start_collecting api_for list_sessions gateways) s
      → s.rounds ≡ 0
      → length s.pending ≡ (if s.armed then 0 else 1)
  unfolding IsBalanced
  Rounds-left_behind {s} rs ended = ground (arith, Rounds-IsBalanced rs start-IsBalanced)

  -- The number of gateways that are asked and whose calls hang.
  abbrev pub silent : ℕ
  silent = hanging (map (call_gateway api_for list_sessions) (select is_asked gateways))

  start-hanging :
      {s : Collecting}
      → Rounds (start_collecting api_for list_sessions gateways) s
      → hanging s.pending ≡ silent
  start-hanging rs = Rounds-hanging rs

  -- From whatever point it has reached, the collector of sessions can end its rounds if and only if
  -- at most one of the gateways that it asks does not answer: the timer is good for one round only.
  pub Rounds-ends :
      {s : Collecting}
      → Rounds (start_collecting api_for list_sessions gateways) s
      → ((t : Collecting) × Rounds s t × (t.rounds ≡ 0)) ↔ (silent ≤ 1)
  unfolding IsBalanced Ends
  Rounds-ends {s} rs = (
    (λ (t, more, ended).
        let there = Rounds-hanging more ∙ start-hanging rs in
        let balanced = Rounds-IsBalanced more (Rounds-IsBalanced rs start-IsBalanced) in
        ground (arith, there, balanced, ended, hanging-≤ t.pending)),
    λ few.
        can_end s.rounds s.pending s.armed s.gauge (Rounds-IsBalanced rs start-IsBalanced)
          (omega (arith, start-hanging rs, few)),
  )
