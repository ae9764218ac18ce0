-- ===== src/Network/Forwarded.antt =====
-- Which address `GetRealIP` takes from the header X-Forwarded-For.
use Prim.Native.Char.{Char, code}
use mathlib.Core.List.{append-nil, append_assoc, reverse-append, reverse-cons, reverse-reverse}
use text.Mathlib.TextLemmas.{nil-append, cons-append, append_assoc as text_assoc}
use gxydb_api.Base.{
  ℕ, ◌≡◌, ◌≢◌, refl, ap, sym, ◌∙◌, Bool, false, String, List, [], ◌∷◌, ◌++◌, ◌⊎◌, inl, inr, none,
  some, arith, ◌==◌, ==_iff, nat_eq, string_eq, any, reverse, last?, Bool-cases,
}
use gxydb_api.Base.Text.{chars, of_chars, split, split_from, append}
use gxydb_api.Network.{
  Origin, Resolver, drop_sep, trim, or_else, host_of, last_address, get_real_ip,
}

abbrev pub has_char : ℕ → List Char → Bool
has_char sep = any (λ c. code c == sep)

chars-of_chars : (s : List Char) → chars (of_chars s) ≡ s
chars-of_chars [] = refl
chars-of_chars (c ∷ s) = ap (λ t. c ∷ t) (chars-of_chars s)

of_chars-chars : (s : String) → of_chars (chars s) ≡ s
of_chars-chars String.[] = refl
of_chars-chars (String.◌∷◌ c s) = ap (String.◌∷◌ c) (of_chars-chars s)

pub chars-append : (s t : String) → chars (append s t) ≡ chars s ++ chars t
chars-append String.[] t = rw nil-append
chars-append (String.◌∷◌ c s) t = ap chars (cons-append c s t) ∙ ap (λ u. c ∷ u) (chars-append s t)

last?-cons {ℓ} : {A : Type ℓ} (x y : A) (xs : List A) → last? xs ≡ some y → last? (x ∷ xs) ≡ some y
last?-cons x y [] h = absurd (ground arith)
last?-cons x y (z ∷ xs) h = h

snoc-cases {ℓ} :
    {A : Type ℓ} (xs : List A) → (xs ≡ []) ⊎ ((ys : List A) × (y : A) × (xs ≡ ys ++ y ∷ []))
snoc-cases [] = inl refl
snoc-cases (x ∷ xs) = elim (snoc-cases xs) [
  | inl empty ↦ inr ([], x, ap (λ t. x ∷ t) empty)
  | inr (ys, y, e) ↦ inr (x ∷ ys, y, ap (λ t. x ∷ t) e)
]

split_from-plain :
    (sep : ℕ) (word s : List Char)
    → has_char sep s ≡ false
    → split_from sep word s ≡ of_chars (reverse word ++ s) ∷ []
split_from-plain sep word [] h = rw append-nil
split_from-plain sep word (c ∷ s) h = ground (
  arith,
  split_from-plain sep (c ∷ word) s,
  ap (λ t. t ++ s) (reverse-cons c word) ∙ append_assoc (reverse word) (c ∷ []) s,
)

-- The last part of a text is what follows its last separator.
last-split_from :
    (sep : ℕ) (word p q : List Char) (c : Char)
    → code c ≡ sep
    → has_char sep q ≡ false
    → last? (split_from sep word (p ++ c ∷ q)) ≡ some (of_chars q)
last-split_from sep word [] q c here h = ground (arith, split_from-plain sep [] q h)
last-split_from sep word (d ∷ p) q c here h = elim (Bool-cases (code d == sep)) [
  | inl closes ↦ rw closes (
      last?-cons (of_chars (reverse word)) (of_chars q) (split_from sep [] (p ++ c ∷ q))
        (last-split_from sep [] p q c here h))
  | inr longer ↦ rw longer (last-split_from sep (d ∷ word) p q c here h)
]

-- Without its leading separators, a text still ends as before.
drop_sep-middle :
    (sep : ℕ) (p q : List Char) (c : Char)
    → code c ≡ sep
    → has_char sep q ≡ false
    → (drop_sep sep (p ++ c ∷ q) ≡ q)
      ⊎ ((p' : List Char) × (drop_sep sep (p ++ c ∷ q) ≡ p' ++ c ∷ q))
drop_sep-middle sep [] [] c here h = inl (ground arith)
drop_sep-middle sep [] (d ∷ q) c here h = inl (ground arith)
drop_sep-middle sep (d ∷ p) q c here h = elim (Bool-cases (code d == sep)) [
  | inl drops ↦ rw drops (drop_sep-middle sep p q c here h)
  | inr stays ↦ inr (d ∷ p, rw stays)
]

has_char-append :
    (sep : ℕ) (p q : List Char) → has_char sep (p ++ q) ≡ false → has_char sep q ≡ false
has_char-append sep [] q h = h
has_char-append sep (c ∷ p) q h = has_char-append sep p q (ground arith)

-- A text that does not end with a separator has none to be dropped there.
trim_end :
    (sep : ℕ) (p q : List Char)
    → has_char sep q ≡ false
    → q ≢ []
    → reverse (drop_sep sep (reverse (p ++ q))) ≡ p ++ q
trim_end sep p q h some_char = elim (snoc-cases q) [
  | inl empty ↦ absurd (some_char empty)
  | inr (ys, y, e) ↦
      let whole : p ++ q ≡ (p ++ ys) ++ y ∷ [] =
        ap (λ t. p ++ t) e ∙ sym (append_assoc p ys (y ∷ [])) in
      let stays : (code y == sep) ≡ false =
        ground (arith, has_char-append sep ys (y ∷ []) (ap (has_char sep) (sym e) ∙ h)) in
      ap (λ t. reverse (drop_sep sep (reverse t))) whole
      ∙ ap (λ t. reverse (drop_sep sep t)) (reverse-append (p ++ ys) (y ∷ []))
      ∙ (rw stays
          (reverse-cons y (reverse (p ++ ys)) ∙ ap (λ t. t ++ y ∷ []) (reverse-reverse (p ++ ys))))
      ∙ sym whole
]

append-ne : (p : List Char) (c : Char) (q : List Char) → p ++ c ∷ q ≢ []
append-ne [] c q = λ e. cc
append-ne (d ∷ p) c q = λ e. cc

-- Trimming commas keeps what follows the last comma.
last-trim :
    (sep : ℕ) (p q : List Char) (c : Char)
    → code c ≡ sep
    → has_char sep q ≡ false
    → q ≢ []
    → let s = reverse (drop_sep sep (reverse (drop_sep sep (p ++ c ∷ q)))) in
      (s ≢ []) × (last? (split_from sep [] s) ≡ some (of_chars q))
last-trim sep p q c here h some_char = elim (drop_sep-middle sep p q c here h) [
  | inl only ↦
      let same : reverse (drop_sep sep (reverse (drop_sep sep (p ++ c ∷ q)))) ≡ q =
        ap (λ t. reverse (drop_sep sep (reverse t))) only ∙ trim_end sep [] q h some_char in
      rw same (some_char, ap last? (split_from-plain sep [] q h))
  | inr (p', e) ↦
      let split : p' ++ c ∷ q ≡ (p' ++ c ∷ []) ++ q = sym (append_assoc p' (c ∷ []) q) in
      let same : reverse (drop_sep sep (reverse (drop_sep sep (p ++ c ∷ q)))) ≡ p' ++ c ∷ q =
        ap (λ t. reverse (drop_sep sep (reverse t))) (e ∙ split)
        ∙ trim_end sep (p' ++ c ∷ []) q h some_char
        ∙ sym split in
      rw same (append-ne p' c q, last-split_from sep [] p' q c here h)
]

ne-eq : (s : String) → s ≢ "" → (s == "") ≡ false
ne-eq s h = ground (arith, ==_iff s "")

-- What `GetRealIP` looks up in a header, and that the header is not empty when it is trimmed.
last_address-trim :
    (before after : String)
    → has_char b',' (chars after) ≡ false
    → after ≢ ""
    → let xff = trim b',' (append before (append "," after)) in
      ((xff == "") ≡ false) × (last_address xff ≡ after)
unfolding trim split
last_address-trim before after plain some_char =
    let comma : Char = "," in
    let parts : chars (append before (append "," after)) ≡ chars before ++ comma ∷ chars after =
      chars-append before (append "," after)
      ∙ ap (λ t. chars before ++ t) (chars-append "," after) in
    let nonempty : chars after ≢ [] = λ e. some_char (sym (of_chars-chars after) ∙ ap of_chars e) in
    let (some_text, last) = last-trim b',' (chars before) (chars after) comma refl plain nonempty in
    let kept =
      reverse (drop_sep b',' (reverse (drop_sep b',' (chars before ++ comma ∷ chars after)))) in
    rw parts (
      ne-eq (of_chars kept) (λ e. some_text (sym (chars-of_chars kept) ∙ ap chars e)),
      ap (λ t. or_else (last? (split_from b',' [] t)) "") (chars-of_chars kept)
          ∙ ap (λ o. or_else o "") last
          ∙ of_chars-chars after,
    )

module _ (net : Resolver) (r : Origin) where
  -- Where something follows the last comma of the header X-Forwarded-For, it decides: if it is an
  -- address the client has that, and else that of the connection.
  pub get_real_ip-last :
      (before : String) (after : String)
      → r.forwarded_for ≡ append before (append "," after)
      → has_char b',' (chars after) ≡ false
      → after ≢ ""
      → get_real_ip net r ≡ or_else (net.parse_ip after) (host_of net r)
  unfolding get_real_ip
  get_real_ip-last before after header plain some_char =
      let (filled, last) = last_address-trim before after plain some_char in
      rw (header, filled, last) refl

  -- Where the header X-Forwarded-For has a space after its last comma, as proxies write it, the
  -- address that it ends with is not taken, but that of the connection, if a text that begins with a
  -- space is read as no address.
  pub get_real_ip-spaced :
      (before : String) (after : String)
      → ((s : String) → net.parse_ip (append " " s) ≡ none)
      → r.forwarded_for ≡ append before (append ", " after)
      → has_char b',' (chars after) ≡ false
      → get_real_ip net r ≡ host_of net r
  get_real_ip-spaced before after strict header plain =
      let spaced : chars (append " " after) ≡ " " ∷ chars after = chars-append " " after in
      get_real_ip-last before (append " " after)
        (header ∙ ap (append before) (text_assoc "," " " after)) (ap (has_char b',') spaced ∙ plain)
        (λ e. absurd (cc (sym spaced ∙ ap chars e)))
      ∙ ap (λ o. or_else o (host_of net r)) (strict after)
