-- ===== src/Model/Bencode/Sound.antt =====
-- What the reader passes over is a value of the grammar.
use rehydrator.Base.{
  ℕ, zero, suc, ◌+◌, ◌≤◌, ◌<◌, ◌≡◌, refl, sym, ap, ◌∙◌, inl, inr, Bool, true, false, [], ◌∷◌, ◌++◌,
  append_assoc, arith, ltb, ◌==◌, Bool-cases, Text,
}
use rehydrator.Model.Bencode.{ok, read_string, skip_int, max_depth, skip, skip_items}
use rehydrator.Model.Bencode.Grammar.{
  sign_text, Value, string, int, empty_list, empty_dictionary, list, dictionary, Items, no_items,
  item, Entries, no_entries, entry,
}
use rehydrator.Model.Bencode.Lexemes.{bind-ok, ok_inj, read_string-ok, skip_int-ok}

too_deep : {A : Type 0} (f depth : ℕ) (s r : Text) → max_depth < depth → skip f depth s ≡ ok r → A
unfolding skip
too_deep zero depth s r deep = λ h. absurd (cc h)
too_deep (suc f) depth [] r deep = λ h. absurd (cc h)
too_deep (suc f) depth (c ∷ s) r deep =
    let over : ltb max_depth depth ≡ true = ground arith in rw over (λ h. absurd (cc h))

-- what the reader took a value for
data Taken (f depth c : ℕ) (s rest : Text) : Type 0 where
  took_dictionary : c ≡ b'd' → skip_items f true depth s ≡ ok rest → Taken f depth c s rest
  took_list : c ≡ b'l' → skip_items f false depth s ≡ ok rest → Taken f depth c s rest
  took_int : c ≡ b'i' → skip_int s ≡ ok rest → Taken f depth c s rest
  took_string : (v : Text) → read_string (c ∷ s) ≡ ok (v, rest) → Taken f depth c s rest

skip-Taken :
    (f depth c : ℕ) (s rest : Text)
    → depth ≤ max_depth
    → skip (suc f) depth (c ∷ s) ≡ ok rest
    → Taken f depth c s rest
unfolding skip
skip-Taken f depth c s rest shallow =
    let fits : ltb max_depth depth ≡ false = ground arith in
    rw fits (elim (Bool-cases (c == b'd')) [
      | inl e ↦ rw e (λ h. took_dictionary (ground arith) h)
      | inr e ↦ rw e (elim (Bool-cases (c == b'l')) [
        | inl k ↦ rw k (λ h. took_list (ground arith) h)
        | inr k ↦ rw k (elim (Bool-cases (c == b'i')) [
          | inl i ↦ rw i (λ h. took_int (ground arith) h)
          | inr i ↦ rw i (λ h.
              let ((v, r), read, same) = bind-ok (read_string (c ∷ s)) (λ (v, r). ok r) rest h in
              took_string v (read ∙ ap (λ r. ok (v, r)) (ok_inj r rest same)))
        ])
      ])
    ])

-- what the reader took of the items of a container
data Rest (f : ℕ) (depth : ℕ) (s rest : Text) : Bool → Type 0 where
  ended : {keyed : Bool} → s ≡ b'e' ∷ rest → Rest f depth s rest keyed
  one_item :
      (r : Text)
      → skip f (depth + 1) s ≡ ok r
      → skip_items f false depth r ≡ ok rest
      → Rest f depth s rest false
  one_entry :
      (v t r : Text)
      → read_string s ≡ ok (v, t)
      → skip f (depth + 1) t ≡ ok r
      → skip_items f true depth r ≡ ok rest
      → Rest f depth s rest true

skip_items-Rest :
    (f depth : ℕ) (keyed : Bool) (s rest : Text)
    → skip_items (suc f) keyed depth s ≡ ok rest
    → Rest f depth s rest keyed
unfolding skip_items
skip_items-Rest f depth keyed [] rest = λ h. absurd (cc h)
skip_items-Rest f depth false (c ∷ s) rest = elim (Bool-cases (c == b'e')) [
  | inl e ↦ rw e (λ h. let here : c ≡ b'e' = ground arith in ended (cc (here, ok_inj s rest h)))
  | inr e ↦ rw e (λ h.
      let (r, one, more) = bind-ok (skip f (depth + 1) (c ∷ s)) _ rest h in one_item r one more)
]
skip_items-Rest f depth true (c ∷ s) rest = elim (Bool-cases (c == b'e')) [
  | inl e ↦ rw e (λ h. let here : c ≡ b'e' = ground arith in ended (cc (here, ok_inj s rest h)))
  | inr e ↦ rw e (λ h.
      let ((v, t), read, behind) = bind-ok (read_string (c ∷ s)) _ rest h in
      let (r, one, more) = bind-ok (skip f (depth + 1) t) _ rest behind in
      one_entry v t r read one more)
]

out_of_fuel_absurd : {A : Type 0} (depth : ℕ) (s rest : Text) → skip 0 depth s ≡ ok rest → A
unfolding skip
out_of_fuel_absurd depth s rest h = absurd (cc h)

nothing_absurd : {A : Type 0} (f depth : ℕ) (rest : Text) → skip (suc f) depth [] ≡ ok rest → A
unfolding skip
nothing_absurd f depth rest h = absurd (cc h)

no_items_absurd :
    {A : Type 0} (keyed : Bool) (depth : ℕ) (s rest : Text)
    → skip_items 0 keyed depth s ≡ ok rest
    → A
unfolding skip_items
no_items_absurd keyed depth s rest h = absurd (cc h)

-- the items of a container, with `h` levels left below it
abbrev Contents : Bool → ℕ → Text → Type 0
Contents keyed zero body = body ≡ []
Contents false (suc h) body = Items h body
Contents true (suc h) body = Entries h body

no-Contents : (keyed : Bool) (h : ℕ) → Contents keyed h []
no-Contents true zero = refl
no-Contents false zero = refl
no-Contents true (suc h) = no_entries refl
no-Contents false (suc h) = no_items refl

a_list : (h : ℕ) (body : Text) → Contents false h body → Value h (b'l' ∷ (body ++ b'e' ∷ []))
a_list zero body e = empty_list (ap (λ b. b'l' ∷ (b ++ b'e' ∷ [])) e)
a_list (suc h) body i = list body i refl

a_dictionary : (h : ℕ) (body : Text) → Contents true h body → Value h (b'd' ∷ (body ++ b'e' ∷ []))
a_dictionary zero body e = empty_dictionary (ap (λ b. b'd' ∷ (b ++ b'e' ∷ [])) e)
a_dictionary (suc h) body i = dictionary body i refl

-- a text that starts with a value
abbrev pub Starts : ℕ → Text → Text → Type 0
Starts h s rest = (x : Text) × (s ≡ x ++ rest) × Value h x

abbrev StartsItems : Bool → ℕ → Text → Text → Type 0
StartsItems keyed h s rest = (body : Text) × (s ≡ body ++ b'e' ∷ rest) × Contents keyed h body

around :
    (c : ℕ) (s body rest : Text)
    → s ≡ body ++ b'e' ∷ rest
    → c ∷ s ≡ (c ∷ (body ++ b'e' ∷ [])) ++ rest
around c s body rest e = ap (λ t. c ∷ t) (e ∙ sym (append_assoc body (b'e' ∷ []) rest))

-- what the reader takes with some fuel
Found : ℕ → Type 0
Found f =
    ((depth h : ℕ) (s rest : Text)
      → depth + h ≡ max_depth
      → skip f depth s ≡ ok rest
      → Starts h s rest)
    × ((keyed : Bool) (depth h : ℕ) (s rest : Text)
        → depth + h ≡ max_depth
        → skip_items f keyed depth s ≡ ok rest
        → StartsItems keyed h s rest)

Taken-found :
    (f depth h c : ℕ) (s rest : Text)
    → Found f
    → depth + h ≡ max_depth
    → Taken f depth c s rest
    → Starts h (c ∷ s) rest
unfolding Found
Taken-found f depth h c s rest ih l (took_dictionary e k) =
    let (body, split, x) = ih.1 true depth h s rest l k in
    (
      b'd' ∷ (body ++ b'e' ∷ []),
      ap (λ d. d ∷ s) e ∙ around b'd' s body rest split,
      a_dictionary h body x,
    )
Taken-found f depth h c s rest ih l (took_list e k) =
    let (body, split, x) = ih.1 false depth h s rest l k in
    (b'l' ∷ (body ++ b'e' ∷ []), ap (λ d. d ∷ s) e ∙ around b'l' s body rest split, a_list h body x)
Taken-found f depth h c s rest ih l (took_int e k) =
    let (negative, ds, p, q, split) = skip_int-ok s rest k in
    (
      b'i' ∷ (sign_text negative ++ ds ++ b'e' ∷ []),
      ap (λ d. d ∷ s) e ∙ ap (λ t. b'i' ∷ t) split,
      int negative ds p q refl,
    )
Taken-found f depth h c s rest ih l (took_string v k) =
    let (t, split, p) = read_string-ok (c ∷ s) v rest k in (t, split, string v p)

Rest-found :
    (f : ℕ) (keyed : Bool) (depth h : ℕ) (s rest : Text)
    → Found f
    → depth + h ≡ max_depth
    → Rest f depth s rest keyed
    → StartsItems keyed h s rest
unfolding Found
Rest-found f keyed depth h s rest ih l (ended e) = ([], e, no-Contents keyed h)
Rest-found f false depth zero s rest ih l (one_item r one more) =
    too_deep f (depth + 1) s r (omega arith) one
Rest-found f false depth (suc h) s rest ih l (one_item r one more) =
    let (x, first, v) = ih.0 (depth + 1) h s r (omega arith) one in
    let (body, split, i) = ih.1 false depth (suc h) r rest l more in
    (
      x ++ body,
      first ∙ ap (λ t. x ++ t) split ∙ sym (append_assoc x body (b'e' ∷ rest)),
      item x body v i refl,
    )
Rest-found f true depth zero s rest ih l (one_entry v t r read one more) =
    too_deep f (depth + 1) t r (omega arith) one
Rest-found f true depth (suc h) s rest ih l (one_entry v t r read one more) =
    let (k, front, p) = read_string-ok s v t read in
    let (x, first, w) = ih.0 (depth + 1) h t r (omega arith) one in
    let (body, split, i) = ih.1 true depth (suc h) r rest l more in
    (
      k ++ x ++ body,
      front
          ∙ ap (λ u. k ++ u) (first ∙ ap (λ u. x ++ u) split)
          ∙ sym (append_assoc k x (body ++ b'e' ∷ rest))
          ∙ sym (append_assoc (k ++ x) body (b'e' ∷ rest)),
      entry v k x body p w i refl,
    )

value_found :
    (f depth h : ℕ) (s rest : Text)
    → Found f
    → depth + h ≡ max_depth
    → skip (suc f) depth s ≡ ok rest
    → Starts h s rest
value_found f depth h [] rest ih l k = nothing_absurd f depth rest k
value_found f depth h (c ∷ s) rest ih l k =
    Taken-found f depth h c s rest ih l (skip-Taken f depth c s rest (omega arith) k)

found : (f : ℕ) → Found f
unfolding Found
found zero = (
  λ depth h s rest l k. out_of_fuel_absurd depth s rest k,
  λ keyed depth h s rest l k. no_items_absurd keyed depth s rest k,
)
found (suc f) = (
  λ depth h s rest l k. value_found f depth h s rest (found f) l k,
  λ keyed depth h s rest l k.
      Rest-found f keyed depth h s rest (found f) l (skip_items-Rest f depth keyed s rest k),
)

-- what the reader passes over is a value whose nesting fits under the limit
pub skip-Starts :
    (f depth h : ℕ) (s rest : Text)
    → depth + h ≡ max_depth
    → skip f depth s ≡ ok rest
    → Starts h s rest
unfolding Found
skip-Starts f = (found f).0
