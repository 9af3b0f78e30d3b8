-- ===== src/Model/Bencode/Complete.antt =====
-- The reader passes over every value of the grammar, and stops right behind it.
use rehydrator.Base.{
  ℕ, zero, suc, ◌+◌, ◌*◌, ◌≤◌, ◌≡◌, refl, ap, ◌∙◌, subst, Bool, true, false, [], ◌∷◌, ◌++◌,
  append_assoc, arith, ltb, ◌==◌, if◌then◌else◌, length, length-append, take-append, drop-append,
  Text, text_eq,
}
use rehydrator.Model.Bencode.{
  ok, is_digit, digits, after_digits, max_int, read_body, read_string, skip_sign, skip_int,
  max_depth, skip, skip_items, fuel_for,
}
use rehydrator.Model.Bencode.Grammar.{
  IsDigits, IsString, sign_text, Value, string, int, empty_list, empty_dictionary, list, dictionary,
  Items, no_items, item, Entries, no_entries, entry,
}

digits_lem :
    (ds : Text) (c : ℕ) (s : Text) → IsDigits ds → is_digit c ≡ false → digits (ds ++ c ∷ s) ≡ ds
unfolding digits
digits_lem [] c s h e = rw e
digits_lem (d ∷ ds) c s h e = rw (h.0, digits_lem ds c s h.1 e)

after_digits_lem :
    (ds : Text) (c : ℕ) (s : Text)
    → IsDigits ds
    → is_digit c ≡ false
    → after_digits (ds ++ c ∷ s) ≡ c ∷ s
unfolding after_digits
after_digits_lem [] c s h e = rw e
after_digits_lem (d ∷ ds) c s h e = rw h.0 (after_digits_lem ds c s h.1 e)

read_body_lem :
    (v rest : Text) → length v ≤ max_int → read_body (length v) (b':' ∷ (v ++ rest)) ≡ ok (v, rest)
unfolding read_body
read_body_lem v rest h =
    let small : ltb max_int (length v) ≡ false = ground arith in
    let there : ltb (length (v ++ rest)) (length v) ≡ false =
      ground (arith, length-append v rest) in
    rw (small, there, take-append v rest, drop-append v rest)

-- A string of the grammar is read, whatever follows it.
pub read_string_lem : (v s rest : Text) → IsString v s → read_string (s ++ rest) ≡ ok (v, rest)
unfolding read_string
read_string_lem v s rest h =
    rw (h.shape, append_assoc h.size (b':' ∷ v) rest)
      (rw
        (
          digits_lem h.size b':' (v ++ rest) h.size_digits refl,
          after_digits_lem h.size b':' (v ++ rest) h.size_digits refl,
          h.size_some,
          h.size_value,
        )
        (read_body_lem v rest h.in_range))

-- The first byte of a value: a digit, or one of i, l, d.
unfoldable pub IsStart : Text → Type 0
IsStart s = (c : ℕ) × (t : Text) × (s ≡ c ∷ t) × ((c == b'e') ≡ false)

digit_head :
    (ds s : Text)
    → IsDigits ds
    → text_eq ds [] ≡ false
    → (c : ℕ) × (t : Text) × (ds ++ s ≡ c ∷ t) × (is_digit c ≡ true)
digit_head [] s h e = cc
digit_head (d ∷ ds) s h e = (d, ds ++ s, refl, h.0)

string_head : (v s : Text) → IsString v s → (c : ℕ) × (t : Text) × (s ≡ c ∷ t) × (is_digit c ≡ true)
string_head v s h =
    let (c, t, e, d) = digit_head h.size (b':' ∷ v) h.size_digits h.size_some in
    (c, t, h.shape ∙ e, d)

pub Value-IsStart : {h : ℕ} {s : Text} → Value h s → IsStart s
unfolding IsStart
Value-IsStart {s = s} (string v p) = let (c, t, e, d) = string_head v s p in (c, t, e, ground arith)
Value-IsStart (int n ds p q e) = (b'i', _, e, refl)
Value-IsStart (empty_list e) = (b'l', _, e, refl)
Value-IsStart (empty_dictionary e) = (b'd', _, e, refl)
Value-IsStart (list body x e) = (b'l', _, e, refl)
Value-IsStart (dictionary body x e) = (b'd', _, e, refl)

skip_string :
    (f depth : ℕ) (v s rest : Text)
    → IsString v s
    → depth ≤ max_depth
    → skip (suc f) depth (s ++ rest) ≡ ok rest
unfolding skip
skip_string f depth v s rest h l =
    let (c, t, e, d) = string_head v s h in
    let shallow : ltb max_depth depth ≡ false = ground arith in
    let not_d : (c == b'd') ≡ false = ground arith in
    let not_l : (c == b'l') ≡ false = ground arith in
    let not_i : (c == b'i') ≡ false = ground arith in
    let here : read_string (c ∷ (t ++ rest)) ≡ ok (v, rest) =
      subst (λ u. read_string (u ++ rest) ≡ ok (v, rest)) e (read_string_lem v s rest h) in
    rw (e, shallow, not_d, not_l, not_i, here)

skip_int_lem :
    (negative : Bool) (ds rest : Text)
    → IsDigits ds
    → text_eq ds [] ≡ false
    → skip_int (sign_text negative ++ ds ++ b'e' ∷ rest) ≡ ok rest
unfolding skip_int
skip_int_lem negative ds rest h e = rw (
  no_sign negative ds h e,
  digits_lem ds b'e' rest h refl,
  after_digits_lem ds b'e' rest h refl,
  e,
)
  where
    no_sign :
        (negative : Bool) (ds : Text)
        → IsDigits ds
        → text_eq ds [] ≡ false
        → skip_sign (sign_text negative ++ ds ++ b'e' ∷ rest) ≡ ds ++ b'e' ∷ rest
    no_sign true ds h e = refl
    no_sign false [] h e = cc
    no_sign false (d ∷ ds) h e = let k : (d == b'-') ≡ false = ground (arith, h.0) in rw k

pub length-start : (s : Text) → IsStart s → 1 ≤ length s
unfolding IsStart
length-start s (c, t, e, n) = rw e (omega arith)

-- one item, then the rest of the items
skip_items_plain :
    (f depth : ℕ) (s r : Text)
    → IsStart s
    → skip f (depth + 1) s ≡ ok r
    → skip_items (suc f) false depth s ≡ skip_items f false depth r
unfolding skip_items IsStart
skip_items_plain f depth s r (c, t, e, n) h =
    let h' : skip f (depth + 1) (c ∷ t) ≡ ok r = subst (λ u. skip f (depth + 1) u ≡ ok r) e h in
    rw (e, n, h')

skip_items_keyed :
    (f depth : ℕ) (s v t r : Text)
    → IsStart s
    → read_string s ≡ ok (v, t)
    → skip f (depth + 1) t ≡ ok r
    → skip_items (suc f) true depth s ≡ skip_items f true depth r
unfolding skip_items IsStart
skip_items_keyed f depth s v t r (c, u, e, n) k h =
    let k' : read_string (c ∷ u) ≡ ok (v, t) = subst (λ w. read_string w ≡ ok (v, t)) e k in
    rw (e, n, k', h)

pub IsStart-append : (s t : Text) → IsStart s → IsStart (s ++ t)
unfolding IsStart
IsStart-append s t (c, u, e, n) = (c, u ++ t, ap (λ w. w ++ t) e, n)

pub string-IsStart : (v s : Text) → IsString v s → IsStart s
string-IsStart v s h = Value-IsStart {h = 0} (string v h)

skip_items_end :
    (f : ℕ) (keyed : Bool) (depth : ℕ) (rest : Text)
    → skip_items (suc f) keyed depth (b'e' ∷ rest) ≡ ok rest
unfolding skip_items
skip_items_end f keyed depth rest = refl

skip_list :
    (f depth : ℕ) (keyed : Bool) (s : Text)
    → depth ≤ max_depth
    → skip (suc f) depth ((if keyed then b'd' else b'l') ∷ s) ≡ skip_items f keyed depth s
unfolding skip
skip_list f depth true s l = let shallow : ltb max_depth depth ≡ false = ground arith in rw shallow
skip_list f depth false s l = let shallow : ltb max_depth depth ≡ false = ground arith in rw shallow

skip_empty :
    (f depth : ℕ) (keyed : Bool) (rest : Text)
    → depth ≤ max_depth
    → 1 ≤ f
    → skip (suc f) depth ((if keyed then b'd' else b'l') ∷ b'e' ∷ rest) ≡ ok rest
skip_empty zero depth keyed rest l n = absurd (omega arith)
skip_empty (suc f) depth keyed rest l n =
    skip_list (suc f) depth keyed (b'e' ∷ rest) l ∙ skip_items_end f keyed depth rest

skip_number :
    (f depth : ℕ) (s : Text) → depth ≤ max_depth → skip (suc f) depth (b'i' ∷ s) ≡ skip_int s
unfolding skip
skip_number f depth s l = let shallow : ltb max_depth depth ≡ false = ground arith in rw shallow

mutual
  Value-skipped :
      (f depth h : ℕ) (s rest : Text)
      → Value h s
      → depth + h ≤ max_depth
      → 2 * length s + 1 ≤ f
      → skip f depth (s ++ rest) ≡ ok rest
  Value-skipped zero depth h s rest x l n = absurd (omega arith)
  Value-skipped (suc f) depth h s rest (string v p) l n =
      skip_string f depth v s rest p (omega arith)
  Value-skipped (suc f) depth h s rest (int negative ds p q e) l n =
      rw (e, append_assoc (sign_text negative ++ ds) (b'e' ∷ []) rest)
        (skip_number f depth _ (omega arith) ∙ skip_int_lem negative ds rest p q)
  Value-skipped (suc f) depth h s rest (empty_list e) l n =
      rw e (skip_empty f depth false rest (omega arith) (omega (arith, ap length e)))
  Value-skipped (suc f) depth h s rest (empty_dictionary e) l n =
      rw e (skip_empty f depth true rest (omega arith) (omega (arith, ap length e)))
  Value-skipped (suc f) depth (suc h) s rest (list body x e) l n =
      rw (e, append_assoc body (b'e' ∷ []) rest)
        (skip_list f depth false (body ++ b'e' ∷ rest) (omega arith)
          ∙ Items-skipped f depth h body rest x (omega arith)
              (omega (arith, ap length e, length-append body (b'e' ∷ []))))
  Value-skipped (suc f) depth (suc h) s rest (dictionary body x e) l n =
      rw (e, append_assoc body (b'e' ∷ []) rest)
        (skip_list f depth true (body ++ b'e' ∷ rest) (omega arith)
          ∙ Entries-skipped f depth h body rest x (omega arith)
              (omega (arith, ap length e, length-append body (b'e' ∷ []))))

  Items-skipped :
      (f depth h : ℕ) (s rest : Text)
      → Items h s
      → suc depth + h ≤ max_depth
      → 2 * length s + 2 ≤ f
      → skip_items f false depth (s ++ b'e' ∷ rest) ≡ ok rest
  Items-skipped zero depth h s rest x l n = absurd (omega arith)
  Items-skipped (suc f) depth h s rest (no_items e) l n = rw e (skip_items_end f false depth rest)
  Items-skipped (suc f) depth h s rest (item x y v w e) l n =
      let size : length s ≡ length x + length y = omega (arith, ap length e, length-append x y) in
      let some_x : 1 ≤ length x = length-start x (Value-IsStart v) in
      let tail : Text = y ++ b'e' ∷ rest in
      rw (e, append_assoc x y (b'e' ∷ rest))
        (skip_items_plain f depth (x ++ tail) tail (IsStart-append x tail (Value-IsStart v))
            (Value-skipped f (depth + 1) h x tail v (omega arith) (omega arith))
          ∙ Items-skipped f depth h y rest w l (omega arith))

  Entries-skipped :
      (f depth h : ℕ) (s rest : Text)
      → Entries h s
      → suc depth + h ≤ max_depth
      → 2 * length s + 2 ≤ f
      → skip_items f true depth (s ++ b'e' ∷ rest) ≡ ok rest
  Entries-skipped zero depth h s rest x l n = absurd (omega arith)
  Entries-skipped (suc f) depth h s rest (no_entries e) l n =
      rw e (skip_items_end f true depth rest)
  Entries-skipped (suc f) depth h s rest (entry key k x y p v w e) l n =
      let size : length s ≡ length k + (length x + length y) =
        omega (arith, ap length e, length-append (k ++ x) y, length-append k x) in
      let some_k : 1 ≤ length k = length-start k (string-IsStart key k p) in
      let tail : Text = y ++ b'e' ∷ rest in
      rw (e, append_assoc (k ++ x) y (b'e' ∷ rest), append_assoc k x (y ++ b'e' ∷ rest))
        (skip_items_keyed f depth (k ++ (x ++ tail)) key (x ++ tail) tail
            (IsStart-append k (x ++ tail) (string-IsStart key k p))
            (read_string_lem key k (x ++ tail) p)
            (Value-skipped f (depth + 1) h x tail v (omega arith) (omega arith))
          ∙ Entries-skipped f depth h y rest w l (omega arith))

-- A value of the grammar whose nesting fits under the limit of 100 is passed over exactly: the
-- reader goes on with the text right behind it, whatever that is.
pub skip_lem :
    (depth h : ℕ) (s rest : Text) (f : ℕ)
    → Value h s
    → depth + h ≤ max_depth
    → fuel_for (s ++ rest) ≤ f
    → skip f depth (s ++ rest) ≡ ok rest
skip_lem depth h s rest f v l n =
    Value-skipped f depth h s rest v l (omega (arith, length-append s rest))
