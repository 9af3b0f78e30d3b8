-- ===== src/Model/Bencode/Grammar.antt =====
-- Bencode as a grammar, apart from the reader. Like the reader, it takes leading zeros and `-0`.
use rehydrator.Base.{ℕ, suc, ◌≤◌, ◌≡◌, Bool, true, false, [], ◌∷◌, ◌++◌, length, All, Text, text_eq}
use rehydrator.Model.Bencode.{is_digit, value, max_int}

abbrev pub IsDigits : Text → Type 0
IsDigits = All (λ c. is_digit c ≡ true)

-- `s` is the string `v` behind its length.
pub record IsString (v s : Text) : Type 0 where
  pub size : Text
  pub size_digits : IsDigits size
  pub size_some : text_eq size [] ≡ false
  pub size_value : value size ≡ length v
  pub in_range : length v ≤ max_int
  pub shape : s ≡ size ++ b':' ∷ v

abbrev pub sign_text : Bool → Text
sign_text true = b'-' ∷ []
sign_text false = []

-- `Value h s`: `s` is a value whose lists and dictionaries that are not empty are nested `h` deep at
-- most.
mutual
  pub data Value : ℕ → Text → Type 0 where
    string : {h : ℕ} {s : Text} (v : Text) → IsString v s → Value h s
    int :
        {h : ℕ} {s : Text} (negative : Bool) (ds : Text)
        → IsDigits ds
        → text_eq ds [] ≡ false
        → s ≡ b'i' ∷ (sign_text negative ++ ds ++ b'e' ∷ [])
        → Value h s
    empty_list : {h : ℕ} {s : Text} → s ≡ b'l' ∷ b'e' ∷ [] → Value h s
    empty_dictionary : {h : ℕ} {s : Text} → s ≡ b'd' ∷ b'e' ∷ [] → Value h s
    list :
        {h : ℕ} {s : Text} (body : Text)
        → Items h body
        → s ≡ b'l' ∷ (body ++ b'e' ∷ [])
        → Value (suc h) s
    dictionary :
        {h : ℕ} {s : Text} (body : Text)
        → Entries h body
        → s ≡ b'd' ∷ (body ++ b'e' ∷ [])
        → Value (suc h) s

  pub data Items : ℕ → Text → Type 0 where
    no_items : {h : ℕ} {s : Text} → s ≡ [] → Items h s
    item : {h : ℕ} {s : Text} (x rest : Text) → Value h x → Items h rest → s ≡ x ++ rest → Items h s

  pub data Entries : ℕ → Text → Type 0 where
    no_entries : {h : ℕ} {s : Text} → s ≡ [] → Entries h s
    entry :
        {h : ℕ} {s : Text} (key k x rest : Text)
        → IsString key k
        → Value h x
        → Entries h rest
        → s ≡ k ++ x ++ rest
        → Entries h s
