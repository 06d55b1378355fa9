-- ===== src/Agtype/Operators/Strings.antt =====
-- `+` of agtype_ops.c where a string takes part.
use incubator_age.Prelude.{
  ℕ, ◌+◌, ◌≤◌, ◌≡◌, refl, ap, sym, ◌∙◌, Bool, true, false, ◌||◌, List, [], ◌∷◌, ◌++◌, length,
  length-append, ltb, arith, Bool-cases, inl, inr, if◌then◌else◌,
}
use mathlib.Core.List.{append_assoc, append-nil}
use incubator_age.Postgres.{Postgres, Arithmetic}
use incubator_age.Result.{Result, ok, err, ◌>>=◌, string_too_long}
use incubator_age.Agtype.{
  AgtypeValue, null, string, numeric, integer, float, boolean, vertex, edge, path, array, object,
  binary,
}
use incubator_age.Agtype.Entry.{offlenmask}
use incubator_age.Agtype.Operators.Scalars.{
  add_values, concat_to_agtype_string, get_string_from_agtype_value, is_string_type, has_text,
  is_decimal_needed,
}

-- the concatenation, or the error where it does not fit an agtentry
abbrev pub string_or_error : List ℕ → Result AgtypeValue
string_or_error s = if ltb offlenmask (length s) then err string_too_long else ok (string s)

test_bind :
    (b : Bool) (n : ℕ) (v : AgtypeValue)
    → ((if b then err string_too_long else ok n) >>= λ len. ok v)
      ≡ (if b then err string_too_long else ok v)
test_bind true n v = refl
test_bind false n v = refl

concat-eq : (x y : List ℕ) → concat_to_agtype_string x y ≡ string_or_error (x ++ y)
unfolding concat_to_agtype_string
concat-eq x y =
    test_bind (ltb offlenmask (length x + length y)) _ (string (x ++ y))
    ∙ ap (λ n. if ltb offlenmask n then err string_too_long else ok (string (x ++ y)))
        (sym (length-append x y))

has_text-string :
    (a b : AgtypeValue)
    → (is_string_type a || is_string_type b) ≡ true
    → (has_text a || has_text b) ≡ true
has_text-string a b h = ground arith

-- what an operand adds to a string
abbrev pub operand_text : Arithmetic → AgtypeValue → List ℕ
operand_text ar null = []
operand_text ar (string s) = s
operand_text ar (numeric n) = ar.numeric_out n
operand_text ar (integer i) = ar.int8out i
operand_text ar (float f) =
    ar.float8out f ++ (if is_decimal_needed (ar.float8out f) then b'.' ∷ b'0' ∷ [] else [])
operand_text ar (boolean b) = []
operand_text ar (vertex ps) = []
operand_text ar (edge ps) = []
operand_text ar (path es) = []
operand_text ar (array es raw) = []
operand_text ar (object ps) = []
operand_text ar (binary len bytes) = []

float_text :
    (needed : Bool) (text : List ℕ)
    → (if needed then text ++ b'.' ∷ b'0' ∷ [] else text)
      ≡ text ++ (if needed then b'.' ∷ b'0' ∷ [] else [])
float_text true text = refl
float_text false text = sym (append-nil text)

get_string-text :
    (ar : Arithmetic) (v : AgtypeValue) → get_string_from_agtype_value ar v ≡ operand_text ar v
unfolding get_string_from_agtype_value
get_string-text ar null = refl
get_string-text ar (string s) = refl
get_string-text ar (numeric n) = refl
get_string-text ar (integer i) = refl
get_string-text ar (float f) = float_text (is_decimal_needed (ar.float8out f)) (ar.float8out f)
get_string-text ar (boolean b) = refl
get_string-text ar (vertex ps) = refl
get_string-text ar (edge ps) = refl
get_string-text ar (path es) = refl
get_string-text ar (array es raw) = refl
get_string-text ar (object ps) = refl
get_string-text ar (binary len bytes) = refl

-- Where an operand is a string, `+` is the concatenation of the two texts, for every value on the
-- other side. The text of a string is the string, that of a number is what int8out, float8out or
-- numeric_out prints, with ".0" behind a float that is_decimal_needed asks for, and the text of
-- every other value, such as a null, a Boolean, a vertex, an edge or a path, is empty. `+` raises
-- the error for long strings where the result has more than 2^28 - 1 bytes.
pub add_values-string :
    (pg : Postgres) (ar : Arithmetic) (a b : AgtypeValue)
    → (is_string_type a || is_string_type b) ≡ true
    → add_values pg ar a b ≡ string_or_error (operand_text ar a ++ operand_text ar b)
unfolding add_values
add_values-string pg ar a b h =
    rw (h, has_text-string a b h)
      (concat-eq (get_string_from_agtype_value ar a) (get_string_from_agtype_value ar b)
        ∙ ap (λ x. string_or_error (x ++ get_string_from_agtype_value ar b)) (get_string-text ar a)
        ∙ ap (λ y. string_or_error (operand_text ar a ++ y)) (get_string-text ar b))

add-strings :
    (pg : Postgres) (ar : Arithmetic) (x y : List ℕ)
    → add_values pg ar (string x) (string y) ≡ string_or_error (x ++ y)
add-strings pg ar x y = add_values-string pg ar (string x) (string y) refl

longer : (m n : ℕ) → m ≤ n → ltb offlenmask m ≡ true → ltb offlenmask n ≡ true
longer m n le t = ground arith

-- a part that is too long makes the whole too long
part_first :
    (part whole : List ℕ) (f : AgtypeValue → Result AgtypeValue)
    → length part ≤ length whole
    → f (string part) ≡ string_or_error whole
    → (string_or_error part >>= f) ≡ string_or_error whole
part_first part whole f le h = elim (Bool-cases (ltb offlenmask (length part))) [
  | inl t ↦ rw (t, longer (length part) (length whole) le t) refl
  | inr u ↦ rw u h
]

-- On strings `+` is associative, its errors included: whichever way three strings are added, the
-- result is their concatenation, or the error for long strings just where that is too long.
pub add_strings_assoc :
    (pg : Postgres) (ar : Arithmetic) (x y z : List ℕ)
    → ((add_values pg ar (string x) (string y) >>= λ xy. add_values pg ar xy (string z))
        ≡ string_or_error (x ++ y ++ z))
      × ((add_values pg ar (string y) (string z) >>= λ yz. add_values pg ar (string x) yz)
          ≡ string_or_error (x ++ y ++ z))
add_strings_assoc pg ar x y z = (
  rw (add-strings pg ar x y) (
      part_first (x ++ y) (x ++ y ++ z) (λ xy. add_values pg ar xy (string z))
        (omega (arith, length-append (x ++ y) z)) (add-strings pg ar (x ++ y) z)),
  rw (add-strings pg ar y z, append_assoc x y z)
      (part_first (y ++ z) (x ++ (y ++ z)) (λ yz. add_values pg ar (string x) yz)
        (omega (arith, length-append x (y ++ z))) (add-strings pg ar x (y ++ z))),
)
