-- ===== src/Tests/Parsing.antt =====
-- Runs of the parser and the printer, and instances of the theorems on them.
use incubator_age.Agtype.Sort.{uniqueify_pairs, length_compare_agtype_pair}
use incubator_age.Agtype.Push.{push_agtype_value_scalar}
use incubator_age.Prelude.{
  ℕ, ◌+◌, ◌*◌, ◌-◌, ◌≡◌, ◌≢◌, ◌↔◌, refl, List, [], ◌∷◌, ◌++◌, true, false, drop, arith, none,
}
use incubator_age.Prelude.Int.{pos}
use incubator_age.Postgres.{TextFunctions}
use incubator_age.Result.{ok, err, invalid_input_syntax}
use incubator_age.Agtype.{
  vertex, edge, integer, boolean, string, null, array, object, Elems, nil, cons, end, pair,
}
use incubator_age.Agtype.Text.{same_bytes, length_compare_agtype_string_value}
use incubator_age.Agtype.Parser.Strings.{agtype_lex_string}
use incubator_age.Agtype.Parser.Escapes.{escape_agtype, Utf8Laws, lex_string-escape_agtype}
use incubator_age.Agtype.Parser.Numbers.{is_valid_agtype_number}
use incubator_age.Agtype.Parser.Grammar.{IsNumber}
use incubator_age.Agtype.Parser.Grammar.Reads.{is_valid-IsNumber}
use incubator_age.Agtype.Parser.Input.{is_array_path, parse_cstring}
use incubator_age.Agtype.Parser.Paths.{IsPath, is_array_path-IsPath}
use incubator_age.Agtype.Parser.Termination.{parse_agtype-terminates}
use incubator_age.Agtype.Parser.Descent.{parse_agtype}
use incubator_age.Agtype.Parser.Input.{in_actions}
use incubator_age.Agtype.Parser.Ends.{
  ConversionLaws, in_actions-Productive, parse_cstring-terminates,
}
use incubator_age.Result.{out_of_fuel}
use incubator_age.Result.Within.{returns}
use incubator_age.Tests.Samples.{postgres, qsort_arg, deserialize}

-- an encoding without multibyte characters, exact comparison of words, and decimal numbers
abbrev decimal_value : ℕ → List ℕ → ℕ
decimal_value n [] = n
decimal_value n (c ∷ cs) = decimal_value (n * 10 + (c - b'0')) cs

abbrev text_functions : TextFunctions
text_functions = record {
  encoding_is_utf8 = true;
  unicode_to_utf8 = λ c. c ∷ [];
  same_ignoring_case = same_bytes;
  scanint8 = λ s. ok (pos (decimal_value 0 s));
  float8in = λ s. ok 0;
  numeric_in = λ s. ok [];
}

text_functions-Utf8Laws : Utf8Laws text_functions
text_functions-Utf8Laws = record { ascii = λ c h. refl }

-- a, a quote, a newline and \u0001
lex_string-escape_agtype_example :
    agtype_lex_string text_functions
      (drop 1 (escape_agtype (b'a' ∷ b'"' ∷ 10 ∷ 1 ∷ [])) ++ b',' ∷ [])
    ≡ ok (b'a' ∷ b'"' ∷ 10 ∷ 1 ∷ [], b',' ∷ [])
lex_string-escape_agtype_example =
    lex_string-escape_agtype text_functions (b'a' ∷ b'"' ∷ 10 ∷ 1 ∷ []) (b',' ∷ [])
      text_functions-Utf8Laws (omega arith, (omega arith, (omega arith, (omega arith, tt))))

is_valid-IsNumber_example :
    (is_valid_agtype_number (b'-' ∷ b'1' ∷ b'.' ∷ b'5' ∷ b'e' ∷ b'3' ∷ []) ≡ true)
    ↔ IsNumber (b'-' ∷ b'1' ∷ b'.' ∷ b'5' ∷ b'e' ∷ b'3' ∷ [])
is_valid-IsNumber_example = is_valid-IsNumber (b'-' ∷ b'1' ∷ b'.' ∷ b'5' ∷ b'e' ∷ b'3' ∷ [])

numbers :
    (is_valid_agtype_number (b'-' ∷ b'1' ∷ b'.' ∷ b'5' ∷ b'e' ∷ b'3' ∷ []) ≡ true)
    × (is_valid_agtype_number (b'0' ∷ b'1' ∷ []) ≡ false)
    × (is_valid_agtype_number (b'1' ∷ b'.' ∷ []) ≡ false)
unfolding is_valid_agtype_number
numbers = (refl, refl, refl)

abbrev three_elements : Elems
three_elements = cons (vertex end) (cons (edge end) (cons (vertex end) nil))

is_array_path-IsPath_example : (is_array_path three_elements ≡ true) ↔ IsPath three_elements
is_array_path-IsPath_example = is_array_path-IsPath three_elements

-- [1, true]
parsed :
    parse_cstring postgres qsort_arg deserialize text_functions
      (b'[' ∷ b'1' ∷ b',' ∷ b' ' ∷ b't' ∷ b'r' ∷ b'u' ∷ b'e' ∷ b']' ∷ [])
    ≡ ok (array (cons (integer (pos 1)) (cons (boolean true) nil)) false)
unfolding parse_cstring push_agtype_value_scalar same_bytes
parsed = refl

-- {"b":null,"a":"x"}, whose keys come out in order
parsed_object :
    parse_cstring postgres qsort_arg deserialize text_functions (
      b'{' ∷ b'"' ∷ b'b' ∷ b'"' ∷ b':' ∷ b'n' ∷ b'u' ∷ b'l' ∷ b'l' ∷ b',' ∷ b'"' ∷ b'a' ∷ b'"'
      ∷ b':' ∷ b'"' ∷ b'x' ∷ b'"' ∷ b'}' ∷ [])
    ≡ ok (object (pair (b'a' ∷ []) (string (b'x' ∷ [])) 1 (pair (b'b' ∷ []) null 0 end)))
unfolding parse_cstring push_agtype_value_scalar same_bytes uniqueify_pairs
    length_compare_agtype_pair length_compare_agtype_string_value
parsed_object = refl

-- [1 and nothing more
unfinished :
    parse_cstring postgres qsort_arg deserialize text_functions (b'[' ∷ b'1' ∷ [])
    ≡ err invalid_input_syntax
unfolding parse_cstring push_agtype_value_scalar
unfinished = refl

text_functions-ConversionLaws : ConversionLaws text_functions
text_functions-ConversionLaws = record {
  integers = λ s. returns tt;
  floats = λ s. returns tt;
  numerics = λ s. returns tt;
}

-- [[1
parse_cstring-terminates_example :
    parse_cstring postgres qsort_arg deserialize text_functions (b'[' ∷ b'[' ∷ b'1' ∷ [])
    ≢ err out_of_fuel
parse_cstring-terminates_example =
    parse_cstring-terminates postgres qsort_arg deserialize text_functions (b'[' ∷ b'[' ∷ b'1' ∷ [])
      text_functions-ConversionLaws

parse_agtype-terminates_example :
    parse_agtype text_functions
      (in_actions postgres qsort_arg deserialize text_functions)
      (b'[' ∷ b'[' ∷ b'1' ∷ [])
      (record { parse_state = []; res = none })
    ≢ err out_of_fuel
parse_agtype-terminates_example =
    parse_agtype-terminates text_functions
      (in_actions postgres qsort_arg deserialize text_functions) (b'[' ∷ b'[' ∷ b'1' ∷ [])
      (record { parse_state = []; res = none })
      (in_actions-Productive postgres qsort_arg deserialize text_functions
        text_functions-ConversionLaws)
