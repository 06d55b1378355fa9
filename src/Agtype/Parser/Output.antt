-- ===== src/Agtype/Parser/Output.antt =====
-- agtype_put_escaped_value, agtype_to_cstring and its worker, and add_indent of agtype.c. `out` is
-- the list of its bytes. For a vertex, an edge or a path the worker calls itself on the object or
-- array inside; `depth` bounds these calls, and `fuel` the tokens of one container.
use incubator_age.Prelude.{
  ℕ, zero, suc, ◌+◌, ◌-◌, ◌*◌, Bool, true, false, not, ◌&&◌, List, [], ◌∷◌, ◌++◌, length,
  if◌then◌else◌,
}
use incubator_age.Postgres.{Postgres, Arithmetic}
use incubator_age.Result.{
  Result, ok, err, ◌>>=◌, assertion, out_of_fuel, scalar_type_convert, unrecognized_token,
}
use incubator_age.Agtype.{
  AgtypeValue, null, string, numeric, integer, float, boolean, vertex, edge, path, array, object,
  Token, done, key, value, elem, begin_array, end_array, begin_object, end_object,
}
use incubator_age.Agtype.Fill.{Deserialize}
use incubator_age.Agtype.Iterator.{
  Iterator, Visited, array_header, object_header, item, agtype_iterator_init, agtype_iterator_next,
}
use incubator_age.Agtype.Convert.{agtype_value_to_agtype}
use incubator_age.Agtype.Operators.Scalars.{is_decimal_needed}
use incubator_age.Agtype.Parser.Escapes.{escape_agtype}

abbrev Text : Type 0
Text = List ℕ

abbrev null_text : Text
null_text = b'n' ∷ b'u' ∷ b'l' ∷ b'l' ∷ []

abbrev true_text : Text
true_text = b't' ∷ b'r' ∷ b'u' ∷ b'e' ∷ []

abbrev false_text : Text
false_text = b'f' ∷ b'a' ∷ b'l' ∷ b's' ∷ b'e' ∷ []

abbrev numeric_suffix : Text
numeric_suffix = b':' ∷ b':' ∷ b'n' ∷ b'u' ∷ b'm' ∷ b'e' ∷ b'r' ∷ b'i' ∷ b'c' ∷ []

abbrev vertex_suffix : Text
vertex_suffix = b':' ∷ b':' ∷ b'v' ∷ b'e' ∷ b'r' ∷ b't' ∷ b'e' ∷ b'x' ∷ []

abbrev edge_suffix : Text
edge_suffix = b':' ∷ b':' ∷ b'e' ∷ b'd' ∷ b'g' ∷ b'e' ∷ []

abbrev path_suffix : Text
path_suffix = b':' ∷ b':' ∷ b'p' ∷ b'a' ∷ b't' ∷ b'h' ∷ []

unfoldable pub float_text : Text → Text
unfolding is_decimal_needed
float_text numstr = numstr ++ (if is_decimal_needed numstr then b'.' ∷ b'0' ∷ [] else [])

-- an object or array that is written as a datum and printed without indentation
with_suffix : (Text → Result Text) → AgtypeValue → Text → Result Text
with_suffix worker v suffix = do
  prop ← agtype_value_to_agtype v
  text ← worker prop
  ok (text ++ suffix)

-- what is appended for a scalar
unfoldable pub agtype_put_escaped_value :
    Arithmetic → (Text → Result Text) → AgtypeValue → Result Text
unfolding with_suffix escape_agtype float_text
agtype_put_escaped_value ar worker null = ok null_text
agtype_put_escaped_value ar worker (string s) = ok (escape_agtype s)
agtype_put_escaped_value ar worker (numeric n) = ok (ar.numeric_out n ++ numeric_suffix)
agtype_put_escaped_value ar worker (integer i) = ok (ar.int8out i)
agtype_put_escaped_value ar worker (float f) = ok (float_text (ar.float8out f))
agtype_put_escaped_value ar worker (boolean true) = ok true_text
agtype_put_escaped_value ar worker (boolean false) = ok false_text
agtype_put_escaped_value ar worker (vertex ps) = with_suffix worker (object ps) vertex_suffix
agtype_put_escaped_value ar worker (edge ps) = with_suffix worker (object ps) edge_suffix
agtype_put_escaped_value ar worker (path es) = with_suffix worker (array es false) path_suffix
agtype_put_escaped_value ar worker _ = err scalar_type_convert

abbrev spaces : ℕ → Text
spaces zero = []
spaces (suc level) = b' ' ∷ b' ' ∷ b' ' ∷ b' ' ∷ spaces level

unfoldable pub add_indent : Bool → ℕ → Text
add_indent indent level = if indent then b'\n' ∷ spaces level else []

-- The worker's local variables.
pub record Printer : Type 0 where
  pub out : Text
  pub first : Bool
  pub level : ℕ
  pub use_indent : Bool
  pub raw_scalar : Bool
  pub last_was_key : Bool

module _ (pg : Postgres) (deserialize : Deserialize) (put : AgtypeValue → Result Text)
    (indent : Bool) where
  -- ", ", of which only the comma is written when indenting
  abbrev separator : Printer → Text
  separator p = if p.first then [] else if indent then b',' ∷ [] else b',' ∷ b' ' ∷ []

  -- the end of a round of the loop
  abbrev after_token : Bool → Printer → Printer
  after_token redo_switch p = record p { use_indent = indent; last_was_key = redo_switch }

  open_bracket : ℕ → Printer → Printer
  unfolding add_indent
  open_bracket bracket p = record p {
    out =
        p.out
        ++ separator p
        ++ add_indent (p.use_indent && not p.last_was_key) p.level
        ++ bracket ∷ [];
    first = true;
    level = p.level + 1;
  }

  begin_array_text : Bool → Printer → Printer
  unfolding open_bracket
  begin_array_text false p = open_bracket b'[' p
  begin_array_text true p = record p {
    out = p.out ++ separator p;
    raw_scalar = true;
    first = true;
    level = p.level + 1;
  }

  begin_text : Visited → Printer → Result Printer
  unfolding begin_array_text open_bracket
  begin_text (array_header n raw) p = ok (begin_array_text raw p)
  begin_text (object_header n) p = ok (open_bracket b'{' p)
  begin_text _ p = err assertion

  put_item : Visited → Result Text
  put_item (item v) = put v
  put_item _ = err assertion

  key_text : Visited → Printer → Result Printer
  unfolding put_item add_indent
  key_text v p = do
    text ← put_item v
    ok (record p {
      out = p.out ++ separator p ++ add_indent p.use_indent p.level ++ text ++ b':' ∷ b' ' ∷ [];
      first = true;
    })

  value_text : Visited → Printer → Result Printer
  unfolding put_item
  value_text v p = do text ← put_item v; ok (record p { out = p.out ++ text; first = false })

  elem_text : Visited → Printer → Result Printer
  unfolding put_item add_indent
  elem_text v p = do
    text ← put_item v
    ok (record p {
      out = p.out ++ separator p ++ add_indent (p.use_indent && not p.raw_scalar) p.level ++ text;
      first = false;
    })

  close_bracket : Bool → ℕ → Printer → Printer
  unfolding add_indent
  close_bracket visible bracket p =
      let level = p.level - 1 in
      let text = p.out ++ add_indent p.use_indent level ++ bracket ∷ [] in
      record p { level = level; out = if visible then text else p.out; first = false }

  -- the rest of the loop
  abbrev Continue : Type 0
  Continue = List Iterator → Printer → Result Text

  -- behind a key: a value, or a container, for which the switch runs again
  print_after_key : Continue → Token → Visited → List Iterator → Printer → Result Text
  unfolding value_text begin_text
  print_after_key continue value v it p = do p1 ← value_text v p; continue it (after_token false p1)
  print_after_key continue begin_array v it p = do
    p1 ← begin_text v (after_token true p)
    continue it (after_token false p1)
  print_after_key continue begin_object v it p = do
    p1 ← begin_text v (after_token true p)
    continue it (after_token false p1)
  print_after_key continue _ v it p = err assertion

  -- the switch
  print_token : Continue → Token → Visited → List Iterator → Printer → Result Text
  unfolding begin_text key_text elem_text close_bracket print_after_key
  print_token continue done v it p = ok p.out
  print_token continue begin_array v it p = do
    p1 ← begin_text v p
    continue it (after_token false p1)
  print_token continue begin_object v it p = do
    p1 ← begin_text v p
    continue it (after_token false p1)
  print_token continue key v it p = do
    p1 ← key_text v p
    (type, v', it') ← agtype_iterator_next pg deserialize it false
    print_after_key continue type v' it' p1
  print_token continue value v it p = err unrecognized_token
  print_token continue elem v it p = do p1 ← elem_text v p; continue it (after_token false p1)
  print_token continue end_array v it p =
      continue it (after_token false (close_bracket (not p.raw_scalar) b']' p))
  print_token continue end_object v it p =
      continue it (after_token false (close_bracket true b'}' p))

  -- while ((type = agtype_iterator_next(…)) != WAGT_DONE)
  unfoldable pub print_loop : ℕ → List Iterator → Printer → Result Text
  unfolding print_token
  print_loop zero it p = err out_of_fuel
  print_loop (suc fuel) it p = do
    (type, v, it') ← agtype_iterator_next pg deserialize it false
    print_token (λ it1 p1. print_loop fuel it1 p1) type v it' p

module _ (pg : Postgres) (ar : Arithmetic) (deserialize : Deserialize) where
  -- Every token takes at least four bytes of the container, or ends one that does.
  unfoldable pub agtype_to_cstring_worker : ℕ → Bool → List ℕ → Result Text
  unfolding print_loop agtype_put_escaped_value
  agtype_to_cstring_worker zero indent container = err out_of_fuel
  agtype_to_cstring_worker (suc depth) indent container = do
    it ← agtype_iterator_init container
    print_loop pg deserialize
        (agtype_put_escaped_value ar (λ prop. agtype_to_cstring_worker depth false prop)) indent
        (2 * length container + 2) it
        (record {
          out = [];
          first = true;
          level = 0;
          use_indent = false;
          raw_scalar = false;
          last_was_key = false;
        })

  unfoldable pub agtype_to_cstring : ℕ → List ℕ → Result Text
  unfolding agtype_to_cstring_worker
  agtype_to_cstring depth container = agtype_to_cstring_worker depth false container
