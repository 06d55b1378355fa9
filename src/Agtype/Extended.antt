-- ===== src/Agtype/Extended.antt =====
-- The reading half of src/backend/utils/adt/agtype_ext.c: ag_deserialize_extended_type and
-- ag_deserialize_composite.
use incubator_age.Prelude.{
  ℕ, zero, suc, ◌+◌, ◌*◌, Option, none, some, true, List, [], drop, length, ◌==◌, if◌then◌else◌,
}
use incubator_age.Prelude.Word.{to_int64}
use incubator_age.Postgres.{Postgres}
use incubator_age.Result.{Result, ok, err, ◌>>=◌, assertion, fault, invalid_header, out_of_fuel}
use incubator_age.Agtype.{
  AgtypeValue, integer, float, vertex, edge, path, array, object, done, AgtypeValueType,
  vertex_type, edge_type, path_type,
}
use incubator_age.Agtype.Sort.{QsortArg}
use incubator_age.Agtype.Container.{load_word, intalign}
use incubator_age.Agtype.Fill.{Deserialize}
use incubator_age.Agtype.Iterator.{Iterator, agtype_iterator_init, agtype_iterator_next}
use incubator_age.Agtype.Push.{ParseState, push_agtype_value, pushed_value}

abbrev pub header_integer : ℕ
header_integer = 0

abbrev pub header_float : ℕ
header_float = 1

abbrev pub header_vertex : ℕ
header_vertex = 2

abbrev pub header_edge : ℕ
header_edge = 3

abbrev pub header_path : ℕ
header_path = 4

-- result->type = type; result->val = parsed_agtype_value->val. The union's member is that of the
-- container that was parsed; a vertex or edge reads it as an object, a path as an array.
retyped : AgtypeValueType → Option AgtypeValue → Result AgtypeValue
retyped vertex_type (some (object ps)) = ok (vertex ps)
retyped edge_type (some (object ps)) = ok (edge ps)
retyped path_type (some (array es _)) = ok (path es)
retyped _ none = err fault
retyped _ (some _) = err assertion

module _ (pg : Postgres) (qsort_arg : QsortArg) where
  module _ (deserialize : Deserialize) where
    composite_loop :
        ℕ → List Iterator → Option AgtypeValue → List ParseState → Result (Option AgtypeValue)
    composite_loop zero it parsed parse_state = err out_of_fuel
    composite_loop (suc fuel) it parsed parse_state = do
      (tok, r, it') ← agtype_iterator_next pg deserialize it true
      let continue = (do
        (parsed', parse_state') ←
            push_agtype_value pg qsort_arg deserialize parse_state tok (pushed_value tok r)
        composite_loop fuel it' parsed' parse_state')
      elim tok [ done ↦ ok parsed | _ ↦ continue ]

    unfoldable pub ag_deserialize_composite : List ℕ → AgtypeValueType → Result AgtypeValue
    unfolding composite_loop retyped
    ag_deserialize_composite base type = do
      let container_base = drop 4 base
      it ← agtype_iterator_init container_base
      parsed ← composite_loop (2 * length container_base + 2) it none []
      retyped type parsed

  extended_value : Deserialize → List ℕ → Result AgtypeValue
  unfolding ag_deserialize_composite
  extended_value deserialize base =
      let agt_header = load_word 4 base in
      if agt_header == header_integer
      then ok (integer (to_int64 (load_word 8 (drop 4 base))))
      else if agt_header == header_float
      then ok (float (load_word 8 (drop 4 base)))
      else if agt_header == header_vertex
      then ag_deserialize_composite deserialize base vertex_type
      else if agt_header == header_edge
      then ag_deserialize_composite deserialize base edge_type
      else if agt_header == header_path
      then ag_deserialize_composite deserialize base path_type
      else err invalid_header

  -- `depth` bounds how deep vertices, edges and paths nest in one another.
  unfoldable pub ag_deserialize_extended_type : ℕ → Deserialize
  unfolding extended_value
  ag_deserialize_extended_type zero base_addr offset = err out_of_fuel
  ag_deserialize_extended_type (suc depth) base_addr offset =
      extended_value (ag_deserialize_extended_type depth) (drop (intalign offset) base_addr)
