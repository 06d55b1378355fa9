-- ===== src/Lib.antt =====
-- Verification of the core of Apache AGE, a graph extension of PostgreSQL: the agtype data type
-- and graph identifiers.
--
-- An agtype datum is a JSON-like tree with vertices, edges and paths. In memory it is an
-- agtype_value; on disk it is a container: a header word, one 32-bit agtentry for each item, and
-- the items' bytes. src/backend/utils/adt/agtype_util.c builds values (push_agtype_value), writes
-- them (agtype_value_to_agtype), walks and searches containers (agtype_iterator_next,
-- find_agtype_value_from_container), and compares, contains and hashes them;
-- src/backend/utils/adt/agtype_ext.c writes and reads the types that JSON does not have; both call
-- each other. src/backend/utils/adt/graphid.c packs a label id and an entry id into the 64-bit
-- identifiers that vertices and edges carry.
--
-- The files, and the code that each models:
--   Prelude, Prelude/...       numbers, words, lists, integers
--   Result                     ereport(ERROR), Assert and NULL dereferences as values
--   Postgres                   the functions of PostgreSQL that are parameters
--   Graphid, Graphid/...       graphid.c and src/include/utils/graphid.h
--   Agtype                     the data types of src/include/utils/agtype.h
--   Agtype/Entry               agtentrys and header words of agtype.h
--   Agtype/Text                length_compare_agtype_string_value
--   Agtype/Sort                length_compare_agtype_pair, uniqueify_agtype_object
--   Agtype/Container           get_agtype_offset, get_agtype_length
--   Agtype/Fill                fill_agtype_value
--   Agtype/Iterator            agtype_iterator_init, agtype_iterator_next and their helpers
--   Agtype/Push                push_agtype_value and its helpers
--   Agtype/Extended            the reading half of agtype_ext.c
--   Agtype/Number              compare_two_floats_orderability, casts to float8
--   Agtype/Equal               equals_agtype_scalar_value
--   Agtype/Find                find_agtype_value_from_container,
--                              get_ith_agtype_value_from_container
--   Agtype/Compare             compare_agtype_scalar_values, compare_agtype_containers_orderability
--   Agtype/Contains            agtype_deep_contains
--   Agtype/Hash                agtype_hash_scalar_value
--   Agtype/Convert             convert_to_agtype, the convert_* functions and the writing half of
--                              agtype_ext.c
--   Agtype/Operators           the operators of agtype_ops.c on datums, and agtype_btree_cmp of
--                              agtype.c; below it Scalars has the operations on two values, Concat
--                              agtype_add, agtype_concat and iterator_concat, and Any the
--                              agtype_any_* functions
--   Agtype/Access              agtype_access_operator and agtype_access_slice of agtype.c
--   Agtype/Matches             agtype_string_match_starts_with, _ends_with and _contains of agtype.c
--   Agtype/Parser              agtype_parser.c and the text functions of agtype.c: Strings
--                              (agtype_lex_string), Escapes (escape_agtype), Numbers
--                              (agtype_lex_number), Lexer (agtype_lex), Descent (parse_agtype),
--                              Input (agtype_from_cstring), Output (agtype_to_cstring)
--   Result/Within              results that do not lack fuel
--   Tests/...                  a stand-in for PostgreSQL, concrete inputs, instances of theorems
-- A child module holds lemmas and theorems about its parent's definitions.
--
-- How the code is modelled:
-- - A StringInfo is the list of its bytes; a pointer into a container is the list of the bytes from
--   there on, and a read past the end, undefined in C, gives zeros. Words are little-endian.
-- - A `|` of fields with no bit in common is written as a sum: the header is the count plus its
--   flags, for counts below 2^28.
-- - A numeric is the bytes of its varlena datum, a float its IEEE 754 pattern, an object key its
--   bytes. numeric_cmp, varstr_cmp, the hash functions, VARSIZE and qsort_arg are parameters, and
--   the theorems that rely on them name the laws as hypotheses (SortsPairs, ComparisonLaws,
--   HashLaws, Storable).
-- - palloc and repalloc of the arrays of a parse state fail past MaxAllocSize, a parameter, with
--   32 bytes for an agtype_value and 72 for an agtype_pair. The error of enlargeStringInfo for a
--   buffer that would reach MaxAllocSize is left out: the buffer of reserve_from_buffer is a list
--   without a bound, which only grows. The theorems that promise a conversion from
--   convert_to_agtype on bound its bytes by 2^28 + 3, well below MaxAllocSize; the others are
--   about the runs that return. Other allocations are of bounded size or left out.
-- - ereport(ERROR) is a result `err`. A failed Assert is the error `assertion`; the Asserts of
--   convert_agtype_array about raw scalars are left out. Freeing memory, stack depth checks and the
--   pointer last_updated_value are left out. The raw_scalar field of a path, which the code never
--   sets, is false.
-- - The iterator's stack is a list with the innermost first; what *val holds after an end token is
--   not read by any caller, and is `unset`.
-- - Fuel: the binary search takes as many rounds as there are pairs and one more, for
--   the last test; the loops that unpack a container take two rounds for each of its bytes and two more,
--   as every node takes four bytes at least; ag_deserialize_extended_type takes the depth to which
--   vertices, edges and paths nest in each other; the comparison and the containment take their
--   bounds as arguments.
--
-- - The operators: `+`, `-`, `*`, `/`, fmod and pow on doubles, the numeric_* functions and the
--   output functions are parameters (Arithmetic). Arithmetic on int64 wraps, as PostgreSQL is built
--   with -fwrapv; an integer division without a result, undefined in C, is the error
--   `integer_trap`. The loops of iterator_concat take two rounds for each entry and two more.
--
-- - The string matches: strncmp, and strstr on the copies of pnstrdup, are parameters (CStrings).
--
-- - The parser: a pointer into the input is the input from there on. The semantic actions are a
--   record of functions on a state, of which the code sets these and no others. Error messages are
--   one constructor for each kind, without their positions and details. unicode_to_utf8,
--   pg_strcasecmp, scanint8, float8in_internal and numeric_in are parameters (TextFunctions).
--   parse_agtype takes four calls for each byte and four more; the printer takes two tokens for
--   each byte, and as an argument the depth to which vertices, edges and paths nest.
--
-- Not modelled: agtype_hash_scalar_value_extended; graphid_in, graphid_out and
-- graphid_btree_sort, which are glue around library calls; the other SQL-callable functions of
-- agtype.c, the Cypher parser, the planner nodes, the executor, the catalog and
-- the caches.
mod Prelude
pub mod Result
pub mod Postgres
pub mod Graphid
pub mod Agtype
pub mod Tests
