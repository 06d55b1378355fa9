-- ===== src/Tests/Building.antt =====
-- The pushing of tokens at concrete values.
use incubator_age.Prelude.{◌≡◌, true, false, some, [], ◌∷◌, arith}
use incubator_age.Prelude.Int.{pos}
use incubator_age.Result.{ok, ◌>>=◌}
use incubator_age.Agtype.{
  null, integer, boolean, array, object, Elems, nil, cons, Pairs, end, pair, begin_array, end_array,
  begin_object, end_object,
}
use incubator_age.Agtype.Iterator.{unset}
use incubator_age.Agtype.Push.{push_agtype_value_scalar}
use incubator_age.Agtype.Push.Build.{push_all, built, push_tokens_build}
use incubator_age.Agtype.Push.Tokens.{elems_tokens, pairs_tokens}
use incubator_age.Tests.Samples.{postgres, qsort_arg}

-- {"b": true, "b": 5}
abbrev twice : Pairs
twice = pair (98 ∷ []) (boolean true) 0 (pair (98 ∷ []) (integer (pos 5)) 1 end)

-- [null, {"b": true, "b": 5}]
abbrev nested : Elems
nested = cons null (cons (object twice) nil)

push_tokens_build_example :
    ((push_all postgres qsort_arg [] ((begin_array, unset) ∷ elems_tokens nested) >>= λ s.
    push_agtype_value_scalar postgres qsort_arg s end_array unset)
      ≡ ok (some (built postgres qsort_arg (array nested false)), []))
    × ((push_all postgres qsort_arg [] ((begin_object, unset) ∷ pairs_tokens twice) >>= λ s.
          push_agtype_value_scalar postgres qsort_arg s end_object unset)
        ≡ ok (some (built postgres qsort_arg (object twice)), []))
push_tokens_build_example =
    push_tokens_build postgres qsort_arg nested twice
      (omega arith, omega arith, (tt, ((omega arith, omega arith, (tt, (tt, tt))), tt)))
      (omega arith, omega arith, (tt, (tt, tt)))
