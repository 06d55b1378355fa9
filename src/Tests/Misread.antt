-- ===== src/Tests/Misread.antt =====
-- An array of the string a, a vertex and the string bc, written and read again.
use incubator_age.Prelude.{◌≡◌, refl, some, false, [], ◌∷◌}
use incubator_age.Prelude.Int.{pos}
use incubator_age.Result.{ok, ◌>>=◌}
use incubator_age.Agtype.{string, integer, vertex, array, nil, cons, end, pair}
use incubator_age.Agtype.Find.{get_ith_agtype_value_from_container}
use incubator_age.Agtype.Convert.{agtype_value_to_agtype}
use incubator_age.Agtype.Container.{store_word, load_word}
use incubator_age.Tests.Samples.{postgres, deserialize}

-- The third element comes back as two zero bytes.
third_misread :
    (agtype_value_to_agtype (
        array
          (cons (string (97 ∷ [])) (
            cons
              (vertex (pair (105 ∷ 100 ∷ []) (integer (pos 7)) 0 end))
              (cons (string (98 ∷ 99 ∷ [])) nil)))
          false)
      >>= λ container. get_ith_agtype_value_from_container postgres deserialize container 2)
    ≡ ok (some (string (0 ∷ 0 ∷ [])))
unfolding agtype_value_to_agtype get_ith_agtype_value_from_container store_word load_word
    incubator_age.Agtype.Container.header incubator_age.Agtype.Fill.fill_agtype_value
    incubator_age.Agtype.Container.child incubator_age.Agtype.Container.get_agtype_length
    incubator_age.Agtype.Container.data_after
third_misread = refl
