-- ===== src/Agtype/Push/Tokens.antt =====
-- The calls of push_agtype_value that describe a value.
use incubator_age.Prelude.{List, [], ◌∷◌, ◌++◌}
use incubator_age.Agtype.{
  AgtypeValue, string, array, object, Elems, nil, cons, Pairs, end, pair, Token, key, value, elem,
  begin_array, end_array, begin_object, end_object,
}
use incubator_age.Agtype.Iterator.{Visited, unset, item}

-- the calls for a value that is an element or the value of a pair, as `tok` says
abbrev mutual
  pub item_tokens : Token → AgtypeValue → List (Token × Visited)
  item_tokens tok (array es raw) =
      (begin_array, unset) ∷ (elems_tokens es ++ (end_array, unset) ∷ [])
  item_tokens tok (object ps) =
      (begin_object, unset) ∷ (pairs_tokens ps ++ (end_object, unset) ∷ [])
  item_tokens tok v = (tok, item v) ∷ []

  pub elems_tokens : Elems → List (Token × Visited)
  elems_tokens nil = []
  elems_tokens (cons e es) = item_tokens elem e ++ elems_tokens es

  pub pairs_tokens : Pairs → List (Token × Visited)
  pairs_tokens end = []
  pairs_tokens (pair k v o ps) = (key, item (string k)) ∷ (item_tokens value v ++ pairs_tokens ps)
