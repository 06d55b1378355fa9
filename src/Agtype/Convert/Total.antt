-- ===== src/Agtype/Convert/Total.antt =====
-- The conversions at values whose size is bounded.
use incubator_age.Prelude.{
  ℕ, ◌<◌, ◌∙◌, [], ◌+◌, ◌*◌, ◌≤◌, ◌≡◌, refl, ap, true, false, List, ◌++◌, length, replicate,
  length-append, length-replicate, arith, if◌then◌else◌, ◌^◌,
}
use incubator_age.Prelude.Word.{to_uint64}
use incubator_age.Result.{ok, ◌>>=◌}
use incubator_age.Agtype.{
  AgtypeValue, null, string, numeric, integer, float, boolean, vertex, edge, path, array, object,
  binary, Elems, nil, cons, Pairs, end, pair, num_elems, num_pairs,
}
use incubator_age.Agtype.Entry.{offlenmask}
use incubator_age.Agtype.Container.{store_word}
use incubator_age.Agtype.Convert.{
  Buffer, check_total, check_object_total, convert_agtype_value, array_loop, object_loop,
  convert_elems, convert_keys, convert_values, convert_string, convert_numeric, serialize_word,
  convert_to_agtype, reserve_from_buffer,
}
use incubator_age.Agtype.Convert.Buffers.{padding}
use incubator_age.Agtype.Convert.Layout.{Conversion, length-store_word}
use incubator_age.Agtype.Convert.Items.{
  element_conversions, key_conversions, value_conversions, convert_elems-item_loop,
  object_loop-item_loop, length-conversions, length-object_conversions,
}
use incubator_age.Agtype.Convert.Appends.{
  Plain, PlainElems, PlainPairs, elems-Append, values-Append, keys-Append, AllAppend-append,
  convert_string-eq, convert_numeric-eq, serialize_word-eq,
}
use incubator_age.Agtype.Convert.Bounded.{
  Succeeds, Fits, AllFit, none_fit, more_fit, AllFit-append, check_total-Passes,
  check_object_total-Passes, container-Succeeds,
}

-- The most bytes that a value can take, padding included.
abbrev mutual
  pub weight : AgtypeValue → ℕ
  weight (string s) = length s
  weight (numeric n) = 3 + length n
  weight (integer i) = 15
  weight (float f) = 15
  weight (array es raw) = 7 + (4 * num_elems es + elems_weight es)
  weight (object ps) = 7 + (4 * (num_pairs ps * 2) + (keys_weight ps + values_weight ps))
  weight _ = 0

  pub elems_weight : Elems → ℕ
  elems_weight nil = 0
  elems_weight (cons e es) = weight e + elems_weight es

  pub keys_weight : Pairs → ℕ
  keys_weight end = 0
  keys_weight (pair k v o ps) = length k + keys_weight ps

  pub values_weight : Pairs → ℕ
  values_weight end = 0
  values_weight (pair k v o ps) = weight v + values_weight ps

returned :
    (c : Conversion) (w : ℕ) (b : Buffer) (h : ℕ) (bytes : List ℕ)
    → c b ≡ ok (h, b ++ bytes)
    → length bytes ≤ w
    → Succeeds c w b
returned c w b h bytes e n = record {
  entry = h;
  result = b ++ bytes;
  returns = e;
  at_most = omega (arith, length-append b bytes);
}

string-Fits : (s : List ℕ) → Fits (λ b. ok (convert_string b s)) (length s)
string-Fits s b = returned _ (length s) b (length s) s (ap ok (convert_string-eq b s)) (omega arith)

keys-AllFit : (ps : Pairs) → AllFit (key_conversions ps) (keys_weight ps)
keys-AllFit end = none_fit
keys-AllFit (pair k v o ps) = more_fit (string-Fits k) (keys-AllFit ps)

word-Succeeds : (b : Buffer) (type word : ℕ) → Succeeds (λ b. ok (serialize_word b type word)) 15 b
word-Succeeds b type word = returned _ 15 b _ _ (ap ok (serialize_word-eq b type word)) (
    omega (
      arith,
      length-append {A = ℕ} (replicate (padding (length b)) 0)
          (store_word 4 type ++ store_word 8 word),
      length-append (store_word 4 type) (store_word 8 word),
      length-store_word 4 type,
      length-store_word 8 word,
      length-replicate {A = ℕ} (padding (length b)) 0,
    ))

numeric-Fits : (n : List ℕ) → Fits (λ b. ok (convert_numeric b n)) (3 + length n)
numeric-Fits n b = returned _ (3 + length n) b _ _ (ap ok (convert_numeric-eq b n)) (
    omega (
      arith,
      length-append {A = ℕ} (replicate (padding (length b)) 0) n,
      length-replicate {A = ℕ} (padding (length b)) 0,
    ))

unchanged : (c : Conversion) (w h : ℕ) (b : Buffer) → c b ≡ ok (h, b) → Succeeds c w b
unchanged c w h b e = record { entry = h; result = b; returns = e; at_most = omega arith }

mutual
  unfolding convert_agtype_value

  weight-Fits :
      (v : AgtypeValue) → Plain v → weight v ≤ offlenmask → Fits (convert_agtype_value v) (weight v)
  weight-Fits null p s b = unchanged _ 0 _ b refl
  weight-Fits (boolean true) p s b = unchanged _ 0 _ b refl
  weight-Fits (boolean false) p s b = unchanged _ 0 _ b refl
  weight-Fits (string x) p s b = string-Fits x b
  weight-Fits (numeric n) p s b = numeric-Fits n b
  weight-Fits (integer i) p s b = word-Succeeds b 0 (to_uint64 i)
  weight-Fits (float f) p s b = word-Succeeds b 1 f
  weight-Fits (array es raw) p s b =
      container-Succeeds check_total (num_elems es + 2 ^ 30 + (if raw then 2 ^ 28 else 0))
        (num_elems es) (element_conversions es) (array_loop (convert_elems es)) (elems_weight es) b
        check_total-Passes (elems-Append es p) (elems-AllFit es p (omega arith))
        (length-conversions es) s
        (λ b eo. ap (λ m. m >>= λ r. ok r.1) (convert_elems-item_loop es b eo 0 0))
  weight-Fits (object ps) p s b =
      container-Succeeds check_object_total (num_pairs ps + 2 ^ 29) (num_pairs ps * 2)
        (key_conversions ps ++ value_conversions ps)
        (object_loop (num_pairs ps) (convert_keys ps) (convert_values ps))
        (keys_weight ps + values_weight ps) b check_object_total-Passes
        (AllAppend-append (key_conversions ps) (value_conversions ps) (keys-Append ps p)
          (values-Append ps p))
        (AllFit-append (keys-AllFit ps) (values-AllFit ps p (omega arith)))
        (length-object_conversions ps) s (object_loop-item_loop ps)
  weight-Fits (vertex ps) p s b = absurd p
  weight-Fits (edge ps) p s b = absurd p
  weight-Fits (path es) p s b = absurd p
  weight-Fits (binary n bytes) p s b = absurd p

  elems-AllFit :
      (es : Elems)
      → PlainElems es
      → elems_weight es ≤ offlenmask
      → AllFit (element_conversions es) (elems_weight es)
  elems-AllFit nil p s = none_fit
  elems-AllFit (cons e es) p s =
      more_fit (weight-Fits e p.0 (omega arith)) (elems-AllFit es p.1 (omega arith))

  values-AllFit :
      (ps : Pairs)
      → PlainPairs ps
      → values_weight ps ≤ offlenmask
      → AllFit (value_conversions ps) (values_weight ps)
  values-AllFit end p s = none_fit
  values-AllFit (pair k v o ps) p s =
      more_fit (weight-Fits v p.1 (omega arith)) (values-AllFit ps p.2 (omega arith))

-- The conversion at a buffer, which is not bounded here: MaxAllocSize is far beyond those that
-- convert_to_agtype gets to.
pub convert_value-Succeeds :
    (v : AgtypeValue) (b : Buffer)
    → Plain v
    → weight v ≤ offlenmask
    → Succeeds (convert_agtype_value v) (weight v) b
convert_value-Succeeds v b p s = weight-Fits v p s b

-- the conversion behind the varlena header
converted :
    (v : AgtypeValue)
    → Plain v
    → convert_to_agtype v ≡ (convert_agtype_value v (reserve_from_buffer [] 4).0 >>= λ x. ok x.1)
unfolding convert_to_agtype
converted null p = refl
converted (string x) p = refl
converted (numeric x) p = refl
converted (integer x) p = refl
converted (float x) p = refl
converted (boolean x) p = refl
converted (vertex x) p = refl
converted (edge x) p = refl
converted (path x) p = refl
converted (array es raw) p = refl
converted (object ps) p = refl
converted (binary n bytes) p = absurd p

datum_length :
    (v : AgtypeValue) (out : Buffer)
    → length out ≤ length (reserve_from_buffer [] 4).0 + weight v
    → length out ≤ 4 + weight v
unfolding reserve_from_buffer
datum_length v out h = h

-- A value without vertices, edges, paths and binaries at any depth, of at most 2^28 - 1 bytes when
-- each padding is counted as three: convert_to_agtype succeeds, where the stack is deep enough for
-- its nesting, and the datum takes at most that many bytes and four, fewer than MaxAllocSize, which
-- is 2^30 - 1.
pub convert_to_agtype-Succeeds :
    (v : AgtypeValue)
    → Plain v
    → weight v ≤ offlenmask
    → (out : Buffer) × (convert_to_agtype v ≡ ok out)
      × (length out ≤ 4 + weight v)
      × (length out < 0x3fffffff)
convert_to_agtype-Succeeds v p s =
    let b = (reserve_from_buffer [] 4).0 in
    let r = convert_value-Succeeds v b p s in
    let n = datum_length v r.result r.at_most in
    (
      r.result,
      converted v p ∙ ap (λ m. m >>= λ x. ok x.1) {x = convert_agtype_value v b} r.returns,
      n,
      omega (arith, n, s),
    )
