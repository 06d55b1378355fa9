-- ===== src/Agtype/Convert/Appends.antt =====
-- What the conversions of convert_agtype_value do to the buffer, and the lengths in their
-- agtentrys.
use incubator_age.Prelude.{
  ℕ, ◌+◌, ◌≤◌, ◌<◌, ◌^◌, ◌≡◌, refl, ap, sym, ◌∙◌, Bool, true, false, List, [], ◌∷◌, ◌++◌, length,
  replicate, length-append, length-replicate, arith,
}
use mathlib.Core.Path.{subst}
use mathlib.Core.List.{append_assoc, append-nil}
use incubator_age.Result.{Result, ok, ok_injective}
use incubator_age.Prelude.Int.{ℤ}
use incubator_age.Prelude.Word.{to_uint64}
use incubator_age.Agtype.{
  AgtypeValue, null, string, numeric, integer, float, boolean, vertex, edge, path, array, object,
  binary, Elems, nil, cons, Pairs, end, pair,
}
use incubator_age.Agtype.Entry.{offlenmask, offlenfld, tagged}
use incubator_age.Agtype.Container.{store_word}
use incubator_age.Agtype.Convert.{
  Buffer, Converted, convert_string, convert_numeric, serialize_word, ag_serialize_header,
  convert_agtype_value,
}
use incubator_age.Agtype.Convert.Buffers.{
  padding, append_to_buffer-append, pad_buffer_to_int-append,
}
use incubator_age.Agtype.Convert.Layout.{
  Conversion, Appended, Appends, AllAppend, length-store_word,
}
use incubator_age.Agtype.Convert.Items.{element_conversions, key_conversions, value_conversions}
use incubator_age.Agtype.Convert.Written.{
  Written-Appended, array-Written, object-Written, tagged-lt, offlenfld-tagged,
}

-- No vertex, edge or path at any depth, and strings and numerics short enough for an agtentry.
abbrev mutual
  pub Plain : AgtypeValue → Type 0
  Plain (string s) = length s ≤ offlenmask
  Plain (numeric n) = length n + 3 ≤ offlenmask
  Plain (array es raw) = PlainElems es
  Plain (object ps) = PlainPairs ps
  Plain (vertex ps) = ⊥
  Plain (edge ps) = ⊥
  Plain (path es) = ⊥
  Plain (binary len bytes) = ⊥
  Plain _ = Unit

  pub PlainElems : Elems → Type 0
  PlainElems nil = Unit
  PlainElems (cons e es) = Plain e × PlainElems es

  pub PlainPairs : Pairs → Type 0
  PlainPairs end = Unit
  PlainPairs (pair k v o ps) = (length k ≤ offlenmask) × Plain v × PlainPairs ps

pub convert_string-eq : (b s : List ℕ) → convert_string b s ≡ (length s, b ++ s)
unfolding convert_string
convert_string-eq b s = rw append_to_buffer-append

pub convert_numeric-eq :
    (b n : List ℕ)
    → convert_numeric b n
      ≡ (tagged 1 (padding (length b) + length n), b ++ (replicate (padding (length b)) 0 ++ n))
unfolding convert_numeric
convert_numeric-eq b n = rw (pad_buffer_to_int-append, append_to_buffer-append, append_assoc)

pub serialize_word-eq :
    (b : List ℕ) (type word : ℕ)
    → serialize_word b type word ≡ (
      tagged 7 (padding (length b) + 8 + 4),
      b ++ (replicate (padding (length b)) 0 ++ (store_word 4 type ++ store_word 8 word)),
    )
unfolding serialize_word ag_serialize_header
serialize_word-eq b type word =
    simp (pad_buffer_to_int-append, append_to_buffer-append, append_assoc)

Appended-of_eq :
    (b : Buffer) (h : ℕ) (b' : Buffer) (h0 : ℕ) (bytes : List ℕ)
    → ◌≡◌ {A = Result Converted} (ok (h0, b ++ bytes)) (ok (h, b'))
    → offlenfld h0 ≡ length bytes
    → h0 < 2 ^ 31
    → Appended b h b'
Appended-of_eq b h b' h0 bytes e n small = record {
  small = subst (λ x. x < 2 ^ 31) (ap (λ (r : Converted). r.0) (ok_injective e)) small;
  bytes = bytes;
  appended = ap (λ (r : Converted). r.1) (sym (ok_injective e));
  counted = ap (λ (r : Converted). offlenfld r.0) (sym (ok_injective e)) ∙ n;
}

length-padded :
    (n k : ℕ) (bytes : List ℕ) → length bytes ≡ k → length (replicate n 0 ++ bytes) ≡ n + k
length-padded n k bytes e =
    omega (arith, length-append {A = ℕ} (replicate n 0) bytes, length-replicate {A = ℕ} n 0, e)

word-Appends :
    (b : Buffer) (h : ℕ) (b' : Buffer) (type word : ℕ)
    → ok (serialize_word b type word) ≡ ok (h, b')
    → Appended b h b'
word-Appends b h b' type word e =
    let p = padding (length b) in
    Appended-of_eq b h b' (tagged 7 (p + 8 + 4))
      (replicate p 0 ++ (store_word 4 type ++ store_word 8 word))
      (ap ok (sym (serialize_word-eq b type word)) ∙ e)
      (offlenfld-tagged 7 (p + 8 + 4) (omega arith) (omega arith)
        ∙ sym (
            length-padded p (8 + 4) (store_word 4 type ++ store_word 8 word) (
              omega (
                arith,
                length-append (store_word 4 type) (store_word 8 word),
                length-store_word 4 type,
                length-store_word 8 word,
              ))
            ∙ omega arith))
      (tagged-lt 7 (p + 8 + 4) (omega arith) (omega arith))

pub AllAppend-append :
    (cs ds : List Conversion) → AllAppend cs → AllAppend ds → AllAppend (cs ++ ds)
AllAppend-append [] ds a d = d
AllAppend-append (c ∷ cs) ds a d = (a.0, AllAppend-append cs ds a.1 d)

string-Appends : (s : List ℕ) → length s ≤ offlenmask → Appends (λ b. ok (convert_string b s))
string-Appends s n b h b' e =
    Appended-of_eq b h b' (length s) s (ap ok (sym (convert_string-eq b s)) ∙ e) (omega arith)
      (omega arith)

pub keys-Append : (ps : Pairs) → PlainPairs ps → AllAppend (key_conversions ps)
keys-Append end p = tt
keys-Append (pair k v o ps) p = (string-Appends k p.0, keys-Append ps p.2)

string_value :
    (b : Buffer) (s : List ℕ) → ok (convert_string b s) ≡ convert_agtype_value (string s) b
unfolding convert_agtype_value
string_value b s = refl

tag_Appends :
    (tag : ℕ) (b : Buffer) (h : ℕ) (b' : Buffer)
    → tag < 8
    → ◌≡◌ {A = Result Converted} (ok (tagged tag 0, b)) (ok (h, b'))
    → Appended b h b'
tag_Appends tag b h b' n e =
    Appended-of_eq b h b' (tagged tag 0) [] (rw append-nil e)
      (offlenfld-tagged tag 0 (omega arith) (omega arith)) (tagged-lt tag 0 n (omega arith))

null_Appends : Appends (convert_agtype_value null)
unfolding convert_agtype_value
null_Appends b h b' e = tag_Appends 4 b h b' (omega arith) e

boolean_Appends : (x : Bool) → Appends (convert_agtype_value (boolean x))
unfolding convert_agtype_value
boolean_Appends true b h b' e = tag_Appends 3 b h b' (omega arith) e
boolean_Appends false b h b' e = tag_Appends 2 b h b' (omega arith) e

numeric_Appends :
    (n : List ℕ) → length n + 3 ≤ offlenmask → Appends (convert_agtype_value (numeric n))
unfolding convert_agtype_value
numeric_Appends n small b h b' e =
    let p = padding (length b) in
    Appended-of_eq b h b' (tagged 1 (p + length n)) (replicate p 0 ++ n)
      (ap ok (sym (convert_numeric-eq b n)) ∙ e)
      (offlenfld-tagged 1 (p + length n) (omega arith) (omega arith)
        ∙ sym (length-padded p (length n) n refl))
      (tagged-lt 1 (p + length n) (omega arith) (omega arith))

integer_Appends : (i : ℤ) → Appends (convert_agtype_value (integer i))
unfolding convert_agtype_value
integer_Appends i b h b' e = word-Appends b h b' 0 (to_uint64 i) e

float_Appends : (f : ℕ) → Appends (convert_agtype_value (float f))
unfolding convert_agtype_value
float_Appends f b h b' e = word-Appends b h b' 1 f e

mutual
  pub convert-Appends : (v : AgtypeValue) → Plain v → Appends (convert_agtype_value v)
  convert-Appends null p b h b' e = null_Appends b h b' e
  convert-Appends (string s) p b h b' e = string-Appends s p b h b' (string_value b s ∙ e)
  convert-Appends (numeric n) p b h b' e = numeric_Appends n p b h b' e
  convert-Appends (integer i) p b h b' e = integer_Appends i b h b' e
  convert-Appends (float f) p b h b' e = float_Appends f b h b' e
  convert-Appends (boolean x) p b h b' e = boolean_Appends x b h b' e
  convert-Appends (array es raw) p b h b' e =
      Written-Appended _ _ b h b' (array-Written es raw b h b' (elems-Append es p) e)
  convert-Appends (object ps) p b h b' e =
      Written-Appended _ _ b h b'
        (object-Written ps b h b' (AllAppend-append _ _ (keys-Append ps p) (values-Append ps p)) e)
  convert-Appends (vertex ps) p b h b' e = absurd p
  convert-Appends (edge ps) p b h b' e = absurd p
  convert-Appends (path es) p b h b' e = absurd p
  convert-Appends (binary len bytes) p b h b' e = absurd p

  pub elems-Append : (es : Elems) → PlainElems es → AllAppend (element_conversions es)
  elems-Append nil p = tt
  elems-Append (cons e es) p = (convert-Appends e p.0, elems-Append es p.1)

  pub values-Append : (ps : Pairs) → PlainPairs ps → AllAppend (value_conversions ps)
  values-Append end p = tt
  values-Append (pair k v o ps) p = (convert-Appends v p.1, values-Append ps p.2)

-- A conversion that succeeds, of a value without vertices, edges, paths and binaries at any depth
-- and with strings and numerics that fit an agtentry, leaves the buffer as it was and appends some
-- bytes; the agtentry's length field is their number, and its flag for an end offset is not set.
pub convert_value-Appended :
    (v : AgtypeValue) (b : Buffer) (h : ℕ) (b' : Buffer)
    → Plain v
    → convert_agtype_value v b ≡ ok (h, b')
    → Appended b h b'
convert_value-Appended v b h b' p e = convert-Appends v p b h b' e
