-- ===== src/Agtype/Convert/Objects.antt =====
-- The container that convert_to_agtype writes for an object, and the places of its pairs.
use incubator_age.Prelude.{
  ℕ, zero, suc, ◌+◌, ◌*◌, ◌%◌, ◌^◌, ◌<◌, ◌≡◌, refl, ap, sym, ◌∙◌, some, List, [], ◌∷◌, ◌++◌, length,
  drop, replicate, get_elem?, arith, length-append,
}
use mathlib.Core.Path.{subst}
use mathlib.Core.Option.{some-injective}
use incubator_age.Result.{ok, >>=-eq-ok, ok_injective}
use incubator_age.Agtype.{object, Pairs, end, pair, Pair, num_pairs, pair_list}
use incubator_age.Agtype.Text.Order.{Before}
use incubator_age.Agtype.Sort.{All}
use incubator_age.Agtype.Sort.Unique.{Ascending}
use incubator_age.Agtype.Convert.{
  Buffer, convert_agtype_value, convert_string, convert_to_agtype, reserve_from_buffer,
}
use incubator_age.Agtype.Convert.Layout.{Conversion, length-store_word, Laid}
use incubator_age.Agtype.Convert.Items.{key_conversions, value_conversions}
use incubator_age.Agtype.Convert.Written.{object-Written, prefix}
use incubator_age.Agtype.Convert.Appends.{PlainPairs, keys-Append, values-Append, AllAppend-append}
use incubator_age.Agtype.Convert.Slots.{container_bytes}

abbrev pub conversions : Pairs → List Conversion
conversions ps = key_conversions ps ++ value_conversions ps

-- The container that an object's conversion writes.
pub record ObjectContainer (ps : Pairs) (out : Buffer) : Type 0 where
  pub position : ℕ
  pub aligned : position % 4 ≡ 0
  pub slots : List ℕ
  pub content : List ℕ
  pub bytes : drop 4 out ≡ container_bytes (num_pairs ps + 2 ^ 29) slots content
  pub length_slots : length slots ≡ 4 * length (conversions ps)
  pub laid : Laid (conversions ps) 0 0 position slots content

pub object_container :
    (ps : Pairs) (out : Buffer)
    → PlainPairs ps
    → convert_to_agtype (object ps) ≡ ok out
    → ObjectContainer ps out
unfolding convert_to_agtype reserve_from_buffer
object_container ps out plain e =
    let b = replicate {A = ℕ} 4 0 in
    let ((entry, out'), written, e1) = >>=-eq-ok (convert_agtype_value (object ps) b) _ e in
    let w =
      object-Written ps b entry out'
        (AllAppend-append (key_conversions ps) (value_conversions ps) (keys-Append ps plain)
          (values-Append ps plain))
        written in
    record {
      position = length (b ++ prefix 4 (num_pairs ps + 2 ^ 29)) + 4 * length (conversions ps) + 0;
      aligned = omega (
        arith,
        length-append b (prefix 4 (num_pairs ps + 2 ^ 29)),
        length-store_word 4 (num_pairs ps + 2 ^ 29),
      );
      slots = w.loop.slots;
      content = w.loop.content;
      bytes = ap (λ x. drop 4 x) (sym (ok_injective e1) ∙ w.loop.result);
      length_slots = w.loop.length_slots;
      laid = w.loop.laid;
    }

pub get_elem?-append :
    (cs ds : List Conversion) (i : ℕ) (c : Conversion)
    → get_elem? cs i ≡ some c
    → get_elem? (cs ++ ds) i ≡ some c
get_elem?-append [] ds i c e = absurd (cc e)
get_elem?-append (x ∷ cs) ds zero c e = e
get_elem?-append (x ∷ cs) ds (suc i) c e = get_elem?-append cs ds i c e

pub get_elem?-append_length :
    (cs ds : List Conversion) (i : ℕ) → get_elem? (cs ++ ds) (length cs + i) ≡ get_elem? ds i
get_elem?-append_length [] ds i = ap (get_elem? ds) {x = 0 + i} {y = i} (omega arith)
get_elem?-append_length (x ∷ cs) ds i =
    ap (get_elem? (x ∷ (cs ++ ds))) {x = suc (length cs) + i} {y = suc (length cs + i)}
      (omega arith)
    ∙ get_elem?-append_length cs ds i

pub key_at :
    (ps : Pairs) (i : ℕ) (p : Pair)
    → get_elem? (pair_list ps) i ≡ some p
    → get_elem? (key_conversions ps) i ≡ some (λ b. ok (convert_string b p.key))
key_at end i p e = absurd (cc e)
key_at (pair k v o ps) zero p e =
    ap (λ (q : Pair). some (λ (b : Buffer). ok (convert_string b q.key))) (some-injective _ _ e)
key_at (pair k v o ps) (suc i) p e = key_at ps i p e

pub value_at :
    (ps : Pairs) (i : ℕ) (p : Pair)
    → get_elem? (pair_list ps) i ≡ some p
    → get_elem? (value_conversions ps) i ≡ some (convert_agtype_value p.value)
value_at end i p e = absurd (cc e)
value_at (pair k v o ps) zero p e =
    ap (λ (q : Pair). some (convert_agtype_value q.value)) (some-injective _ _ e)
value_at (pair k v o ps) (suc i) p e = value_at ps i p e

pub pair_of_lt :
    (ps : Pairs) (i : ℕ) → i < num_pairs ps → (p : Pair) × (get_elem? (pair_list ps) i ≡ some p)
pair_of_lt end i h = absurd (omega arith)
pair_of_lt (pair k v o ps) zero h = (_, refl)
pair_of_lt (pair k v o ps) (suc i) h = pair_of_lt ps i (omega arith)

pub lt_of_pair :
    (ps : Pairs) (i : ℕ) (p : Pair) → get_elem? (pair_list ps) i ≡ some p → i < num_pairs ps
lt_of_pair end i p e = absurd (cc e)
lt_of_pair (pair k v o ps) zero p e = omega arith
lt_of_pair (pair k v o ps) (suc i) p e = omega (arith, lt_of_pair ps i p e)

All-at :
    (P : Pair → Type 0) (l : List Pair) (i : ℕ) (p : Pair) → All P l → get_elem? l i ≡ some p → P p
All-at P [] i p a e = absurd (cc e)
All-at P (q ∷ l) zero p a e = subst P (some-injective _ _ e) a.0
All-at P (q ∷ l) (suc i) p a e = All-at P l i p a.1 e

pub Ascending-Before :
    (l : List Pair) (i j : ℕ) (p q : Pair)
    → Ascending l
    → i < j
    → get_elem? l i ≡ some p
    → get_elem? l j ≡ some q
    → Before p.key q.key
Ascending-Before [] i j p q a h e f = absurd (cc e)
Ascending-Before (x ∷ l) i zero p q a h e f = absurd (omega arith)
Ascending-Before (x ∷ l) zero (suc j) p q a h e f =
    subst (λ (y : Pair). Before y.key q.key) (some-injective _ _ e)
      (All-at (λ y. Before x.key y.key) l j q a.0 f)
Ascending-Before (x ∷ l) (suc i) (suc j) p q a h e f =
    Ascending-Before l i j p q a.1 (omega arith) e f
