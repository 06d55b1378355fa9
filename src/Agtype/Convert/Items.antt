-- ===== src/Agtype/Convert/Items.antt =====
-- The loops of convert_agtype_array and convert_agtype_object as one loop over the conversions of
-- their items.
use incubator_age.Prelude.{
  ℕ, suc, ◌+◌, ◌*◌, ◌≡◌, refl, ap, ◌∙◌, List, [], ◌∷◌, ◌++◌, length, length-append, arith,
}
use native.Mathlib.Nat.{zero-add}
use incubator_age.Result.{Result, ok, err, ◌>>=◌, bind_ext}
use incubator_age.Agtype.{Elems, nil, cons, Pairs, end, pair, num_elems, num_pairs}
use incubator_age.Agtype.Convert.{
  Buffer, add_entry, convert_string, check_total, check_object_total, convert_agtype_value,
  convert_elems, convert_keys, convert_values, object_loop,
}
use incubator_age.Agtype.Convert.Layout.{Conversion, Check, item_loop}

abbrev pub element_conversions : Elems → List Conversion
element_conversions nil = []
element_conversions (cons e es) = convert_agtype_value e ∷ element_conversions es

abbrev pub key_conversions : Pairs → List Conversion
key_conversions end = []
key_conversions (pair k v o ps) = (λ b. ok (convert_string b k)) ∷ key_conversions ps

abbrev pub value_conversions : Pairs → List Conversion
value_conversions end = []
value_conversions (pair k v o ps) = convert_agtype_value v ∷ value_conversions ps

-- the array's loop is the loop over the conversions of its elements
pub convert_elems-item_loop :
    (es : Elems) (b : Buffer) (eo i t : ℕ)
    → convert_elems es b eo i t ≡ item_loop check_total (element_conversions es) b eo i t
unfolding item_loop convert_elems
convert_elems-item_loop nil b eo i t = refl
convert_elems-item_loop (cons e es) b eo i t =
    bind_ext (convert_agtype_value e b) _ _
      (λ c. bind_ext _ _ _ (λ r. convert_elems-item_loop es r.1 (eo + 4) (i + 1) r.0))

convert_values-item_loop :
    (ps : Pairs) (b : Buffer) (eo i t : ℕ)
    → convert_values ps b eo i t ≡ item_loop check_object_total (value_conversions ps) b eo i t
unfolding item_loop convert_values
convert_values-item_loop end b eo i t = refl
convert_values-item_loop (pair k v o ps) b eo i t =
    bind_ext (convert_agtype_value v b) _ _
      (λ c. bind_ext _ _ _ (λ r. convert_values-item_loop ps r.1 (eo + 4) (i + 1) r.0))

convert_keys-item_loop :
    (ps : Pairs) (b : Buffer) (eo i t : ℕ)
    → convert_keys ps b eo i t ≡ item_loop check_object_total (key_conversions ps) b eo i t
unfolding item_loop convert_keys
convert_keys-item_loop end b eo i t = refl
convert_keys-item_loop (pair k v o ps) b eo i t =
    bind_ext _ _ _ (λ r. convert_keys-item_loop ps r.1 (eo + 4) (i + 1) r.0)

-- a bind after two binds is moved into the second
bind_inward :
    {A B C D : Type 0} (m : Result A) (n : A → Result B) (f : B → Result D) (g : B → Result C)
    (k : C → Result D)
    → ((b : B) → f b ≡ (g b >>= k))
    → (m >>= λ a. n a >>= f) ≡ ((m >>= λ a. n a >>= g) >>= k)
bind_inward (err e) n f g k h = refl
bind_inward {B} {C} {D} (ok a) n f g k h = second (n a)
  where
    second : (r : Result B) → (r >>= f) ≡ ((r >>= g) >>= k)
    second (ok b) = h b
    second (err e) = refl

bind_assoc :
    {A B C : Type 0} (m : Result A) (f : A → Result B) (g : B → Result C)
    → (m >>= λ a. f a >>= g) ≡ ((m >>= f) >>= g)
bind_assoc (ok a) f g = refl
bind_assoc (err e) f g = refl

pub length-key_conversions : (ps : Pairs) → length (key_conversions ps) ≡ num_pairs ps
length-key_conversions end = refl
length-key_conversions (pair k v o ps) = ap suc (length-key_conversions ps)

item_loop-append :
    (check : Check) (cs ds : List Conversion) (b : Buffer) (eo i t : ℕ)
    → item_loop check (cs ++ ds) b eo i t ≡ (
        item_loop check cs b eo i t >>= λ r.
        item_loop check ds r.1 (eo + 4 * length cs) (i + length cs) r.0)
unfolding item_loop
item_loop-append check [] ds b eo i t =
    let e : eo + 4 * 0 ≡ eo = omega arith in let f : i + 0 ≡ i = omega arith in rw (e, f) refl
item_loop-append check (c ∷ cs) ds b eo i t =
    let e : eo + 4 * suc (length cs) ≡ eo + 4 + 4 * length cs = omega arith in
    let f : i + suc (length cs) ≡ i + 1 + length cs = omega arith in
    rw (e, f)
      (bind_inward (c b) (add_entry check eo i t) _ _ _
        (λ r. item_loop-append check cs ds r.1 (eo + 4) (i + 1) r.0))

-- the object's two loops are one loop over the keys and the values
pub object_loop-item_loop :
    (ps : Pairs) (b : Buffer) (eo : ℕ)
    → object_loop (num_pairs ps) (convert_keys ps) (convert_values ps) b eo ≡ (
        item_loop check_object_total (key_conversions ps ++ value_conversions ps) b eo 0 0 >>= λ r.
        ok r.1)
unfolding object_loop
object_loop-item_loop ps b eo =
    rw
      (
        convert_keys-item_loop ps b eo 0 0,
        item_loop-append check_object_total (key_conversions ps) (value_conversions ps) b eo 0 0,
        length-key_conversions ps,
        zero-add (num_pairs ps),
      )
      (bind_ext (item_loop check_object_total (key_conversions ps) b eo 0 0) _ _ (λ r.
          ap (λ m. m >>= λ x. ok x.1)
            (convert_values-item_loop ps r.1 (eo + 4 * num_pairs ps) (num_pairs ps) r.0))
        ∙ bind_assoc (item_loop check_object_total (key_conversions ps) b eo 0 0)
            (λ r.
              item_loop check_object_total (value_conversions ps) r.1 (eo + 4 * num_pairs ps)
                (num_pairs ps) r.0)
            (λ x. ok x.1))

pub length-conversions : (es : Elems) → num_elems es ≡ length (element_conversions es)
length-conversions nil = refl
length-conversions (cons e es) = ap suc (length-conversions es)

length-value_conversions : (ps : Pairs) → length (value_conversions ps) ≡ num_pairs ps
length-value_conversions end = refl
length-value_conversions (pair k v o ps) = ap suc (length-value_conversions ps)

pub length-object_conversions :
    (ps : Pairs) → num_pairs ps * 2 ≡ length (key_conversions ps ++ value_conversions ps)
length-object_conversions ps = omega (
  arith,
  length-append (key_conversions ps) (value_conversions ps),
  length-key_conversions ps,
  length-value_conversions ps,
)
