-- ===== src/Agtype/Convert/Bounded.antt =====
-- The size that the conversions add to the buffer, and the loops of convert_agtype_array and
-- convert_agtype_object under a bound on it.
use incubator_age.Prelude.{
  ℕ, ◌+◌, ◌-◌, ◌*◌, ◌≤◌, ◌≡◌, refl, ap, ◌∙◌, List, [], ◌∷◌, ◌++◌, length, take, drop, replicate,
  length-append, length-take, length-drop, length-replicate, arith,
}
use mathlib.Core.Path.{subst}
use incubator_age.Result.{Result, ok, ◌>>=◌}
use incubator_age.Agtype.Entry.{offlenmask, offlenfld, tagged}
use incubator_age.Agtype.Container.{store_word}
use incubator_age.Agtype.Convert.{
  Buffer, add_entry, append_to_buffer, pad_buffer_to_int, reserve_from_buffer, copy_to_buffer,
  stride_entry, check_total, check_object_total, convert_container,
}
use incubator_age.Agtype.Convert.Buffers.{
  padding, append_to_buffer-append, pad_buffer_to_int-append,
}
use incubator_age.Agtype.Convert.Layout.{
  Conversion, Check, item_loop, Appended, AllAppend, length-store_word,
}

-- The conversion succeeds and adds at most w bytes.
pub record Succeeds (c : Conversion) (w : ℕ) (b : Buffer) : Type 0 where
  pub entry : ℕ
  pub result : Buffer
  pub returns : c b ≡ ok (entry, result)
  pub at_most : length result ≤ length b + w

abbrev pub Fits : Conversion → ℕ → Type 0
Fits c w = (b : Buffer) → Succeeds c w b

-- the conversions in order, with the sum of their bounds
pub data AllFit : List Conversion → ℕ → Type 0 where
  none_fit : AllFit [] 0
  more_fit :
      {c : Conversion} {cs : List Conversion} {w u : ℕ}
      → Fits c w
      → AllFit cs u
      → AllFit (c ∷ cs) (w + u)

pub AllFit-append :
    {cs ds : List Conversion} {u v : ℕ} → AllFit cs u → AllFit ds v → AllFit (cs ++ ds) (u + v)
AllFit-append {v} none_fit g = subst (AllFit _) (omega arith) g
AllFit-append {v} (more_fit {w} {u} f fs) g =
    subst (AllFit _) (omega arith) (more_fit f (AllFit-append fs g))

length-copy_to_buffer :
    (b : Buffer) (offset : ℕ) (bytes : List ℕ)
    → offset + length bytes ≤ length b
    → length (copy_to_buffer b offset bytes) ≡ length b
unfolding copy_to_buffer
length-copy_to_buffer b offset bytes h = omega (
  arith,
  length-append (take offset b) (bytes ++ drop (offset + length bytes) b),
  length-append bytes (drop (offset + length bytes) b),
  length-take offset b,
  length-drop (offset + length bytes) b,
)

abbrev Passes : Check → Type 0
Passes check = (t : ℕ) → t ≤ offlenmask → check t ≡ ok tt

pub check_total-Passes : Passes check_total
unfolding check_total
check_total-Passes t h = ground arith

pub check_object_total-Passes : Passes check_object_total
unfolding check_object_total
check_object_total-Passes t h = ground arith

add_entry-ok :
    (check : Check) (eo i t h : ℕ) (b : Buffer)
    → Passes check
    → t + offlenfld h ≤ offlenmask
    → add_entry check eo i t (h, b)
      ≡ ok
          (t + offlenfld h, copy_to_buffer b eo (store_word 4 (stride_entry i h (t + offlenfld h))))
unfolding add_entry
add_entry-ok check eo i t h b p s = rw (p (t + offlenfld h) s) refl

record LoopSucceeds (check : Check) (cs : List Conversion) (b : Buffer) (eo i t u : ℕ)
    : Type 0 where
  total : ℕ
  result : Buffer
  returns : item_loop check cs b eo i t ≡ ok (total, result)
  at_most : length result ≤ length b + u

item_loop-LoopSucceeds :
    (check : Check) (cs : List Conversion) (u : ℕ) (b : Buffer) (eo i t : ℕ)
    → Passes check
    → AllAppend cs
    → AllFit cs u
    → t + u ≤ offlenmask
    → eo + 4 * length cs ≤ length b
    → LoopSucceeds check cs b eo i t u
unfolding item_loop
item_loop-LoopSucceeds check [] u b eo i t p a none_fit s room = record {
  total = t;
  result = b;
  returns = refl;
  at_most = omega arith;
}
item_loop-LoopSucceeds check (c ∷ cs) u b eo i t p a (more_fit {w} {u = v} fits rest) s room =
    let r = fits b in
    let first : Appended b r.entry r.result = a.0 b r.entry r.result r.returns in
    let len : length r.result ≡ length b + offlenfld r.entry =
      omega (arith, ap length first.appended, length-append b first.bytes, first.counted) in
    let t1 = t + offlenfld r.entry in
    let word = store_word 4 (stride_entry i r.entry t1) in
    let b2 = copy_to_buffer r.result eo word in
    let len2 : length b2 ≡ length r.result =
      length-copy_to_buffer r.result eo word
        (omega (arith, length-store_word 4 (stride_entry i r.entry t1), len)) in
    let next =
      item_loop-LoopSucceeds check cs v b2 (eo + 4) (i + 1) t1 p a.1 rest
        (omega (arith, len, r.at_most)) (omega (arith, len2, len)) in
    record {
      total = next.total;
      result = next.result;
      returns =
          rw
            (
              r.returns,
              add_entry-ok check eo i t r.entry r.result p (omega (arith, len, r.at_most)),
            )
            next.returns;
      at_most = omega (arith, next.at_most, len2, r.at_most);
    }

pub container-Succeeds :
    (check : Check) (header count : ℕ) (cs : List Conversion) (loop : Buffer → ℕ → Result Buffer)
    (u : ℕ) (b : Buffer)
    → Passes check
    → AllAppend cs
    → AllFit cs u
    → count ≡ length cs
    → 7 + (4 * count + u) ≤ offlenmask
    → ((b : Buffer) (eo : ℕ) → loop b eo ≡ (item_loop check cs b eo 0 0 >>= λ r. ok r.1))
    → Succeeds (convert_container check header count loop) (7 + (4 * count + u)) b
unfolding convert_container reserve_from_buffer
container-Succeeds check header count cs loop u b p a f n s is_loop =
    let w = append_to_buffer (pad_buffer_to_int b).0 (store_word 4 header) in
    let start = w ++ replicate (4 * count) 0 in
    let len_w : length w ≡ length b + padding (length b) + 4 =
      ap length (append_to_buffer-append (pad_buffer_to_int b).0 (store_word 4 header))
      ∙ omega (
        arith,
        length-append (pad_buffer_to_int b).0 (store_word 4 header),
        length-store_word 4 header,
        ap (λ (r : Buffer × ℕ). length r.0) (pad_buffer_to_int-append b),
        length-append b (replicate (padding (length b)) 0),
        length-replicate {A = ℕ} (padding (length b)) 0,
      ) in
    let len_start : length start ≡ length w + 4 * count =
      omega (
        arith,
        length-append w (replicate (4 * count) 0),
        length-replicate {A = ℕ} (4 * count) 0,
      ) in
    let r =
      item_loop-LoopSucceeds check cs u start (length w) 0 0 p a f (omega arith)
        (omega (arith, len_start)) in
    let looped : loop start (length w) ≡ ok r.result =
      is_loop start (length w) ∙ ap (λ m. m >>= λ x. ok x.1) r.returns in
    let bound : length r.result ≤ length b + (7 + (4 * count + u)) =
      omega (arith, r.at_most, len_start, len_w) in
    record {
      entry = tagged 5 (length r.result - length b);
      result = r.result;
      returns = rw (looped, p (length r.result - length b) (omega (arith, bound))) refl;
      at_most = bound;
    }
