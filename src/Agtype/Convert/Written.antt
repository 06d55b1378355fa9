-- ===== src/Agtype/Convert/Written.antt =====
-- What convert_agtype_array and convert_agtype_object write, given that the conversions of their
-- items only append.
use incubator_age.Prelude.{
  ℕ, ◌+◌, ◌-◌, ◌*◌, ◌≤◌, ◌<◌, ◌^◌, ◌≡◌, refl, ap, sym, ◌∙◌, Bool, List, [], ◌++◌, length, replicate,
  length-append, length-replicate, arith, if◌then◌else◌,
}
use mathlib.Core.Path.{subst}
use mathlib.Core.List.{append_assoc, append-nil}
use incubator_age.Result.{Result, ok, ◌>>=◌, >>=-eq-ok, ok_injective}
use incubator_age.Agtype.{array, object, Elems, Pairs, num_elems, num_pairs}
use incubator_age.Agtype.Entry.{offlenmask, offlenfld, tagged, tagged-eq-add}
use incubator_age.Agtype.Container.{store_word}
use incubator_age.Agtype.Convert.{
  Buffer, Converted, append_to_buffer, pad_buffer_to_int, reserve_from_buffer, check_total,
  check_object_total, convert_container, convert_agtype_value, convert_elems, convert_keys,
  convert_values, array_loop, object_loop,
}
use incubator_age.Agtype.Convert.Buffers.{
  padding, append_to_buffer-append, pad_buffer_to_int-append,
}
use incubator_age.Agtype.Convert.Layout.{
  Conversion, Check, Bounds, item_loop, item_loop-Loop, Appended, AllAppend, Loop,
}
use incubator_age.Agtype.Convert.Items.{
  element_conversions, key_conversions, value_conversions, convert_elems-item_loop,
  object_loop-item_loop, length-conversions, length-object_conversions,
}

check_total-Bounds : Bounds check_total
unfolding check_total
check_total-Bounds t h = ground arith

check_object_total-Bounds : Bounds check_object_total
unfolding check_object_total
check_object_total-Bounds t h = ground arith

pub tagged-lt : (tag x : ℕ) → tag < 8 → x ≤ offlenmask → tagged tag x < 2 ^ 31
tagged-lt tag x h k = rw (tagged-eq-add tag x (omega arith) (omega arith)) (omega arith)

pub offlenfld-tagged : (tag x : ℕ) → tag < 16 → x ≤ offlenmask → offlenfld (tagged tag x) ≡ x
offlenfld-tagged tag x h k = rw (tagged-eq-add tag x h (omega arith)) (omega arith)

-- the bytes in front of a container's agtentrys, at a buffer of length n
abbrev pub prefix : ℕ → ℕ → List ℕ
prefix n header = replicate (padding n) 0 ++ store_word 4 header

-- What convert_agtype_array and convert_agtype_object write: the buffer as it was, padding, the
-- header, the agtentrys, the items; and their agtentry.
pub record Written (header : ℕ) (cs : List Conversion) (b : Buffer) (h : ℕ) (b' : Buffer)
    : Type 0 where
  pub loop : Loop cs 0 0 (b ++ prefix (length b) header) [] b'
  pub entry : h ≡ tagged 5 (length b' - length b)
  pub fits : length b' - length b ≤ offlenmask

pub convert_container-Written :
    (check : Check) (header count : ℕ) (cs : List Conversion) (loop : Buffer → ℕ → Result Buffer)
    (b : Buffer) (h : ℕ) (b' : Buffer)
    → Bounds check
    → AllAppend cs
    → count ≡ length cs
    → ((b : Buffer) (eo : ℕ) → loop b eo ≡ (item_loop check cs b eo 0 0 >>= λ r. ok r.1))
    → convert_container check header count loop b ≡ ok (h, b')
    → Written header cs b h b'
unfolding convert_container reserve_from_buffer
convert_container-Written check header count cs loop b h b' bounds a n is_loop e =
    let w = append_to_buffer (pad_buffer_to_int b).0 (store_word 4 header) in
    let reserved = replicate (4 * count) 0 in
    let (b2, looped, e1) = >>=-eq-ok (loop (w ++ reserved) (length w)) _ e in
    let (u, checked, e2) = >>=-eq-ok (check (length b2 - length b)) _ e1 in
    let same = ok_injective e2 in
    let ((t', b3), il, e3) =
      >>=-eq-ok (item_loop check cs (w ++ reserved) (length w) 0 0) _
        (sym (is_loop (w ++ reserved) (length w)) ∙ looped) in
    finish b2 t' b3 (bounds _ checked) same (ok_injective e3) il
  where
    finish :
        (b2 : Buffer) (t' : ℕ) (b3 : Buffer)
        → length b2 - length b ≤ offlenmask
        → ◌≡◌ {A = Converted} (tagged 5 (length b2 - length b), b2) (h, b')
        → b3 ≡ b2
        → item_loop check cs
            (append_to_buffer (pad_buffer_to_int b).0 (store_word 4 header)
              ++ replicate (4 * count) 0)
            (length (append_to_buffer (pad_buffer_to_int b).0 (store_word 4 header)))
            0
            0
          ≡ ok (t', b3)
        → Written header cs b h b'
    finish b2 t' b3 small same e3 il =
        let b2_is : b2 ≡ b' = ap (λ (r : Converted). r.1) same in
        let w_is : append_to_buffer (pad_buffer_to_int b).0 (store_word 4 header)
            ≡ b ++ prefix (length b) header =
          rw (pad_buffer_to_int-append, append_to_buffer-append, append_assoc) refl in
        let il2 : item_loop check cs
              ((b ++ prefix (length b) header) ++ (replicate (4 * count) 0 ++ []))
              (length (b ++ prefix (length b) header)) 0 0
            ≡ ok (t', b') =
          rw (append-nil {A = ℕ} (replicate (4 * count) 0), ← w_is, ← b2_is, ← e3) il in
        record {
          loop =
              item_loop-Loop check cs (b ++ prefix (length b) header) (replicate (4 * count) 0) [] 0
                0 t' b' bounds a (length-replicate (4 * count) 0 ∙ ap (λ k. 4 * k) n) il2;
          entry =
              ap (λ (r : Converted). r.0) (sym same)
              ∙ ap (λ b3. tagged 5 (length b3 - length b)) b2_is;
          fits = subst (λ b3. length b3 - length b ≤ offlenmask) b2_is small;
        }

pub Written-Appended :
    (header : ℕ) (cs : List Conversion) (b : Buffer) (h : ℕ) (b' : Buffer)
    → Written header cs b h b'
    → Appended b h b'
Written-Appended header cs b h b' w =
    let bytes = prefix (length b) header ++ (w.loop.slots ++ w.loop.content) in
    let is : b' ≡ b ++ bytes =
      w.loop.result ∙ append_assoc b (prefix (length b) header) (w.loop.slots ++ w.loop.content) in
    record {
      small = rw w.entry (tagged-lt 5 (length b' - length b) (omega arith) w.fits);
      bytes = bytes;
      appended = is;
      counted =
          ap offlenfld w.entry
          ∙ offlenfld-tagged 5 (length b' - length b) (omega arith) w.fits
          ∙ omega (arith, ap length is, length-append b bytes);
    }

-- What an array's conversion writes, given that its elements only append.
pub array-Written :
    (es : Elems) (raw : Bool) (b : Buffer) (h : ℕ) (b' : Buffer)
    → AllAppend (element_conversions es)
    → convert_agtype_value (array es raw) b ≡ ok (h, b')
    → Written (num_elems es + 2 ^ 30 + (if raw then 2 ^ 28 else 0)) (element_conversions es) b h b'
unfolding convert_agtype_value
array-Written es raw b h b' a e =
    convert_container-Written check_total (num_elems es + 2 ^ 30 + (if raw then 2 ^ 28 else 0))
      (num_elems es) (element_conversions es) (array_loop (convert_elems es)) b h b'
      check_total-Bounds a (length-conversions es)
      (λ b eo. ap (λ m. m >>= λ r. ok r.1) (convert_elems-item_loop es b eo 0 0)) e

pub object-Written :
    (ps : Pairs) (b : Buffer) (h : ℕ) (b' : Buffer)
    → AllAppend (key_conversions ps ++ value_conversions ps)
    → convert_agtype_value (object ps) b ≡ ok (h, b')
    → Written (num_pairs ps + 2 ^ 29) (key_conversions ps ++ value_conversions ps) b h b'
unfolding convert_agtype_value
object-Written ps b h b' a e =
    convert_container-Written check_object_total (num_pairs ps + 2 ^ 29) (num_pairs ps * 2)
      (key_conversions ps ++ value_conversions ps)
      (object_loop (num_pairs ps) (convert_keys ps) (convert_values ps)) b h b'
      check_object_total-Bounds a (length-object_conversions ps) (object_loop-item_loop ps) e
