-- ===== src/Agtype/Convert/Composites.antt =====
-- What ag_serialize_extended_type writes for a vertex, an edge or a path, and the agtentry it
-- returns.
use incubator_age.Prelude.{
  ℕ, ◌+◌, ◌≤◌, ◌≡◌, refl, ap, sym, ◌∙◌, false, List, ◌++◌, length, replicate, length-append,
  length-replicate, arith,
}
use mathlib.Core.List.{append_assoc}
use incubator_age.Result.{ok, >>=-eq-ok, ok_injective}
use incubator_age.Agtype.{AgtypeValue, vertex, edge, path, array, object, Elems, Pairs}
use incubator_age.Agtype.Entry.{offlenmask, offlenfld, tagged}
use incubator_age.Agtype.Container.{store_word}
use incubator_age.Agtype.Convert.{
  Buffer, Converted, ag_serialize_header, serialize_container, convert_agtype_value,
}
use incubator_age.Agtype.Convert.Buffers.{
  padding, append_to_buffer-append, pad_buffer_to_int-append,
}
use incubator_age.Agtype.Convert.Layout.{Conversion, Appends, length-store_word}
use incubator_age.Agtype.Convert.Appends.{PlainElems, PlainPairs, convert-Appends}
use incubator_age.Agtype.Convert.Written.{offlenfld-tagged, prefix}

-- A vertex, edge or path in which no other one stands.
abbrev pub PlainComposite : AgtypeValue → Type 0
PlainComposite (vertex ps) = PlainPairs ps
PlainComposite (edge ps) = PlainPairs ps
PlainComposite (path es) = PlainElems es
PlainComposite _ = ⊥

-- The buffer is extended by some bytes, and the agtentry with the padding counts them.
pub record Undercounted (b : Buffer) (h : ℕ) (b' : Buffer) : Type 0 where
  pub bytes : List ℕ
  pub appended : b' ≡ b ++ bytes
  pub undercounted : offlenfld h + padding (length b) ≡ length bytes

ag_serialize_header-eq :
    (b : Buffer) (type : ℕ) → (ag_serialize_header b type).0 ≡ b ++ prefix (length b) type
unfolding ag_serialize_header
ag_serialize_header-eq b type =
    rw (pad_buffer_to_int-append, append_to_buffer-append, append_assoc) refl

serialize_container-Undercounted :
    (c : Conversion) (b : Buffer) (type h : ℕ) (b' : Buffer)
    → Appends c
    → length b' ≤ offlenmask
    → serialize_container c b type ≡ ok (h, b')
    → Undercounted b h b'
unfolding serialize_container
serialize_container-Undercounted c b type h b' a small e =
    let ((ae, b1), converted, e1) = >>=-eq-ok (c (ag_serialize_header b type).0) _ e in
    let w = a (ag_serialize_header b type).0 ae b1 converted in
    let same : ◌≡◌ {A = Converted} (tagged 7 (offlenfld ae + 4), b1) (h, b') = ok_injective e1 in
    let is : b' ≡ b ++ (prefix (length b) type ++ w.bytes) =
      ap (λ (r : Converted). r.1) (sym same)
      ∙ w.appended
      ∙ ap (λ x. x ++ w.bytes) (ag_serialize_header-eq b type)
      ∙ append_assoc b (prefix (length b) type) w.bytes in
    let len : length (prefix (length b) type ++ w.bytes) ≡ padding (length b) + 4 + offlenfld ae =
      omega (
        arith,
        length-append (prefix (length b) type) w.bytes,
        length-append {A = ℕ} (replicate (padding (length b)) 0) (store_word 4 type),
        length-replicate {A = ℕ} (padding (length b)) 0,
        length-store_word 4 type,
        w.counted,
      ) in
    record {
      bytes = prefix (length b) type ++ w.bytes;
      appended = is;
      undercounted =
          ap (λ n. n + padding (length b))
            (ap (λ (r : Converted). offlenfld r.0) (sym same)
              ∙ offlenfld-tagged 7 (offlenfld ae + 4) (omega arith) (
                  omega (
                    arith,
                    len,
                    ap length is,
                    length-append b (prefix (length b) type ++ w.bytes),
                  )))
          ∙ omega (arith, len);
    }

object_value :
    (ps : Pairs) (b : Buffer)
    → convert_agtype_value (vertex ps) b
      ≡ serialize_container (convert_agtype_value (object ps)) b 2
unfolding convert_agtype_value serialize_container
object_value ps b = refl

edge_value :
    (ps : Pairs) (b : Buffer)
    → convert_agtype_value (edge ps) b ≡ serialize_container (convert_agtype_value (object ps)) b 3
unfolding convert_agtype_value serialize_container
edge_value ps b = refl

path_value :
    (es : Elems) (b : Buffer)
    → convert_agtype_value (path es) b
      ≡ serialize_container (convert_agtype_value (array es false)) b 4
unfolding convert_agtype_value serialize_container
path_value es b = refl

-- A vertex, edge or path, without another one inside, that convert_agtype_value writes to a buffer
-- that stays below 2^28 bytes: the agtentry's length is the number of bytes appended less the
-- padding that aligned the buffer, so it is too small by 1 to 3 at an unaligned buffer.
pub composite-Undercounted :
    (v : AgtypeValue) (b : Buffer) (h : ℕ) (b' : Buffer)
    → PlainComposite v
    → length b' ≤ offlenmask
    → convert_agtype_value v b ≡ ok (h, b')
    → Undercounted b h b'
composite-Undercounted (vertex ps) b h b' p small e =
    serialize_container-Undercounted (convert_agtype_value (object ps)) b 2 h b'
      (convert-Appends (object ps) p) small (sym (object_value ps b) ∙ e)
composite-Undercounted (edge ps) b h b' p small e =
    serialize_container-Undercounted (convert_agtype_value (object ps)) b 3 h b'
      (convert-Appends (object ps) p) small (sym (edge_value ps b) ∙ e)
composite-Undercounted (path es) b h b' p small e =
    serialize_container-Undercounted (convert_agtype_value (array es false)) b 4 h b'
      (convert-Appends (array es false) p) small (sym (path_value es b) ∙ e)
composite-Undercounted _ b h b' p small e = absurd p
