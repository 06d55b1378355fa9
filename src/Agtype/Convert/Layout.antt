-- ===== src/Agtype/Convert/Layout.antt =====
-- The layout of a container's agtentrys and data: the loops of convert_agtype_array and
-- convert_agtype_object seen as one loop over the conversions of their items.
use incubator_age.Prelude.{
  ℕ, zero, suc, ◌+◌, ◌*◌, ◌/◌, ◌≤◌, ◌<◌, ◌^◌, ◌≡◌, refl, ap, sym, ◌∙◌, List, [], ◌∷◌, ◌++◌, length,
  drop, length-append, length-drop, drop-append_le, arith,
}
use mathlib.Core.Path.{subst}
use mathlib.Core.List.{append_assoc, append-nil}
use incubator_age.Result.{Result, ok, ◌>>=◌, >>=-eq-ok, ok_injective}
use incubator_age.Agtype.Entry.{offlenmask, offlenfld}
use incubator_age.Agtype.Container.{store_word}
use incubator_age.Agtype.Convert.{Buffer, Converted, add_entry, stride_entry, copy_to_buffer}
use incubator_age.Agtype.Convert.Buffers.{copy_to_buffer-append}

abbrev pub Conversion : Type 0
Conversion = Buffer → Result Converted

abbrev pub Check : Type 0
Check = ℕ → Result (Unit {0})

unfoldable pub item_loop : Check → List Conversion → Buffer → ℕ → ℕ → ℕ → Result (ℕ × Buffer)
item_loop check [] buffer entry_offset i totallen = ok (totallen, buffer)
item_loop check (c ∷ cs) buffer entry_offset i totallen = do
  converted ← c buffer
  (totallen', buffer') ← add_entry check entry_offset i totallen converted
  item_loop check cs buffer' (entry_offset + 4) (i + 1) totallen'

-- The conversion only appends, and its agtentry counts what it has appended.
pub record Appended (b : Buffer) (h : ℕ) (b' : Buffer) : Type 0 where
  pub bytes : List ℕ
  pub appended : b' ≡ b ++ bytes
  pub counted : offlenfld h ≡ length bytes
  pub small : h < 2 ^ 31

abbrev pub Appends : Conversion → Type 0
Appends c = (b : Buffer) (h : ℕ) (b' : Buffer) → c b ≡ ok (h, b') → Appended b h b'

abbrev pub AllAppend : List Conversion → Type 0
AllAppend [] = Unit
AllAppend (c ∷ cs) = Appends c × AllAppend cs

-- The i-th agtentry and the bytes of an item, converted at the buffer `before`, and what follows.
pub record LaidFirst (c : Conversion) (rest : ℕ → ℕ → ℕ → List ℕ → List ℕ → Type 0)
    (i total position : ℕ) (slots content : List ℕ) : Type 0 where
  pub before : Buffer
  pub entry : ℕ
  pub bytes : List ℕ
  pub later_slots : List ℕ
  pub later_content : List ℕ
  pub at : length before ≡ position
  pub converted : c before ≡ ok (entry, before ++ bytes)
  pub counted : offlenfld entry ≡ length bytes
  pub small : entry < 2 ^ 31
  pub fits : total + length bytes ≤ offlenmask
  pub slots_are : slots ≡ store_word 4 (stride_entry i entry (total + length bytes)) ++ later_slots
  pub content_is : content ≡ bytes ++ later_content
  pub laid : rest (i + 1) (total + length bytes) (position + length bytes) later_slots later_content

-- The items from the i-th on, with `total` bytes before them, the buffer's length `position` at
-- the first of them, their agtentrys and their bytes.
abbrev pub Laid : List Conversion → ℕ → ℕ → ℕ → List ℕ → List ℕ → Type 0
Laid [] i total position slots content = (slots ≡ []) × (content ≡ [])
Laid (c ∷ cs) i total position slots content = LaidFirst c (Laid cs) i total position slots content

-- What the loop leaves: the first part untouched, the agtentrys in place of the reserved words,
-- and the items' bytes behind.
pub record Loop (cs : List Conversion) (i total : ℕ) (pre body : List ℕ) (b' : Buffer)
    : Type 0 where
  pub slots : List ℕ
  pub content : List ℕ
  pub result : b' ≡ pre ++ (slots ++ (body ++ content))
  pub length_slots : length slots ≡ 4 * length cs
  pub laid : Laid cs i total (length pre + 4 * length cs + length body) slots content

pub length-store_word : (n x : ℕ) → length (store_word n x) ≡ n
unfolding store_word
length-store_word zero x = refl
length-store_word (suc n) x = ap suc (length-store_word n (x / 256))

-- What a successful round does: the total grows by the item's length, within the limit, and the
-- agtentry is written.
record Entered (eo i t h : ℕ) (b : Buffer) (t' : ℕ) (b' : Buffer) : Type 0 where
  total : t' ≡ t + offlenfld h
  fits : t' ≤ offlenmask
  written : b' ≡ copy_to_buffer b eo (store_word 4 (stride_entry i h t'))

abbrev pub Bounds : Check → Type 0
Bounds check = (t : ℕ) → check t ≡ ok tt → t ≤ offlenmask

add_entry-Entered :
    (check : Check) (eo i t h t' : ℕ) (b b' : Buffer)
    → Bounds check
    → add_entry check eo i t (h, b) ≡ ok (t', b')
    → Entered eo i t h b t' b'
unfolding add_entry
add_entry-Entered check eo i t h t' b b' bounds e =
    let (u, checked, rest) = >>=-eq-ok (check (t + offlenfld h)) _ e in
    let same = ok_injective rest in
    let total : t' ≡ t + offlenfld h = ap (λ (r : ℕ × Buffer). r.0) (sym same) in
    record {
      total = total;
      fits = rw total (bounds _ checked);
      written = rw total (ap (λ (r : ℕ × Buffer). r.1) (sym same));
    }

-- The agtentry goes over the first reserved word, with the new item already behind the buffer.
overwrite :
    (pre old body bytes w : List ℕ)
    → length w ≡ 4
    → 4 ≤ length old
    → copy_to_buffer ((pre ++ (old ++ body)) ++ bytes) (length pre) w
      ≡ (pre ++ w) ++ (drop 4 old ++ (body ++ bytes))
overwrite pre old body bytes w n h =
    rw
      (
        append_assoc pre (old ++ body) bytes,
        append_assoc old body bytes,
        copy_to_buffer-append,
        n,
        drop-append_le 4 old (body ++ bytes) h,
        append_assoc pre w (drop 4 old ++ (body ++ bytes)),
      )
      refl

regroup :
    (pre w slots body bytes content : List ℕ)
    → (pre ++ w) ++ (slots ++ ((body ++ bytes) ++ content))
      ≡ pre ++ ((w ++ slots) ++ (body ++ (bytes ++ content)))
regroup pre w slots body bytes content = simp append_assoc

-- One more item in front of a loop's result.
Loop-cons :
    (c : Conversion) (cs : List Conversion) (pre old body bytes : List ℕ) (i t h t1 : ℕ)
    (b' : Buffer)
    → length old ≡ 4 * length (c ∷ cs)
    → c (pre ++ (old ++ body)) ≡ ok (h, (pre ++ (old ++ body)) ++ bytes)
    → offlenfld h ≡ length bytes
    → h < 2 ^ 31
    → t1 ≡ t + length bytes
    → t1 ≤ offlenmask
    → Loop cs (i + 1) t1 (pre ++ store_word 4 (stride_entry i h t1)) (body ++ bytes) b'
    → Loop (c ∷ cs) i t pre body b'
Loop-cons c cs pre old body bytes i t h t1 b' n converted counted small total fits rest =
    let w = store_word 4 (stride_entry i h t1) in
    let w4 = length-store_word 4 (stride_entry i h t1) in
    let before = pre ++ (old ++ body) in
    let later_position : length pre + 4 * length (c ∷ cs) + length body + length bytes
        ≡ length (pre ++ w) + 4 * length cs + length (body ++ bytes) =
      omega (arith, length-append pre w, length-append body bytes, w4) in
    record {
      slots = w ++ rest.slots;
      content = bytes ++ rest.content;
      result = rest.result ∙ regroup pre w rest.slots body bytes rest.content;
      length_slots = omega (arith, length-append w rest.slots, rest.length_slots, w4);
      laid = record {
        before = before;
        entry = h;
        bytes = bytes;
        later_slots = rest.slots;
        later_content = rest.content;
        at = omega (arith, length-append pre (old ++ body), length-append old body);
        converted = converted;
        counted = counted;
        small = small;
        fits = omega arith;
        slots_are = ap (λ r. store_word 4 (stride_entry i h r) ++ rest.slots) total;
        content_is = refl;
        laid =
            subst
              (λ r.
                Laid cs (i + 1) r (length pre + 4 * length (c ∷ cs) + length body + length bytes)
                  rest.slots rest.content)
              total
              (subst (λ p. Laid cs (i + 1) t1 p rest.slots rest.content) (sym later_position)
                rest.laid);
      };
    }

pub item_loop-Loop :
    (check : Check) (cs : List Conversion) (pre old body : List ℕ) (i t t' : ℕ) (b' : Buffer)
    → Bounds check
    → AllAppend cs
    → length old ≡ 4 * length cs
    → item_loop check cs (pre ++ (old ++ body)) (length pre) i t ≡ ok (t', b')
    → Loop cs i t pre body b'
unfolding item_loop
item_loop-Loop check [] pre [] body i t t' b' bounds a n e = record {
  slots = [];
  content = [];
  result = rw append-nil (ap (λ (r : ℕ × Buffer). r.1) (sym (ok_injective e)));
  length_slots = refl;
  laid = (refl, refl);
}
item_loop-Loop check [] pre (x ∷ old) body i t t' b' bounds a n e = absurd (omega arith)
item_loop-Loop check (c ∷ cs) pre old body i t t' b' bounds a n e =
    let ((h, b1), converted, e1) = >>=-eq-ok (c (pre ++ (old ++ body))) _ e in
    let ((t1, b2), added, e2) = >>=-eq-ok (add_entry check (length pre) i t (h, b1)) _ e1 in
    next_item h t1 b1 b2 (a.0 (pre ++ (old ++ body)) h b1 converted) converted
      (add_entry-Entered check (length pre) i t h t1 b1 b2 bounds added) e2
      (λ w bytes w4.
        item_loop-Loop check cs (pre ++ w) (drop 4 old) (body ++ bytes) (i + 1) t1 t' b' bounds a.1
          (omega (arith, length-drop 4 old)))
  where
    next_item :
        (h t1 : ℕ) (b1 b2 : Buffer)
        → Appended (pre ++ (old ++ body)) h b1
        → c (pre ++ (old ++ body)) ≡ ok (h, b1)
        → Entered (length pre) i t h b1 t1 b2
        → item_loop check cs b2 (length pre + 4) (i + 1) t1 ≡ ok (t', b')
        → ((w bytes : List ℕ)
            → length w ≡ 4
            → item_loop check cs
                ((pre ++ w) ++ (drop 4 old ++ (body ++ bytes)))
                (length (pre ++ w))
                (i + 1)
                t1
              ≡ ok (t', b')
            → Loop cs (i + 1) t1 (pre ++ w) (body ++ bytes) b')
        → Loop (c ∷ cs) i t pre body b'
    next_item h t1 b1 b2 first converted en e2 rest =
        let w = store_word 4 (stride_entry i h t1) in
        let w4 : length w ≡ 4 = length-store_word 4 (stride_entry i h t1) in
        let b2_is : b2 ≡ (pre ++ w) ++ (drop 4 old ++ (body ++ first.bytes)) =
          en.written
          ∙ ap (λ b. copy_to_buffer b (length pre) w) first.appended
          ∙ overwrite pre old body first.bytes w w4 (omega arith) in
        let pre4 : length (pre ++ w) ≡ length pre + 4 = omega (arith, length-append pre w) in
        Loop-cons c cs pre old body first.bytes i t h t1 b' n
          (converted ∙ ap (λ b. ok (h, b)) first.appended) first.counted first.small
          (omega (arith, en.total, first.counted)) en.fits
          (rest w first.bytes w4 (
            ap
              (λ p.
                item_loop check cs ((pre ++ w) ++ (drop 4 old ++ (body ++ first.bytes))) p (i + 1)
                  t1)
              pre4
            ∙ ap (λ b. item_loop check cs b (length pre + 4) (i + 1) t1) (sym b2_is)
            ∙ e2))
