-- ===== src/Tlv/Loop.antt =====
-- The decoding loop of src/codec/tlv.cpp: what a record consumes, and that the model's fuel and
-- level count give the source's loop and recursion.
use ferriot.Prelude.{
  ℕ, zero, suc, ◌+◌, ◌-◌, ◌%◌, ◌≤◌, ◌<◌, ◌≡◌, refl, ap, sym, ◌∙◌, inl, inr, Bool, true, false,
  arith, ltb, ◌==◌, if◌then◌else◌, [], ◌∷◌, Bool-cases, Bytes, length, take, drop, length-drop,
}
use mathlib.Core.Path.{fun_ext}
use ferriot.Prelude.Words.{shr}
use ferriot.Result.{Result, ok, fail, decoding_error, map, ◌>>=◌}
use ferriot.Result.Laws.{>>=-eq-ok, bind-cong}
use ferriot.Tlv.{TlvType, TlvRecord, TlvRecords, type_of_bits, tlv_record, no_records, record_and}
use ferriot.Tlv.Decoder.{
  Field, parse_id, parse_length, parse_value, parse_record, children_of, parse_records,
  decode_levels, decode_impl, max_tlv_depth,
}

-- A field leaves the position where the rest begins.
parse_id_advances :
    (wide : Bool) (pos : ℕ) (bytes : Bytes) {f : Field}
    → parse_id wide pos bytes ≡ ok f
    → (pos < f.1) × (f.1 + length f.2 ≡ pos + length bytes)
unfolding parse_id
parse_id_advances true pos [] h = cc
parse_id_advances true pos (a ∷ []) h = cc
parse_id_advances true pos (a ∷ b ∷ rest) h = ground arith
parse_id_advances false pos [] h = cc
parse_id_advances false pos (a ∷ rest) h = ground arith

parse_length_advances :
    (type inline pos : ℕ) (bytes : Bytes) {f : Field}
    → parse_length type inline pos bytes ≡ ok f
    → (pos ≤ f.1) × (f.1 + length f.2 ≡ pos + length bytes)
unfolding parse_length
parse_length_advances zero inline pos bytes h = ground arith
parse_length_advances (suc zero) inline pos [] h = cc
parse_length_advances (suc zero) inline pos (a ∷ bytes) h = ground arith
parse_length_advances (suc (suc zero)) inline pos [] h = cc
parse_length_advances (suc (suc zero)) inline pos (a ∷ []) h = cc
parse_length_advances (suc (suc zero)) inline pos (a ∷ b ∷ bytes) h = ground arith
parse_length_advances (suc (suc (suc n))) inline pos [] h = cc
parse_length_advances (suc (suc (suc n))) inline pos (a ∷ []) h = cc
parse_length_advances (suc (suc (suc n))) inline pos (a ∷ b ∷ []) h = cc
parse_length_advances (suc (suc (suc n))) inline pos (a ∷ b ∷ c ∷ bytes) h = ground arith

parse_value_bounds :
    (nested : Bytes → Result TlvRecords) (t : TlvType) (id : ℕ) (f : Field) {r : TlvRecord} {n : ℕ}
    → parse_value nested t id f ≡ ok (r, n)
    → (f.1 ≤ n) × (n ≤ f.1 + length f.2)
unfolding parse_value
parse_value_bounds nested t id f h = ground arith

pub parse_record-nil :
    (nested : Bytes → Result TlvRecords)
    → parse_record nested [] ≡ fail decoding_error "Empty TLV data"
unfolding parse_record
parse_record-nil nested = refl

-- A record that is read has the children of its value.
pub parse_record_inv :
    (nested : Bytes → Result TlvRecords) (bytes : Bytes) {r : TlvRecord} {n : ℕ}
    → parse_record nested bytes ≡ ok (r, n)
    → (t : TlvType) × (id : ℕ) × (v : Bytes) × (r ≡ tlv_record t id v (children_of nested t v))
unfolding parse_record parse_value
parse_record_inv nested [] h = cc
parse_record_inv nested (b ∷ bytes) h =
    let (f, hf, h') = >>=-eq-ok (parse_id (shr b 5 % 2 == 1) 1 bytes) _ h in
    let (g, hg, h'') = >>=-eq-ok (parse_length (shr b 3 % 4) (b % 8) f.1 f.2) _ h' in
    (type_of_bits (shr b 6 % 4), f.0, take g.0 g.2, ground arith)

-- A record that is read takes at least two bytes, and never reads beyond the buffer.
pub parse_record_bounds :
    (nested : Bytes → Result TlvRecords) (bytes : Bytes) {r : TlvRecord} {n : ℕ}
    → parse_record nested bytes ≡ ok (r, n)
    → (2 ≤ n) × (n ≤ length bytes)
unfolding parse_record
parse_record_bounds nested [] h = cc
parse_record_bounds nested (b ∷ bytes) h =
    let (f, hf, h') = >>=-eq-ok (parse_id (shr b 5 % 2 == 1) 1 bytes) _ h in
    let (g, hg, h'') = >>=-eq-ok (parse_length (shr b 3 % 4) (b % 8) f.1 f.2) _ h' in
    omega (
      arith,
      parse_id_advances _ 1 bytes hf,
      parse_length_advances _ _ f.1 f.2 hg,
      parse_value_bounds nested _ f.0 g h'',
    )

-- With fuel for the bytes that are left the loop does not run out, whatever the fuel.
parse_records_fuel :
    (nested : Bytes → Result TlvRecords) (m n : ℕ) (bytes : Bytes)
    → length bytes ≤ m
    → length bytes ≤ n
    → parse_records nested m bytes ≡ parse_records nested n bytes
unfolding parse_records
parse_records_fuel nested zero zero bytes hm hn = refl
parse_records_fuel nested zero (suc n) [] hm hn = refl
parse_records_fuel nested zero (suc n) (b ∷ bs) hm hn = absurd (omega arith)
parse_records_fuel nested (suc m) n [] hm hn = refl
parse_records_fuel nested (suc m) zero (b ∷ bs) hm hn = absurd (omega arith)
parse_records_fuel nested (suc m) (suc n) (b ∷ bs) hm hn =
    bind-cong (parse_record nested (b ∷ bs)) λ (r, k) e. ap (map (record_and r)) (
      parse_records_fuel nested m n (drop k (b ∷ bs))
        (omega (arith, parse_record_bounds nested (b ∷ bs) e, length-drop k (b ∷ bs)))
        (omega (arith, parse_record_bounds nested (b ∷ bs) e, length-drop k (b ∷ bs))))

-- `while (pos < data.size())` over a buffer, with fuel for its bytes.
abbrev pub loop : (Bytes → Result TlvRecords) → Bytes → Result TlvRecords
loop nested bytes = parse_records nested (length bytes) bytes

loop_step :
    (nested : Bytes → Result TlvRecords) (b : ℕ) (bs : Bytes)
    → loop nested (b ∷ bs) ≡ (
        parse_record nested (b ∷ bs) >>= λ (r, n).
        map (record_and r) (loop nested (drop n (b ∷ bs))))
unfolding parse_records
loop_step nested b bs = bind-cong (parse_record nested (b ∷ bs)) λ (r, k) e.
    ap (map (record_and r)) (
      parse_records_fuel nested (length bs) (length (drop k (b ∷ bs))) (drop k (b ∷ bs))
        (omega (arith, parse_record_bounds nested (b ∷ bs) e, length-drop k (b ∷ bs)))
        (omega arith))

decode_impl_levels :
    (depth l : ℕ) (bytes : Bytes)
    → max_tlv_depth + 1 - depth ≡ suc l
    → decode_impl bytes depth ≡ loop (decode_levels l) bytes
unfolding decode_impl decode_levels
decode_impl_levels depth l bytes e = rw e

decode_levels-eq :
    (depth l : ℕ)
    → max_tlv_depth + 1 - (depth + 1) ≡ l
    → decode_levels l ≡ λ v. decode_impl v (depth + 1)
unfolding decode_impl
decode_levels-eq depth l e = fun_ext λ v. rw e

-- The body of the source's decode_impl, with its calls of decode_impl (the one on a nested value,
-- and the rest of the loop at the same depth) made through `self`.
abbrev pub decode_body : (Bytes → ℕ → Result TlvRecords) → Bytes → ℕ → Result TlvRecords
decode_body self bytes depth =
    if ltb max_tlv_depth depth then fail decoding_error "TLV nesting too deep" else elim bytes [
      | [] ↦ ok no_records
      | b ∷ bs ↦ parse_record (λ v. self v (depth + 1)) (b ∷ bs) >>= λ (r, n).
          map (record_and r) (self (drop n (b ∷ bs)) depth)
    ]

pub decode_impl-within :
    (depth l b : ℕ) (bs : Bytes)
    → max_tlv_depth + 1 - depth ≡ suc l
    → max_tlv_depth + 1 - (depth + 1) ≡ l
    → decode_impl (b ∷ bs) depth ≡ (
        parse_record (λ v. decode_impl v (depth + 1)) (b ∷ bs) >>= λ (r, n).
        map (record_and r) (decode_impl (drop n (b ∷ bs)) depth))
decode_impl-within depth l b bs e e' =
    decode_impl_levels depth l (b ∷ bs) e
    ∙ loop_step (decode_levels l) b bs
    ∙ bind-cong (parse_record (decode_levels l) (b ∷ bs))
        (λ (r, n) _. ap (map (record_and r)) (sym (decode_impl_levels depth l (drop n (b ∷ bs)) e)))
    ∙ rw (decode_levels-eq depth l e')

-- `decode_impl` is the source's recursion: beyond the maximal depth it fails; within it an empty
-- buffer gives no records, and any other gives the record that `parse_record` reads off its front,
-- with nested values decoded one level deeper, before the records of the bytes behind it. So
-- neither the level count nor the loop's fuel of the model is ever what ends it.
pub decode_impl-decode_body :
    (bytes : Bytes) (depth : ℕ) → decode_impl bytes depth ≡ decode_body decode_impl bytes depth
decode_impl-decode_body bytes depth = elim (Bool-cases (ltb max_tlv_depth depth)) [
  | inl deep ↦ rw deep (too_deep (ground arith) bytes)
  | inr within ↦ rw within (body bytes (ground arith))
]
  where
    too_deep :
        max_tlv_depth < depth
        → (bytes : Bytes) → decode_impl bytes depth ≡ fail decoding_error "TLV nesting too deep"
    too_deep h bytes =
        unfold decode_impl decode_levels in
        let e : max_tlv_depth + 1 - depth ≡ 0 = omega arith in rw e

    body :
        (bytes : Bytes)
        → depth ≤ max_tlv_depth
        → decode_impl bytes depth ≡ (elim bytes as (λ _. Result TlvRecords) [
          | [] ↦ ok no_records
          | b ∷ bs ↦ parse_record (λ v. decode_impl v (depth + 1)) (b ∷ bs) >>= λ (r, n).
              map (record_and r) (decode_impl (drop n (b ∷ bs)) depth)
        ])
    body [] h =
        unfold decode_levels parse_records in
        decode_impl_levels depth (max_tlv_depth - depth) [] (omega arith)
    body (b ∷ bs) h =
        decode_impl-within depth (max_tlv_depth - depth) b bs (omega arith) (omega arith)
