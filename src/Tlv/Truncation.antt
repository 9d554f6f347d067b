-- ===== src/Tlv/Truncation.antt =====
-- src/codec/tlv.cpp: parse_record on a buffer that ends early.
use ferriot.Prelude.{
  ℕ, zero, suc, ◌%◌, ◌==◌, ◌^◌, ◌≤◌, ◌<◌, ◌≡◌, refl, ap, sym, ◌∙◌, arith, Bool, true, false, [],
  ◌∷◌, ◌++◌, Bytes, length, drop, take, append-nil, length-append, length-take_le,
}
use ferriot.Prelude.Words.{shr}
use ferriot.Result.{Result, ok, err, is_err, map}
use ferriot.Result.Laws.{>>=-eq-ok, ok-injective}
use ferriot.Tlv.{TlvType, TlvRecord, TlvRecords}
use ferriot.Tlv.Encoder.{encode_record}
use ferriot.Tlv.Decoder.{Field, parse_id, parse_length, parse_value, parse_record}
use ferriot.Tlv.Framing.{parse_record-encode_record}
use ferriot.Tlv.Loop.{parse_record_bounds}

-- More bytes behind a field.
abbrev extend : Bytes → Field → Field
extend more (value, pos, rest) = (value, pos, rest ++ more)

parse_id-append :
    (wide : Bool) (pos : ℕ) (bytes more : Bytes) {f : Field}
    → parse_id wide pos bytes ≡ ok f
    → parse_id wide pos (bytes ++ more) ≡ ok (extend more f)
unfolding parse_id
parse_id-append true pos [] more h = cc
parse_id-append true pos (a ∷ []) more h = cc
parse_id-append true pos (a ∷ b ∷ rest) more h = ap (map (extend more)) h
parse_id-append false pos [] more h = cc
parse_id-append false pos (a ∷ rest) more h = ap (map (extend more)) h

parse_length-append :
    (type inline pos : ℕ) (bytes more : Bytes) {f : Field}
    → parse_length type inline pos bytes ≡ ok f
    → parse_length type inline pos (bytes ++ more) ≡ ok (extend more f)
unfolding parse_length
parse_length-append zero inline pos bytes more h = ap (map (extend more)) h
parse_length-append (suc zero) inline pos [] more h = cc
parse_length-append (suc zero) inline pos (a ∷ bytes) more h = ap (map (extend more)) h
parse_length-append (suc (suc zero)) inline pos [] more h = cc
parse_length-append (suc (suc zero)) inline pos (a ∷ []) more h = cc
parse_length-append (suc (suc zero)) inline pos (a ∷ b ∷ bytes) more h = ap (map (extend more)) h
parse_length-append (suc (suc (suc n))) inline pos [] more h = cc
parse_length-append (suc (suc (suc n))) inline pos (a ∷ []) more h = cc
parse_length-append (suc (suc (suc n))) inline pos (a ∷ b ∷ []) more h = cc
parse_length-append (suc (suc (suc n))) inline pos (a ∷ b ∷ c ∷ bytes) more h =
    ap (map (extend more)) h

take-append_le : (n : ℕ) (xs ys : Bytes) → n ≤ length xs → take n (xs ++ ys) ≡ take n xs
take-append_le zero xs ys h = refl
take-append_le (suc n) [] ys h = absurd (omega arith)
take-append_le (suc n) (x ∷ xs) ys h = ap (◌∷◌ x) (take-append_le n xs ys (omega arith))

parse_value-extend :
    (nested : Bytes → Result TlvRecords) (t : TlvType) (id : ℕ) (f : Field) (more : Bytes)
    {p : TlvRecord × ℕ}
    → parse_value nested t id f ≡ ok p
    → parse_value nested t id (extend more f) ≡ ok p
unfolding parse_value
parse_value-extend nested t id (len, pos, rest) more h =
    ground (arith, take-append_le len rest more, length-append rest more)

-- Bytes behind a record do not change how it is read.
parse_record-append :
    (nested : Bytes → Result TlvRecords) (bytes more : Bytes) {p : TlvRecord × ℕ}
    → parse_record nested bytes ≡ ok p
    → parse_record nested (bytes ++ more) ≡ ok p
unfolding parse_record
parse_record-append nested [] more h = cc
parse_record-append nested (b ∷ bytes) more h =
    let (f, hf, h') = >>=-eq-ok (parse_id (shr b 5 % 2 == 1) 1 bytes) _ h in
    let (g, hg, h'') = >>=-eq-ok (parse_length (shr b 3 % 4) (b % 8) f.1 f.2) _ h' in
    rw (parse_id-append _ 1 bytes more hf, parse_length-append _ _ f.1 f.2 more hg)
      (parse_value-extend nested _ f.0 g more h'')

take-append-drop : (n : ℕ) (xs : Bytes) → take n xs ++ drop n xs ≡ xs
take-append-drop zero xs = refl
take-append-drop (suc n) [] = refl
take-append-drop (suc n) (x ∷ xs) = ap (◌∷◌ x) (take-append-drop n xs)

-- A record that is cut off anywhere, before its first byte or in its header or value, is refused.
-- The identifier is a uint16_t and the value is shorter than 2 ^ 24 bytes.
pub parse_record-take-is_err :
    (nested : Bytes → Result TlvRecords) (t : TlvType) (id : ℕ) (v : Bytes) (n : ℕ)
    → id < 2 ^ 16
    → length v < 2 ^ 24
    → n < length (encode_record t id v)
    → is_err (parse_record nested (take n (encode_record t id v))) ≡ true
parse_record-take-is_err nested t id v n hid hv hn =
    refused (parse_record nested (take n (encode_record t id v))) refl
  where
    refused :
        (m : Result (TlvRecord × ℕ))
        → parse_record nested (take n (encode_record t id v)) ≡ m
        → is_err m ≡ true
    refused (err e) h = refl
    refused (ok (r, k)) h =
        let whole = encode_record t id v in
        let full : parse_record nested whole ≡ ok (r, k) =
          ap (parse_record nested) (sym (take-append-drop n whole))
          ∙ parse_record-append nested (take n whole) (drop n whole) h in
        let parsed =
          ap (parse_record nested) (sym (append-nil whole))
          ∙ parse_record-encode_record nested t id v [] hid hv in
        absurd (
          omega (
            arith,
            ap (λ (p : TlvRecord × ℕ). p.1) (ok-injective (sym full ∙ parsed)),
            parse_record_bounds nested (take n whole) h,
            length-take_le n whole (omega arith),
          ))
