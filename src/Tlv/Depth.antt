-- ===== src/Tlv/Depth.antt =====
-- Size bounds of the records that src/codec/tlv.cpp decodes: nesting and number.
use ferriot.Prelude.{
  ℕ, zero, suc, ◌+◌, ◌*◌, ◌≤◌, ◌≡◌, refl, arith, inl, inr, [], ◌∷◌, Bytes, length, drop,
  length-drop, Bool-cases,
}
use Prim.Native.Nat.{max}
use ferriot.Result.{Result, ok, err}
use ferriot.Result.Laws.{>>=-eq-ok, map-eq-ok, ok-injective}
use ferriot.Tlv.{TlvType, TlvRecord, TlvRecords, tlv_record, no_records, record_and}
use ferriot.Tlv.Decoder.{
  parse_record, parse_records, children_of, has_children, or_none, decode_levels, decode_impl,
  decode, max_tlv_depth,
}
use ferriot.Tlv.Loop.{parse_record_bounds, parse_record_inv, parse_record-nil}

-- How deep records nest: 0 for none.
mutual
  pub depth : TlvRecords → ℕ
  depth no_records = 0
  depth (record_and r rs) = max (record_depth r) (depth rs)

  pub record_depth : TlvRecord → ℕ
  record_depth (tlv_record t id v children) = suc (depth children)

-- The number of records at the top.
pub count : TlvRecords → ℕ
count no_records = 0
count (record_and r rs) = suc (count rs)

depth-or_none :
    (m : Result TlvRecords) (l : ℕ)
    → ((rs : TlvRecords) → m ≡ ok rs → depth rs ≤ l)
    → depth (or_none m) ≤ l
unfolding depth
depth-or_none (ok rs) l h = h rs refl
depth-or_none (err e) l h = omega arith

depth-children_of :
    (nested : Bytes → Result TlvRecords) (l : ℕ) (t : TlvType) (v : Bytes)
    → ((rs : TlvRecords) → nested v ≡ ok rs → depth rs ≤ l)
    → depth (children_of nested t v) ≤ l
unfolding children_of depth
depth-children_of nested l t v h = elim (Bool-cases (has_children t)) [
  | inl container ↦ rw container (depth-or_none (nested v) l h)
  | inr leaf ↦ rw leaf (omega arith)
]

parse_record-depth :
    (nested : Bytes → Result TlvRecords) (l : ℕ) (bytes : Bytes) {r : TlvRecord} {n : ℕ}
    → ((v : Bytes) (rs : TlvRecords) → nested v ≡ ok rs → depth rs ≤ l)
    → parse_record nested bytes ≡ ok (r, n)
    → record_depth r ≤ suc l
unfolding depth
parse_record-depth nested l [] hn h = cc (parse_record-nil nested)
parse_record-depth nested l (b ∷ bytes) hn h =
    let (t, id, v, e) = parse_record_inv nested (b ∷ bytes) h in
    rw e (omega (arith, depth-children_of nested l t v (hn v)))

parse_records-depth :
    (nested : Bytes → Result TlvRecords) (l fuel : ℕ) (bytes : Bytes) (rs : TlvRecords)
    → ((v : Bytes) (rs : TlvRecords) → nested v ≡ ok rs → depth rs ≤ l)
    → parse_records nested fuel bytes ≡ ok rs
    → depth rs ≤ suc l
unfolding parse_records depth
parse_records-depth nested l fuel [] rs hn h = rw (← ok-injective h) (omega arith)
parse_records-depth nested l zero (b ∷ bs) rs hn h = rw (← ok-injective h) (omega arith)
parse_records-depth nested l (suc fuel) (b ∷ bs) rs hn h =
    let ((r, n), hr, h') = >>=-eq-ok (parse_record nested (b ∷ bs)) _ h in
    let (rest, hrest, e) =
      map-eq-ok (record_and r) (parse_records nested fuel (drop n (b ∷ bs))) h' in
    rw (← e) (
      omega (
        arith,
        parse_record-depth nested l (b ∷ bs) hn hr,
        parse_records-depth nested l fuel (drop n (b ∷ bs)) rest hn hrest,
      ))

decode_levels-depth :
    (l : ℕ) (bytes : Bytes) (rs : TlvRecords) → decode_levels l bytes ≡ ok rs → depth rs ≤ l
unfolding decode_levels
decode_levels-depth zero bytes rs h = cc
decode_levels-depth (suc l) bytes rs h =
    parse_records-depth (decode_levels l) l (length bytes) bytes rs (decode_levels-depth l) h

parse_records-count :
    (nested : Bytes → Result TlvRecords) (fuel : ℕ) (bytes : Bytes) (rs : TlvRecords)
    → parse_records nested fuel bytes ≡ ok rs
    → 2 * count rs ≤ length bytes
unfolding parse_records count
parse_records-count nested fuel [] rs h = rw (← ok-injective h) (omega arith)
parse_records-count nested zero (b ∷ bs) rs h = rw (← ok-injective h) (omega arith)
parse_records-count nested (suc fuel) (b ∷ bs) rs h =
    let ((r, n), hr, h') = >>=-eq-ok (parse_record nested (b ∷ bs)) _ h in
    let (rest, hrest, e) =
      map-eq-ok (record_and r) (parse_records nested fuel (drop n (b ∷ bs))) h' in
    rw (← e) (
      omega (
        arith,
        parse_record_bounds nested (b ∷ bs) hr,
        length-drop n (b ∷ bs),
        parse_records-count nested fuel (drop n (b ∷ bs)) rest hrest,
      ))

-- Whatever the input, records that decode nest at most nine deep (the depths 0 to kMaxTlvDepth),
-- and there are at most half as many at the top as there are bytes.
pub decode_bounds :
    (bytes : Bytes) {rs : TlvRecords}
    → decode bytes ≡ ok rs
    → (depth rs ≤ max_tlv_depth + 1) × (2 * count rs ≤ length bytes)
unfolding decode decode_impl
decode_bounds bytes {rs} h = (
  decode_levels-depth (max_tlv_depth + 1) bytes rs h,
  parse_records-count (decode_levels max_tlv_depth) (length bytes) bytes rs
      (unfold decode_levels in h),
)
