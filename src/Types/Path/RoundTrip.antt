-- ===== src/Types/Path/RoundTrip.antt =====
-- src/types.cpp: parsing a printed object path.
use mathlib.Core.Logic.{◌≢◌}
use ferriot.Prelude.{
  ℕ, zero, suc, ◌+◌, ◌^◌, ◌<◌, ◌≡◌, refl, ap, ◌∙◌, false, Option, none, some, [], ◌∷◌, ◌++◌,
  append-nil, append_assoc, arith, Bytes,
}
use ferriot.Types.{ObjectPath, object_path}
use ferriot.Types.Decimal.{
  decimal, AllDigits, decimal-AllDigits, decimal-ne-nil, from_chars-decimal,
}
use ferriot.Types.Path.{
  segment?, to_string, split_segment, set_component, segment_value, parse_loop, ends_with_slash,
  parsed, parse,
}

split_segment-slash :
    (xs rest : Bytes) → AllDigits xs → split_segment (xs ++ b'/' ∷ rest) ≡ (xs, rest)
unfolding split_segment
split_segment-slash [] rest h = refl
split_segment-slash (x ∷ xs) rest h = ground (arith, split_segment-slash xs rest h.2)

split_segment-end : (xs : Bytes) → AllDigits xs → split_segment xs ≡ (xs, [])
unfolding split_segment
split_segment-end [] h = refl
split_segment-end (x ∷ xs) h = ground (arith, split_segment-end xs h.2)

segment_value-decimal : (n : ℕ) → n < 2 ^ 16 → segment_value (decimal n) ≡ some n
unfolding segment_value
segment_value-decimal n h = rw (from_chars-decimal n h, segment_value)

-- A round of the loop over a printed number, and over the last one.
step_slash :
    (left component n : ℕ) (p : ObjectPath) (rest : Bytes)
    → n < 2 ^ 16
    → parse_loop (suc left) component p (decimal n ++ b'/' ∷ rest)
      ≡ parse_loop left (component + 1) (set_component component n p) rest
unfolding parse_loop
step_slash left component n p rest h =
    step (decimal n) (decimal-ne-nil n) (decimal-AllDigits n) (segment_value-decimal n h)
  where
    step :
        (xs : Bytes)
        → xs ≢ []
        → AllDigits xs
        → segment_value xs ≡ some n
        → parse_loop (suc left) component p (xs ++ b'/' ∷ rest)
          ≡ parse_loop left (component + 1) (set_component component n p) rest
    step [] ne ds e = absurd (ne refl)
    step (x ∷ xs) ne ds e = rw (split_segment-slash (x ∷ xs) rest ds, e, parse_loop)

step_end :
    (left component n : ℕ) (p : ObjectPath)
    → n < 2 ^ 16
    → parse_loop (suc left) component p (decimal n)
      ≡ some (component + 1, set_component component n p)
unfolding parse_loop
step_end left component n p h =
    step (decimal n) (decimal-ne-nil n) (decimal-AllDigits n) (segment_value-decimal n h)
  where
    step :
        (xs : Bytes)
        → xs ≢ []
        → AllDigits xs
        → segment_value xs ≡ some n
        → parse_loop (suc left) component p xs ≡ some (component + 1, set_component component n p)
    step [] ne ds e = absurd (ne refl)
    step (x ∷ xs) ne ds e = rw (split_segment-end (x ∷ xs) ds, e, parse_loop)

-- The levels of a path: identifiers are uint16_t, and a level is given only below a level that is.
abbrev pub IsLevels : Option ℕ → Option ℕ → Option ℕ → Type 0
IsLevels none none none = Unit
IsLevels (some i) none none = i < 2 ^ 16
IsLevels (some i) (some r) none = (i < 2 ^ 16) × (r < 2 ^ 16)
IsLevels (some i) (some r) (some s) = (i < 2 ^ 16) × (r < 2 ^ 16) × (s < 2 ^ 16)
IsLevels _ _ _ = ⊥

abbrev pub IsPath : ObjectPath → Type 0
IsPath p = (p.object_id < 2 ^ 16) × IsLevels p.instance_id p.resource_id p.resource_instance_id

abbrev pub path_of : ℕ → Option ℕ → Option ℕ → Option ℕ → ObjectPath
path_of o i r s = record {
  object_id = o;
  instance_id = i;
  resource_id = r;
  resource_instance_id = s;
}

-- The loop over what follows the first slash.
loop_to_string :
    (o : ℕ) (i r s : Option ℕ)
    → o < 2 ^ 16
    → IsLevels i r s
    → (k : ℕ) × (parse_loop 4 0
          (object_path 0)
          (decimal o ++ segment? i (segment? r (segment? s [])))
        ≡ some (suc k, path_of o i r s))
unfolding set_component
loop_to_string o none none none ho h = (0, rw append-nil (step_end 3 0 o _ ho))
loop_to_string o (some i) none none ho h =
    (1, step_slash 3 0 o _ _ ho ∙ rw append-nil (step_end 2 1 i _ h))
loop_to_string o (some i) (some r) none ho h =
    (2, step_slash 3 0 o _ _ ho ∙ step_slash 2 1 i _ _ h.0 ∙ rw append-nil (step_end 1 2 r _ h.1))
loop_to_string o (some i) (some r) (some s) ho h = (
  3,
  step_slash 3 0 o _ _ ho
      ∙ step_slash 2 1 i _ _ h.0
      ∙ step_slash 1 2 r _ _ h.1
      ∙ rw append-nil (step_end 0 3 s _ h.2),
)
loop_to_string o none (some r) s ho h = elim h [ ]
loop_to_string o none none (some s) ho h = elim h [ ]
loop_to_string o (some i) none (some s) ho h = elim h [ ]

ends_with_slash-append :
    (xs : Bytes) (c : ℕ) (ys : Bytes) → ends_with_slash (xs ++ c ∷ ys) ≡ ends_with_slash (c ∷ ys)
unfolding ends_with_slash
ends_with_slash-append [] c ys = refl
ends_with_slash-append (x ∷ []) c ys = refl
ends_with_slash-append (x ∷ y ∷ xs) c ys = ends_with_slash-append (y ∷ xs) c ys

ends_with_slash-digits :
    (c : ℕ) (xs : Bytes) → xs ≢ [] → AllDigits xs → ends_with_slash (c ∷ xs) ≡ false
unfolding ends_with_slash
ends_with_slash-digits c [] ne h = absurd (ne refl)
ends_with_slash-digits c (x ∷ []) ne h = ground arith
ends_with_slash-digits c (x ∷ y ∷ xs) ne h = ends_with_slash-digits x (y ∷ xs) (λ e. cc e) h.2

ends_last : (n : ℕ) → ends_with_slash (b'/' ∷ (decimal n ++ [])) ≡ false
ends_last n =
    rw append-nil (ends_with_slash-digits b'/' (decimal n) (decimal-ne-nil n) (decimal-AllDigits n))

ends_more :
    (n : ℕ) (rest : Bytes)
    → ends_with_slash (b'/' ∷ (decimal n ++ b'/' ∷ rest)) ≡ ends_with_slash (b'/' ∷ rest)
ends_more n rest = ends_with_slash-append (b'/' ∷ decimal n) b'/' rest

ends_to_string :
    (o : ℕ) (i r s : Option ℕ)
    → IsLevels i r s
    → ends_with_slash (b'/' ∷ (decimal o ++ segment? i (segment? r (segment? s [])))) ≡ false
ends_to_string o none none none h = ends_last o
ends_to_string o (some i) none none h = ends_more o _ ∙ ends_last i
ends_to_string o (some i) (some r) none h = ends_more o _ ∙ ends_more i _ ∙ ends_last r
ends_to_string o (some i) (some r) (some s) h =
    ends_more o _ ∙ ends_more i _ ∙ ends_more r _ ∙ ends_last s
ends_to_string o none (some r) s h = elim h [ ]
ends_to_string o none none (some s) h = elim h [ ]
ends_to_string o (some i) none (some s) h = elim h [ ]

-- Every path whose identifiers are uint16_t, and that gives a level only below one that it gives,
-- is read back from what it prints.
pub parse-to_string : (p : ObjectPath) → IsPath p → parse (to_string p) ≡ some p
unfolding parse to_string parsed
parse-to_string p h =
    let o = p.object_id in
    let i = p.instance_id in
    let r = p.resource_id in
    let s = p.resource_instance_id in
    let (k, e) = loop_to_string o i r s h.0 h.1 in rw (ends_to_string o i r s h.1, e) (ground arith)

loop_done :
    (component : ℕ) (p : ObjectPath) (rest : Bytes)
    → parse_loop zero component p rest ≡ some (component, p)
unfolding parse_loop
loop_done component p [] = refl
loop_done component p (c ∷ cs) = refl

to_string-append :
    (o i r s : ℕ) (rest : Bytes)
    → to_string (path_of o (some i) (some r) (some s)) ++ rest
      ≡ b'/' ∷ (decimal o ++ b'/' ∷ (decimal i ++ b'/' ∷ (decimal r ++ b'/' ∷ (decimal s ++ rest))))
unfolding to_string
to_string-append o i r s rest = simp append_assoc

-- A path of four levels followed by a slash and any further text, as long as that does not end in
-- a slash, is read as the path of its first four levels: the further text is not looked at.
pub parse-to_string_extra :
    (o i r s : ℕ) (junk : Bytes)
    → IsPath (path_of o (some i) (some r) (some s))
    → ends_with_slash (b'/' ∷ junk) ≡ false
    → parse (to_string (path_of o (some i) (some r) (some s)) ++ b'/' ∷ junk)
      ≡ some (path_of o (some i) (some r) (some s))
parse-to_string_extra o i r s junk h e =
    ap parse (to_string-append o i r s (b'/' ∷ junk))
    ∙ unfold parse parsed in rw (ends, loop) (ground arith)
  where
    ends :
        ends_with_slash (
          b'/'
          ∷ (decimal o
              ++ b'/' ∷ (decimal i ++ b'/' ∷ (decimal r ++ b'/' ∷ (decimal s ++ b'/' ∷ junk)))))
        ≡ false
    ends = ends_more o _ ∙ ends_more i _ ∙ ends_more r _ ∙ ends_more s _ ∙ e

    loop :
        parse_loop 4 0 (object_path 0) (
          decimal o
          ++ b'/' ∷ (decimal i ++ b'/' ∷ (decimal r ++ b'/' ∷ (decimal s ++ b'/' ∷ junk))))
        ≡ some (4, path_of o (some i) (some r) (some s))
    loop =
        unfold set_component in
        step_slash 3 0 o _ _ h.0
        ∙ step_slash 2 1 i _ _ h.1.0
        ∙ step_slash 1 2 r _ _ h.1.1
        ∙ step_slash 0 3 s _ _ h.1.2
        ∙ loop_done 4 _ junk
