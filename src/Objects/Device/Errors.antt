-- ===== src/Objects/Device/Errors.antt =====
-- src/objects/device.cpp: the list of error codes that add_error_code and clear_error_codes keep,
-- against a description of it by the codes that were added.
use ferriot.Prelude.{
  ◌≡◌, refl, ap, sym, ◌∙◌, Bool, true, false, none, ◌⊎◌, List, [], ◌∷◌, ◌++◌, append-nil,
  append_assoc, ◌==◌, if◌then◌else◌, arith, inl, inr, Bool-cases,
}
use ferriot.Prelude.Int.{ℤ, pos}
use ferriot.Result.{ok}
use ferriot.Resource.{integer}
use ferriot.Objects.Multiple.{read_multiple}
use ferriot.Objects.Device.{
  DeviceErrorCode, no_error, error_value, DeviceObject, read_field, read_resource,
  clear_error_codes, starts_with_no_error, add_error_code, field_of,
}

-- Codes added one after the other, the first of the list first.
abbrev pub add_all : DeviceObject → List DeviceErrorCode → DeviceObject
add_all s [] = s
add_all s (code ∷ codes) = add_all (add_error_code s code) codes

abbrev pub is_no_error : DeviceErrorCode → Bool
is_no_error code = error_value code == 0

-- The codes from the first one that is an error.
abbrev pub from_error : List DeviceErrorCode → List DeviceErrorCode
from_error [] = []
from_error (code ∷ codes) = if is_no_error code then from_error codes else code ∷ codes

-- The first error, or NoError without one.
abbrev pub first_error : List DeviceErrorCode → DeviceErrorCode
first_error [] = no_error
first_error (code ∷ codes) = if is_no_error code then first_error codes else code

-- A list, or another one where it is empty.
abbrev pub or_codes : List DeviceErrorCode → List DeviceErrorCode → List DeviceErrorCode
or_codes [] others = others
or_codes (code ∷ codes) others = code ∷ codes

add_error_code-error :
    (s : DeviceObject) (code h : DeviceErrorCode) (codes : List DeviceErrorCode)
    → is_no_error code ≡ false
    → s.error_codes ≡ code ∷ codes
    → (add_error_code s h).error_codes ≡ code ∷ codes ++ h ∷ []
unfolding add_error_code starts_with_no_error
add_error_code-error s code h codes real e = rw e (ground arith)

add_error_code-no_error :
    (s : DeviceObject) (h : DeviceErrorCode) (codes : List DeviceErrorCode)
    → s.error_codes ≡ no_error ∷ codes
    → (add_error_code s h).error_codes
      ≡ (if is_no_error h then no_error ∷ codes ++ h ∷ [] else h ∷ [])
unfolding add_error_code starts_with_no_error
add_error_code-no_error s h codes e = rw e (ground arith)

add_all-error :
    (s : DeviceObject) (code : DeviceErrorCode) (codes history : List DeviceErrorCode)
    → is_no_error code ≡ false
    → s.error_codes ≡ code ∷ codes
    → (add_all s history).error_codes ≡ code ∷ codes ++ history
add_all-error s code codes [] real e = e ∙ ap (◌∷◌ code) (sym (append-nil codes))
add_all-error s code codes (h ∷ history) real e =
    add_all-error (add_error_code s h) code (codes ++ h ∷ []) history real
      (add_error_code-error s code h codes real e)
    ∙ ap (◌∷◌ code) (append_assoc codes (h ∷ []) history)

add_all-no_error :
    (s : DeviceObject) (codes history : List DeviceErrorCode)
    → s.error_codes ≡ no_error ∷ codes
    → (add_all s history).error_codes ≡ or_codes (from_error history) (no_error ∷ codes ++ history)
add_all-no_error s codes [] e = e ∙ ap (◌∷◌ no_error) (sym (append-nil codes))
add_all-no_error s codes (h ∷ history) e =
    split (Bool-cases (is_no_error h))
      (add_all-no_error (add_error_code s h) (codes ++ h ∷ []) history)
  where
    added :
        (add_error_code s h).error_codes
        ≡ (if is_no_error h then no_error ∷ codes ++ h ∷ [] else h ∷ [])
    added = add_error_code-no_error s h codes e

    split :
        (is_no_error h ≡ true) ⊎ (is_no_error h ≡ false)
        → ((add_error_code s h).error_codes ≡ no_error ∷ codes ++ h ∷ []
            → (add_all (add_error_code s h) history).error_codes
              ≡ or_codes (from_error history) (no_error ∷ (codes ++ h ∷ []) ++ history))
        → (add_all (add_error_code s h) history).error_codes
          ≡ or_codes
              (if is_no_error h then from_error history else h ∷ history)
              (no_error ∷ codes ++ h ∷ history)
    split (inl none_yet) rest =
        rw (none_yet, sym (append_assoc codes (h ∷ []) history))
          (rest (ground (arith, added, none_yet)))
    split (inr real) rest =
        rw real (add_all-error (add_error_code s h) h [] history real (ground (arith, added, real)))

read_multiple-first_error :
    (history codes : List DeviceErrorCode)
    → read_multiple
        (ok (integer (pos 0)))
        (λ c. integer (pos (error_value c)))
        (or_codes (from_error history) (no_error ∷ codes))
        none
      ≡ ok (integer (pos (error_value (first_error history))))
unfolding read_multiple
read_multiple-first_error [] codes = refl
read_multiple-first_error (h ∷ history) codes =
    let rest = read_multiple-first_error history codes in ground arith

-- The codes that are kept after some were added to a cleared object: all from the first error on,
-- or, while there is none, NoError once for the clearing and once for each addition.
pub error_codes-add_all :
    (s : DeviceObject) (history : List DeviceErrorCode)
    → (add_all (clear_error_codes s) history).error_codes
      ≡ or_codes (from_error history) (no_error ∷ history)
unfolding clear_error_codes
error_codes-add_all s history = add_all-no_error (clear_error_codes s) [] history refl

-- The resource 11, read without an instance, is the first error that was added since the codes were
-- cleared, or NoError.
pub read_resource-add_all :
    (now : ℤ) (s : DeviceObject) (history : List DeviceErrorCode)
    → read_resource now (add_all (clear_error_codes s) history) 0 11 none
      ≡ ok (integer (pos (error_value (first_error history))))
unfolding read_resource read_field field_of
read_resource-add_all now s history =
    rw (error_codes-add_all s history) (read_multiple-first_error history history)
