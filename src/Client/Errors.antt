-- ===== src/Client/Errors.antt =====
-- Go's `error` values, and the error tests of internal/operator/operator.go. A Go `error` that may
-- be nil is an `Option Error`.
use minio_operator_ext.Base.{
  String, Bool, true, false, Option, none, some, if◌then◌else◌, ◌==◌, string_eq,
}

pub data Error : Type 0 where
  -- a `minioclient.ErrorResponse` and a `madmin.ErrorResponse`: code and message
  minio_response : String → String → Error
  madmin_response : String → String → Error
  -- an API status of Kubernetes: reason and message
  api_status : String → String → Error
  -- `fmt.Errorf`, and every other error of a library
  message : String → Error
  -- the panics of a nil pointer that is dereferenced and of a slice beyond its length
  nil_dereference : Error
  out_of_range : Error

pub data Result {ℓ} (A : Type ℓ) : Type ℓ where
  ok : A → Result A
  err : Error → Result A

-- The `err` of `x, err := f()`.
abbrev pub error_of {ℓ} : {A : Type ℓ} → Result A → Option Error
error_of (ok _) = none
error_of (err e) = some e

-- No error value: the goroutine unwinds, and no code behind the call runs.
abbrev pub is_panic : Error → Bool
is_panic nil_dereference = true
is_panic out_of_range = true
is_panic _ = false

-- The code of a `minioclient.ErrorResponse`.
abbrev pub has_minio_code : Error → String → Bool
has_minio_code (minio_response c _) code = c == code
has_minio_code _ code = false

abbrev pub has_madmin_code : Error → String → Bool
has_madmin_code (madmin_response c _) code = c == code
has_madmin_code _ code = false

-- `isMinioErrorCode`
abbrev pub is_minio_error_code : Option Error → String → Bool
is_minio_error_code none code = false
is_minio_error_code (some e) code = has_minio_code e code

-- `ignoreMinioErrorCode`
abbrev pub ignore_minio_error_code : Option Error → String → Option Error
ignore_minio_error_code e code = if is_minio_error_code e code then none else e

-- `isMadminErrorCode`
abbrev pub is_madmin_error_code : Option Error → String → Bool
is_madmin_error_code none code = false
is_madmin_error_code (some e) code = has_madmin_code e code

-- `ignoreMadminErrorCode`
abbrev pub ignore_madmin_error_code : Option Error → String → Option Error
ignore_madmin_error_code e code = if is_madmin_error_code e code then none else e
