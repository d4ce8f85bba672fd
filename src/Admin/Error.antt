-- ===== src/Admin/Error.antt =====
-- admin/src/error/mod.rs and `DataWrapper` of admin/src/model/mod.rs: what a handler answers.
use virt_db.Prelude.{
  Bool, false, Option, none, some, ◌++◌, Text, codes, ◌==◌, ◌≡◌, refl, ◌⊎◌, inl, inr,
}
use virt_db.Prelude.Int.{ℤ, pos, negsuc}

pub data Result {ℓ} (E A : Type ℓ) : Type ℓ where
  ok : A → Result E A
  err : E → Result E A

-- An `anyhow::Error` is kept by its text.
pub data SysError : Type 0 where
  biz : Text → SysError
  system : Text → SysError

-- To split on a computed result and keep the equation.
pub Result-cases {ℓ} :
    {E A : Type ℓ} (r : Result E A) → ((e : E) × (r ≡ err e)) ⊎ ((a : A) × (r ≡ ok a))
Result-cases (err e) = inl (e, refl)
Result-cases (ok a) = inr (a, refl)

abbrev pub error_msg : SysError → Text
error_msg (biz msg) = msg
error_msg (system e) = codes "未知错误"

-- The body of `error_response`; its status is 200.
unfoldable pub error_response : SysError → Text
error_response e =
    codes "{"
    ++ codes "\"code\": -1,"
    ++ codes "\"message\": \""
    ++ error_msg e
    ++ codes "\","
    ++ codes "\"success\": false,"
    ++ codes "\"data\": null"
    ++ codes "}"

abbrev pub is_zero : ℤ → Bool
is_zero (pos n) = n == 0
is_zero (negsuc n) = false

module _ {ℓ} (V : Type ℓ) where
  pub record DataWrapper : Type ℓ where
    pub code : ℤ
    pub message : Text
    pub success : Bool
    pub «data» : Option V

  abbrev pub result : ℤ → Text → Option V → DataWrapper
  result code message v = record {
    code = code;
    message = message;
    success = is_zero code;
    «data» = v;
  }

  abbrev pub success_of : V → DataWrapper
  success_of v = result (pos 0) (codes "OK") (some v)

abbrev pub fail : Text → DataWrapper Text
fail message = record { code = negsuc 0; message = message; success = false; «data» = none }
