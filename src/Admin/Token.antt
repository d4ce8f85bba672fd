-- ===== src/Admin/Token.antt =====
-- admin/src/utils/jwt.rs and `CurrentUser::from_request` of admin/src/model/mod.rs: the token that a
-- login hands out and a request carries. The crate jsonwebtoken is a parameter.
pub mod Bearer
use virt_db.Prelude.{
  ℕ, zero, suc, ◌+◌, ◌≤◌, ◌≡◌, Bool, true, false, Option, none, some, List, [], ◌∷◌, ◌++◌, Text,
  codes, length,
}
use virt_db.Prelude.Int.{ℤ}
use virt_db.Text.{trim, starts_with}
use virt_db.Admin.Error.{Result, ok, err, SysError, biz, system}

pub record CurrentUser : Type 0 where
  pub user_id : ℤ
  pub user_name : Text

-- `exp` is in seconds since 1970.
pub record Claims : Type 0 where
  pub aud : Text
  pub subject : CurrentUser
  pub exp : ℕ
  pub iat : ℕ

-- The two functions of jsonwebtoken: with the secret; and with the secret, the audience and the time.
pub record Jwt : Type 0 where
  pub encode : Text → Claims → Result Text Text
  pub decode : Text → Text → ℕ → Text → Result Text Claims

-- What the crate documents: an encoded token is decoded to its claims with the same secret and
-- audience until it expires.
pub record JwtLaws (jwt : Jwt) : Type 0 where
  pub decode-encode :
      (secret : Text) (claims : Claims) (token : Text) (now : ℕ)
      → jwt.encode secret claims ≡ ok token
      → now ≤ claims.exp
      → jwt.decode secret claims.aud now token ≡ ok claims

abbrev pub audience : Text
audience = codes "virt-db-admin"

module _ (jwt : Jwt) (jwt_secret : Text) where
  unfoldable pub encode_token : ℕ → CurrentUser → ℕ → Result Text Text
  encode_token now v duration_in_seconds =
      jwt.encode jwt_secret
        (record { aud = audience; subject = v; exp = now + duration_in_seconds; iat = 0 })

  unfoldable pub verify_and_parse_token : ℕ → Text → Result SysError Claims
  verify_and_parse_token now token = elim (jwt.decode jwt_secret audience now token) [
    | ok token_data ↦ ok token_data
    | err e ↦ err (biz (codes "token无效或已过期"))
  ]

  unfoldable pub parse_current_user : ℕ → Text → Result SysError CurrentUser
  unfolding verify_and_parse_token
  parse_current_user now token = elim (verify_and_parse_token now token) [
    | ok claims ↦ ok claims.subject
    | err e ↦ err e
  ]

-- `str::replace` by the empty text: each match from the left is skipped, `k` characters of the
-- current one being left.
unfoldable pub remove_all : Text → ℕ → Text → Text
unfolding starts_with
remove_all p k [] = []
remove_all p (suc k) (c ∷ s) = remove_all p k s
remove_all [] zero (c ∷ s) = c ∷ remove_all [] zero s
remove_all (p ∷ ps) zero (c ∷ s) = elim (starts_with (p ∷ ps) (c ∷ s)) [
  | true ↦ remove_all (p ∷ ps) (length ps) s
  | false ↦ c ∷ remove_all (p ∷ ps) zero s
]

abbrev pub bearer : Text
bearer = codes "Bearer"

abbrev pub invalid_token : Result SysError CurrentUser
invalid_token = err (biz (codes "TOKEN无效或已过期"))

-- What the `Authorization` header is: missing, not text, or a text.
pub data Header : Type 0 where
  missing : Header
  not_text : Header
  value : Text → Header

module _ (jwt : Jwt) (jwt_secret : Text) where
  unfoldable pub from_request : ℕ → Header → Result SysError CurrentUser
  unfolding parse_current_user remove_all trim
  from_request now missing = invalid_token
  from_request now not_text = invalid_token
  from_request now (value token) =
      parse_current_user jwt jwt_secret now (trim (remove_all bearer 0 token))
