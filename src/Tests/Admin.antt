-- ===== src/Tests/Admin.antt =====
-- The theorems on the admin service at concrete inputs.
use virt_db.Prelude.{
  ℕ, zero, suc, ◌≤◌, ap, ap₂, subst, sym, ◌∙◌, text_eq_iff, ◌≡◌, ◌≢◌, ◌↔◌, refl, Option, none, some,
  [], ◌∷◌, ◌++◌, Text, codes, length, take, drop, ◌&&◌, text_eq, leb, arith, if◌then◌else◌,
}
use virt_db.Prelude.Int.{ℤ, pos, negsuc}
use virt_db.Admin.Error.{Result, ok, err, DataWrapper, success_of}
use virt_db.Admin.Token.{CurrentUser, Claims, Jwt, JwtLaws, encode_token}
use virt_db.Admin.User.{
  SysUser, SysUsers, SysUsersLaws, set_password, map_found, LoginReq, LoginResp, login_resp,
  PasswordUpdateParam, Services, byte_len, login, update_password,
}
use virt_db.Admin.User.Passwords.{IsChange, wrong, update_password_iff, login-update_password}

-- A token that holds its claims in the open.
abbrev id_codes : ℤ → Text
id_codes (pos n) = 0 ∷ n ∷ []
id_codes (negsuc n) = 1 ∷ n ∷ []

abbrev id_of : ℕ → ℕ → ℤ
id_of zero n = pos n
id_of (suc k) n = negsuc n

abbrev open_token : Claims → Text
open_token c =
    id_codes c.subject.user_id ++ c.exp ∷ c.iat ∷ length c.aud ∷ (c.aud ++ c.subject.user_name)

abbrev claims_of : Text → Option Claims
claims_of (sign ∷ n ∷ exp ∷ iat ∷ len ∷ rest) = some (record {
  aud = take len rest;
  subject = record { user_id = id_of sign n; user_name = drop len rest };
  exp = exp;
  iat = iat;
})
claims_of _ = none

abbrev checked : Text → ℕ → Claims → Result Text Claims
checked aud now c = if text_eq c.aud aud && leb now c.exp then ok c else err (codes "invalid")

abbrev decode : Text → Text → ℕ → Text → Result Text Claims
decode secret aud now token = elim (claims_of token) [
  | none ↦ err (codes "no token")
  | some c ↦ checked aud now c
]

abbrev jwt : Jwt
jwt = record { encode = λ secret c. ok (open_token c); decode = decode }

take-append : (s t : Text) → take (length s) (s ++ t) ≡ s
take-append [] t = refl
take-append (c ∷ s) t = ap (λ l. c ∷ l) (take-append s t)

drop-append : (s t : Text) → drop (length s) (s ++ t) ≡ t
drop-append [] t = refl
drop-append (c ∷ s) t = drop-append s t

abbrev claims : ℤ → Text → ℕ → ℕ → Text → Claims
claims id name exp iat aud = record {
  aud = aud;
  subject = record { user_id = id; user_name = name };
  exp = exp;
  iat = iat;
}

claims_of-open_token :
    (id : ℤ) (name : Text) (exp iat : ℕ) (aud : Text)
    → claims_of (open_token (claims id name exp iat aud)) ≡ some (claims id name exp iat aud)
claims_of-open_token (pos n) name exp iat aud =
    ap₂ (λ a m. some (claims (pos n) m exp iat a)) (take-append aud name) (drop-append aud name)
claims_of-open_token (negsuc n) name exp iat aud =
    ap₂ (λ a m. some (claims (negsuc n) m exp iat a)) (take-append aud name) (drop-append aud name)

decode-open_token :
    (secret : Text) (c : Claims) (token : Text) (now : ℕ)
    → jwt.encode secret c ≡ ok token
    → now ≤ c.exp
    → decode secret c.aud now token ≡ ok c
decode-open_token secret c token now e h =
    let same : open_token c ≡ token = cc in
    let t =
      ap claims_of (sym same)
      ∙ claims_of-open_token c.subject.user_id c.subject.user_name c.exp c.iat c.aud in
    let a = (text_eq_iff c.aud c.aud).1 refl in ground (arith, t, a)

pub jwt_laws : JwtLaws jwt
jwt_laws = record { decode-encode = decode-open_token }

-- A table with one row.
abbrev find : SysUser → Text → Result Text (Option SysUser)
find u name = if text_eq u.user_name name then ok (some u) else ok none

abbrev found_name : Text → Result Text SysUser → Result Text (Option SysUser)
found_name name (ok u) = find u name
found_name name (err e) = err e

abbrev users : SysUsers
users = record {
  State = SysUser;
  find_active = find;
  find_by_id = λ u id. ok (some u);
  update = λ u id p. ok (set_password id p u);
}

find-set_password :
    (s : SysUser) (id : ℤ) (p name : Text)
    → find (set_password id p s) name ≡ map_found (set_password id p) (find s name)
find-set_password s id p name = ground arith

pub users_laws : SysUsersLaws users
users_laws = record {
  find_active-update = λ s s' id p name h.
      subst (λ found. found_name name found ≡ map_found (set_password id p) (find s name)) h
        (find-set_password s id p name);
}

-- md5 is left out: a digest is the text itself.
abbrev pub services : Services
services = record { md5 = λ s. s; jwt = jwt; jwt_secret = codes "secret"; users = users }

abbrev pub user : SysUser
user = record {
  id = pos 1;
  user_name = codes "ann";
  user_password = codes "password-old";
  user_salt = codes "-old";
  user_status = codes "1";
  user_email = none;
}

abbrev current : CurrentUser
current = record { user_id = pos 1; user_name = codes "ann" }

abbrev pub token : Text
token = open_token (claims (pos 1) (codes "ann") 86500 0 (codes "virt-db-admin"))

abbrev pub req : LoginReq
req = record { username = codes "ann"; password = codes "password" }

abbrev logged_in : DataWrapper LoginResp
logged_in = success_of LoginResp (login_resp services token (codes "ann"))

logs_in : login services 100 user req ≡ ok logged_in
unfolding login encode_token
logs_in = refl

abbrev pub param : PasswordUpdateParam
param = record {
  current_password = codes "password";
  new_password = codes "p-second";
  new_password_confirm = codes "p-second";
}

abbrev changed : SysUser
changed = record user { user_password = codes "p-second-new" }

update_password_iff_example :
    (update_password services (codes "-new") user param current
      ≡ (changed, ok (success_of Text [])))
    ↔ ((u : SysUser) × IsChange services (codes "-new") user param current u changed)
update_password_iff_example = update_password_iff services (codes "-new") user param current changed

changes :
    update_password services (codes "-new") user param current ≡ (changed, ok (success_of Text []))
unfolding update_password byte_len
changes = refl

abbrev new_req : LoginReq
new_req = record { username = codes "ann"; password = codes "p-second" }

login-update_password_example :
    (login services 100 changed new_req ≡ wrong services)
    ↔ (codes "p-second-new" ≢ codes "p-second-old")
login-update_password_example =
    login-update_password services users_laws (codes "-new") user changed param current user 100
      new_req changes refl refl

-- The new password is refused.
refused : login services 100 changed new_req ≡ wrong services
unfolding login
refused = refl
