-- ===== src/Admin/User.antt =====
-- admin/src/controller/user_controller.rs and admin/src/utils/password.rs: logging in, and changing
-- the password. The table of users, md5 and jsonwebtoken are parameters; the salt that is drawn and
-- the time are arguments.
pub mod Info
pub mod Passwords
use virt_db.Prelude.{
  ℕ, ◌+◌, ◌≡◌, Bool, true, false, Option, none, some, List, [], ◌∷◌, ◌++◌, Text, codes, ltb, leb,
  text_eq, not, ◌==◌, ◌*◌, if◌then◌else◌,
}
use virt_db.Prelude.Int.{ℤ, sub_ℕ}
use virt_db.Admin.Error.{Result, ok, err, SysError, biz, system, DataWrapper, success_of}
use virt_db.Admin.Token.{CurrentUser, Jwt, encode_token}

pub record SysUser : Type 0 where
  pub id : ℤ
  pub user_name : Text
  pub user_password : Text
  pub user_salt : Text
  pub user_status : Text
  pub user_email : Option Text

-- The queries that the handlers make of the table `sys_user`: by name among the active users, by the
-- primary key, and an update of the row with an id that sets its password alone.
pub record SysUsers : Type 1 where
  pub State : Type 0
  pub find_active : State → Text → Result Text (Option SysUser)
  pub find_by_id : State → ℤ → Result Text (Option SysUser)
  pub update : State → ℤ → Text → Result Text State

abbrev pub is_same_id : ℤ → ℤ → Bool
is_same_id (ℤ.pos a) (ℤ.pos b) = a == b
is_same_id (ℤ.negsuc a) (ℤ.negsuc b) = a == b
is_same_id _ _ = false

abbrev pub set_password : ℤ → Text → SysUser → SysUser
set_password id p u = if is_same_id u.id id then record u { user_password = p } else u

abbrev pub map_found :
    (SysUser → SysUser) → Result Text (Option SysUser) → Result Text (Option SysUser)
map_found f (ok none) = ok none
map_found f (ok (some u)) = ok (some (f u))
map_found f (err e) = err e

-- What UPDATE and SELECT of a database do: after the update the query by name finds the row that it
-- found before, with the new password if it is the row that was updated.
pub record SysUsersLaws (users : SysUsers) : Type 0 where
  pub find_active-update :
      (s s' : users.State) (id : ℤ) (p name : Text)
      → users.update s id p ≡ ok s'
      → users.find_active s' name ≡ map_found (set_password id p) (users.find_active s name)

pub record LoginReq : Type 0 where
  pub username : Text
  pub password : Text

pub record LoginResp : Type 0 where
  pub access_token : Text
  pub refresh_token : Text
  pub expires : Text
  pub roles : List Text
  pub username : Text

pub record PasswordUpdateParam : Type 0 where
  pub current_password : Text
  pub new_password : Text
  pub new_password_confirm : Text

-- The bytes of a character in UTF-8.
abbrev pub len_utf8 : ℕ → ℕ
len_utf8 c = if ltb c 0x80 then 1 else if ltb c 0x800 then 2 else if ltb c 0x10000 then 3 else 4

-- `String::len`
unfoldable pub byte_len : Text → ℕ
byte_len [] = 0
byte_len (c ∷ s) = len_utf8 c + byte_len s

-- What the handlers call: md5 as hexadecimal digits, the tokens with their secret, the table.
pub record Services : Type 1 where
  pub md5 : Text → Text
  pub jwt : Jwt
  pub jwt_secret : Text
  pub users : SysUsers

module _ (sv : Services) where
  unfoldable pub encode : Text → Text → Text
  encode plain_text salt = sv.md5 (plain_text ++ salt)

  abbrev pub login_resp : Text → Text → LoginResp
  login_resp token user_name = record {
    access_token = token;
    refresh_token = [];
    expires = [];
    roles = codes "admin" ∷ [];
    username = user_name;
  }

  -- The token for a user who was found.
  abbrev pub log_in : ℕ → LoginReq → SysUser → Result SysError (DataWrapper LoginResp)
  log_in now login_req sys_user =
      let current_user : CurrentUser = record {
        user_id = sys_user.id;
        user_name = login_req.username;
      } in
      elim (encode_token sv.jwt sv.jwt_secret now current_user (3600 * 24)) [
        | err e ↦ err (system e)
        | ok token ↦ ok (success_of LoginResp (login_resp token login_req.username))
      ]

  unfoldable pub login : ℕ → sv.users.State → LoginReq → Result SysError (DataWrapper LoginResp)
  unfolding encode encode_token
  login now s login_req = elim (sv.users.find_active s login_req.username) [
    | err e ↦ err (system e)
    | ok none ↦ err (biz (codes "用户不存在或被禁用"))
    | ok (some sys_user) ↦
        if not (text_eq sys_user.user_password (encode login_req.password sys_user.user_salt))
        then err (biz (codes "用户名或密码错误"))
        else log_in now login_req sys_user
  ]

  -- From the comparison of the two new passwords on.
  unfoldable pub change_password :
      Text
      → sv.users.State
      → PasswordUpdateParam
      → SysUser
      → sv.users.State × Result SysError (DataWrapper Text)
  unfolding encode
  change_password salt s param sys_user =
      let encoded_password = encode param.new_password salt in
      if not (text_eq param.new_password param.new_password_confirm)
      then (s, err (biz (codes "新密码和确认密码不一致")))
      else if not
          (text_eq (encode param.current_password sys_user.user_salt) sys_user.user_password)
      then (s, err (biz (codes "旧密码错误")))
      else elim (sv.users.update s sys_user.id encoded_password) [
        | err e ↦ (s, err (system e))
        | ok s' ↦ (s', ok (success_of Text []))
      ]

  unfoldable pub update_password :
      Text
      → sv.users.State
      → PasswordUpdateParam
      → CurrentUser
      → sv.users.State × Result SysError (DataWrapper Text)
  unfolding change_password byte_len
  update_password salt s param current_user =
      if ltb (byte_len param.new_password) 8
      then (s, err (biz (codes "密码长度过短，至少需要8个字符")))
      else elim (sv.users.find_by_id s current_user.user_id) [
        | err e ↦ (s, err (system e))
        | ok none ↦ (s, err (biz (codes "无效用户")))
        | ok (some sys_user) ↦ change_password salt s param sys_user
      ]
