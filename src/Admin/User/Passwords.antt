-- ===== src/Admin/User/Passwords.antt =====
-- Which passwords a login takes, before and after a change.
use virt_db.Prelude.{
  ℕ, ◌≤◌, ◌≡◌, ◌≢◌, ◌↔◌, true, Option, none, some, [], ◌++◌, Text, codes, text_eq, text_eq_iff,
  arith, sym, ap, subst, ◌∙◌, inl, inr,
}
use virt_db.Prelude.Int.{ℤ, pos, negsuc}
use virt_db.Admin.Error.{Result, ok, err, SysError, biz, DataWrapper, success_of, Result-cases}
use virt_db.Admin.Token.{CurrentUser, encode_token}
use virt_db.Admin.User.{
  SysUser, SysUsersLaws, is_same_id, set_password, map_found, LoginReq, LoginResp,
  PasswordUpdateParam, byte_len, Services, encode, login_resp, login, change_password,
  update_password,
}

abbrev a_day : ℕ
a_day = 86400

module _ (sv : Services) where
  abbrev token_for : ℕ → LoginReq → SysUser → Result Text Text
  token_for now req u =
      encode_token sv.jwt sv.jwt_secret now (record { user_id = u.id; user_name = req.username })
        a_day

  -- A user whose password is the one of the request, and a token for the user.
  pub record IsWelcome (now : ℕ) (s : sv.users.State) (req : LoginReq) (u : SysUser) (token : Text)
      : Type 0 where
    pub found : sv.users.find_active s req.username ≡ ok (some u)
    pub password : u.user_password ≡ sv.md5 (req.password ++ u.user_salt)
    pub token_of : token_for now req u ≡ ok token

  login-IsWelcome :
      (now : ℕ) (s : sv.users.State) (req : LoginReq) (u : SysUser) (token : Text)
      → IsWelcome now s req u token
      → login sv now s req ≡ ok (success_of LoginResp (login_resp sv token req.username))
  unfolding login encode
  login-IsWelcome now s req u token h = ground (
    arith,
    h.found,
    h.password,
    h.token_of,
    text_eq_iff u.user_password (sv.md5 (req.password ++ u.user_salt)),
  )

  -- A change of the password of the user `u`, which leaves the table `s'`.
  pub record IsChange (salt : Text) (s : sv.users.State) (param : PasswordUpdateParam)
      (current : CurrentUser) (u : SysUser) (s' : sv.users.State) : Type 0 where
    pub long : 8 ≤ byte_len param.new_password
    pub found : sv.users.find_by_id s current.user_id ≡ ok (some u)
    pub confirmed : param.new_password ≡ param.new_password_confirm
    pub current_password : sv.md5 (param.current_password ++ u.user_salt) ≡ u.user_password
    pub updated : sv.users.update s u.id (sv.md5 (param.new_password ++ salt)) ≡ ok s'

  update_password-IsChange :
      (salt : Text) (s : sv.users.State) (param : PasswordUpdateParam) (current : CurrentUser)
      (u : SysUser) (s' : sv.users.State)
      → IsChange salt s param current u s'
      → update_password sv salt s param current ≡ (s', ok (success_of Text []))
  unfolding update_password change_password encode
  update_password-IsChange salt s param current u s' h = ground (
    arith,
    h.long,
    h.found,
    h.confirmed,
    h.current_password,
    h.updated,
    text_eq_iff param.new_password param.new_password_confirm,
    text_eq_iff (sv.md5 (param.current_password ++ u.user_salt)) u.user_password,
  )

  IsWelcome-of_login :
      (now : ℕ) (s : sv.users.State) (req : LoginReq) (w : DataWrapper LoginResp)
      → login sv now s req ≡ ok w
      → (u : SysUser) × (token : Text) × IsWelcome now s req u token
        × (w ≡ success_of LoginResp (login_resp sv token req.username))
  unfolding login encode
  IsWelcome-of_login now s req w h = elim (Result-cases (sv.users.find_active s req.username)) [
    | inl (e, q) ↦ absurd (ground arith)
    | inr (none, q) ↦ absurd (ground arith)
    | inr (some u, q) ↦ elim (Result-cases (token_for now req u)) [
      | inl (e, t) ↦ absurd (ground arith)
      | inr (token, t) ↦
          let digest = sv.md5 (req.password ++ u.user_salt) in
          let p = text_eq_iff u.user_password digest in
          let same : text_eq u.user_password digest ≡ true = ground arith in
          (u, token, record { found = q; password = p.0 same; token_of = t }, ground arith)
    ]
  ]

  pub IsChange-of_update_password :
      (salt : Text) (s : sv.users.State) (param : PasswordUpdateParam) (current : CurrentUser)
      (s' : sv.users.State) (w : DataWrapper Text)
      → update_password sv salt s param current ≡ (s', ok w)
      → (u : SysUser) × IsChange salt s param current u s'
  unfolding update_password change_password encode
  IsChange-of_update_password salt s param current s' w h =
      elim (Result-cases (sv.users.find_by_id s current.user_id)) [
        | inl (e, q) ↦ absurd (ground arith)
        | inr (none, q) ↦ absurd (ground arith)
        | inr (some u, q) ↦
            elim (Result-cases (sv.users.update s u.id (sv.md5 (param.new_password ++ salt)))) [
              | inl (e, t) ↦ absurd (ground arith)
              | inr (s'', t) ↦
                  let digest = sv.md5 (param.current_password ++ u.user_salt) in
                  let p = text_eq_iff param.new_password param.new_password_confirm in
                  let c = text_eq_iff digest u.user_password in
                  let confirmed : text_eq param.new_password param.new_password_confirm ≡ true =
                    ground arith in
                  let current_is : text_eq digest u.user_password ≡ true = ground arith in
                  (
                    u,
                    record {
                      long = ground arith;
                      found = q;
                      confirmed = p.0 confirmed;
                      current_password = c.0 current_is;
                      updated = ground arith;
                    },
                  )
            ]
      ]

  pub update_password-err :
      (salt : Text) (s : sv.users.State) (param : PasswordUpdateParam) (current : CurrentUser)
      (e : SysError)
      → (update_password sv salt s param current).1 ≡ err e
      → (update_password sv salt s param current).0 ≡ s
  unfolding update_password change_password encode
  update_password-err salt s param current e h = ground arith

  abbrev pub wrong : Result SysError (DataWrapper LoginResp)
  wrong = err (biz (codes "用户名或密码错误"))

  -- A user who is found is told that the password is wrong exactly when its digest with the user's
  -- salt is another.
  login-wrong :
      (now : ℕ) (s : sv.users.State) (req : LoginReq) (u : SysUser)
      → sv.users.find_active s req.username ≡ ok (some u)
      → (login sv now s req ≡ wrong) ↔ (u.user_password ≢ sv.md5 (req.password ++ u.user_salt))
  unfolding login encode
  login-wrong now s req u f = (
    (λ h p. ground (
      arith,
      f,
      p,
      text_eq_iff u.user_password (sv.md5 (req.password ++ u.user_salt)),
      Result-cases (token_for now req u),
    )),
    λ h. ground (arith, f, text_eq_iff u.user_password (sv.md5 (req.password ++ u.user_salt))),
  )

abbrev found_one : SysUser → Result Text (Option SysUser)
found_one u = ok (some u)

found_one-injective : {u v : SysUser} → found_one u ≡ found_one v → u ≡ v
found_one-injective h = cc

is_same_id_refl : (id : ℤ) → is_same_id id id ≡ true
is_same_id_refl (pos n) = ground arith
is_same_id_refl (negsuc n) = ground arith

module _ (sv : Services) where
  -- A login succeeds exactly for an active user whose stored password is the digest of the password
  -- given and the user's salt, if a token can be made; the response carries that token and the name.
  pub login_iff :
      (now : ℕ) (s : sv.users.State) (req : LoginReq) (w : DataWrapper LoginResp)
      → (login sv now s req ≡ ok w) ↔ (
          (u : SysUser) × (token : Text) × IsWelcome sv now s req u token
          × (w ≡ success_of LoginResp (login_resp sv token req.username)))
  login_iff now s req w = (
    IsWelcome-of_login sv now s req w,
    λ (u, token, h, e). login-IsWelcome sv now s req u token h ∙ ap (λ v. ok v) (sym e),
  )

  -- A change of the password succeeds, and leaves the table `s'`, exactly if the new password has
  -- eight bytes or more, the user exists, the new password is confirmed, the current one is right, and
  -- the database makes `s'` by setting the digest of the new password and the drawn salt.
  pub update_password_iff :
      (salt : Text) (s : sv.users.State) (param : PasswordUpdateParam) (current : CurrentUser)
      (s' : sv.users.State)
      → (update_password sv salt s param current ≡ (s', ok (success_of Text [])))
        ↔ ((u : SysUser) × IsChange sv salt s param current u s')
  update_password_iff salt s param current s' = (
    IsChange-of_update_password sv salt s param current s' (success_of Text []),
    λ (u, h). update_password-IsChange sv salt s param current u s' h,
  )

  found-update :
      (laws : SysUsersLaws sv.users) (s s' : sv.users.State) (u : SysUser) (p name : Text)
      → sv.users.find_active s name ≡ ok (some u)
      → sv.users.update s u.id p ≡ ok s'
      → sv.users.find_active s' name ≡ ok (some (record u { user_password = p }))
  found-update laws s s' u p name f h =
      laws.find_active-update s s' u.id p name h
      ∙ ap (map_found (set_password u.id p)) f
      ∙ ground (arith, is_same_id_refl u.id)

  -- After a change of an active user's password, a login of that user is refused as wrong exactly when
  -- the digest of the password given with the user's salt is not the digest of the new password with the
  -- drawn salt.
  pub login-update_password :
      (laws : SysUsersLaws sv.users) (salt : Text) (s s' : sv.users.State)
      (param : PasswordUpdateParam) (current : CurrentUser) (u : SysUser) (now : ℕ) (req : LoginReq)
      → update_password sv salt s param current ≡ (s', ok (success_of Text []))
      → sv.users.find_by_id s current.user_id ≡ ok (some u)
      → sv.users.find_active s req.username ≡ ok (some u)
      → (login sv now s' req ≡ wrong sv)
        ↔ (sv.md5 (param.new_password ++ salt) ≢ sv.md5 (req.password ++ u.user_salt))
  login-update_password laws salt s s' param current u now req h f a =
      let (v, c) = (update_password_iff salt s param current s').0 h in
      let same : v ≡ u = found_one-injective (sym c.found ∙ f) in
      let digest = sv.md5 (param.new_password ++ salt) in
      let updated = subst (λ v. sv.users.update s v.id digest ≡ ok s') same c.updated in
      login-wrong sv now s' req (record u { user_password = digest })
        (found-update laws s s' u digest req.username a updated)
