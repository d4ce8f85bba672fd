-- ===== src/Admin/Service/Changes.antt =====
-- What changes the password of a user while requests are handled.
use virt_db.Prelude.{
  ℕ, ◌≡◌, ◌⊎◌, inl, inr, refl, sym, ap, ◌∙◌, subst, true, Bool-cases, Option, some, List, [], ◌∷◌,
  ◌++◌, Text, arith,
}
use virt_db.Prelude.Int.{ℤ}
use virt_db.Admin.Error.{Result, ok, err, SysError, Result-cases}
use virt_db.Admin.Token.{CurrentUser}
use virt_db.Admin.User.{
  SysUser, SysUsersLaws, PasswordUpdateParam, is_same_id, set_password, map_found, update_password,
}
use virt_db.Admin.User.Passwords.{IsChange, IsChange-of_update_password, update_password-err}
use virt_db.Admin.Service.{
  Backend, Call, login_call, update_password_call, get_user_info_call, get_async_routes_call,
  list_call, create_call, delete_call, register_call, list_sql_call, Moment, HttpRequest, AppState,
  AdminEvent, request, check, current_user, dispatch, handle, admin_step, admin_run,
}

module _ (b : Backend) where
  abbrev pub Users : Type 0
  Users = b.services.users.State

  -- A change of a password that a user asked for, which the table `users` allows and takes to `users'`.
  pub record Changes (m : Moment) (r : HttpRequest) (users users' : Users) (row : SysUser)
      (password : Text) : Type 0 where
    pub user : CurrentUser
    pub param : PasswordUpdateParam
    pub call : r.call ≡ update_password_call param
    pub authorized : current_user b m r ≡ ok user
    pub change : IsChange b.services m.salt users param user row users'
    pub digest : password ≡ b.services.md5 (param.new_password ++ m.salt)

  -- One of the requests of a run is such a change of the row with this id, to this password.
  abbrev pub WasChanged : AppState b → List (AdminEvent b) → ℤ → Text → Type 0
  WasChanged s [] id password = ⊥
  WasChanged s (check now ∷ events) id password =
      WasChanged (admin_step b s (check now)) events id password
  WasChanged s (request m r ∷ events) id password =
      ((row : SysUser) × Changes m r s.users (admin_step b s (request m r)).users row password
        × (is_same_id id row.id ≡ true))
      ⊎ WasChanged (admin_step b s (request m r)) events id password

  dispatch-users :
      (m : Moment) (s : AppState b) (user : Result SysError CurrentUser) (peer_addr : Option Text)
      (call : Call)
      → ((dispatch b m s user peer_addr call).0.users ≡ s.users)
        ⊎ ((u : CurrentUser) × (param : PasswordUpdateParam) × (row : SysUser) × (user ≡ ok u)
            × (call ≡ update_password_call param)
            × IsChange b.services m.salt s.users param u row
                (dispatch b m s user peer_addr call).0.users)
  unfolding dispatch
  dispatch-users m s (err e) peer_addr (update_password_call param) = inl refl
  dispatch-users m s (ok u) peer_addr (update_password_call param) =
      let result = update_password b.services m.salt s.users param u in
      elim (Result-cases result.1) [
        | inl (e, h) ↦ inl (update_password-err b.services m.salt s.users param u e h)
        | inr (w, h) ↦
            let (row, c) =
              IsChange-of_update_password b.services m.salt s.users param u result.0 w
                (ap (λ x. (result.0, x)) h) in
            inr (u, param, row, refl, refl, c)
      ]
  dispatch-users m s user peer_addr (login_call req) = inl refl
  dispatch-users m s (ok u) peer_addr get_user_info_call = inl refl
  dispatch-users m s (err e) peer_addr get_user_info_call = inl refl
  dispatch-users m s user peer_addr get_async_routes_call = inl refl
  dispatch-users m s (ok u) peer_addr (list_call req) = inl refl
  dispatch-users m s (err e) peer_addr (list_call req) = inl refl
  dispatch-users m s (ok u) peer_addr (create_call req) = inl refl
  dispatch-users m s (err e) peer_addr (create_call req) = inl refl
  dispatch-users m s (ok u) peer_addr (delete_call id) = inl refl
  dispatch-users m s (err e) peer_addr (delete_call id) = inl refl
  dispatch-users m s user peer_addr (register_call port rows) = inl refl
  dispatch-users m s user peer_addr (list_sql_call param) = inl refl

  step-users :
      (m : Moment) (s : AppState b) (r : HttpRequest)
      → ((admin_step b s (request m r)).users ≡ s.users)
        ⊎ ((row : SysUser) × (param : PasswordUpdateParam) × Changes m r s.users
              (admin_step b s (request m r)).users
              row
              (b.services.md5 (param.new_password ++ m.salt)))
  unfolding admin_step handle
  step-users m s r = elim (dispatch-users m s (current_user b m r) r.peer_addr r.call) [
    | inl k ↦ inl k
    | inr (u, param, row, a, c, change) ↦ inr (
      row,
      param,
      record { user = u; param = param; call = c; authorized = a; change = change; digest = refl },
    )
  ]

  abbrev Found : AppState b → Text → SysUser → Type 0
  Found s name u = b.services.users.find_active s.users name ≡ ok (some u)

  abbrev with_password : Text → SysUser → SysUser
  with_password p u = record u { user_password = p }

  -- Where a run of requests leaves the row `u`.
  abbrev pub Remains : AppState b → List (AdminEvent b) → Text → SysUser → Type 0
  Remains s events name u =
      (p : Text) × Found (admin_run b s events) name (with_password p u)
      × ((p ≡ u.user_password) ⊎ WasChanged s events u.id p)

  later :
      (m : Moment) (r : HttpRequest) (s : AppState b) (events : List (AdminEvent b)) (name : Text)
      (u : SysUser)
      → Remains (admin_step b s (request m r)) events name u
      → Remains s (request m r ∷ events) name u
  unfolding admin_run
  later m r s events name u (p, f, inl k) = (p, f, inl k)
  later m r s events name u (p, f, inr c) = (p, f, inr (inr c))

  checked :
      (now : ℕ) (s : AppState b) (events : List (AdminEvent b)) (name : Text) (u : SysUser)
      → Remains (admin_step b s (check now)) events name u
      → Remains s (check now ∷ events) name u
  unfolding admin_run
  checked now s events name u h = h

  checked-users :
      (now : ℕ) (s : AppState b) (name : Text) (u : SysUser)
      → Found s name u
      → Found (admin_step b s (check now)) name u
  unfolding admin_step
  checked-users now s name u f = f

  changed :
      (m : Moment) (r : HttpRequest) (s : AppState b) (events : List (AdminEvent b)) (name : Text)
      (u row : SysUser) (digest : Text)
      → Changes m r s.users (admin_step b s (request m r)).users row digest
      → is_same_id u.id row.id ≡ true
      → Remains (admin_step b s (request m r)) events name (with_password digest u)
      → Remains s (request m r ∷ events) name u
  unfolding admin_run
  changed m r s events name u row digest c i (p, f, inl k) = (
    p,
    f,
    inr (
        inl
          (row, subst (Changes m r s.users (admin_step b s (request m r)).users row) (sym k) c, i)),
  )
  changed m r s events name u row digest c i (p, f, inr w) = (p, f, inr (inr w))

  found-updated :
      (laws : SysUsersLaws b.services.users) (users users' : Users) (row u : SysUser)
      (digest name : Text)
      → b.services.users.find_active users name ≡ ok (some u)
      → b.services.users.update users row.id digest ≡ ok users'
      → b.services.users.find_active users' name ≡ ok (some (set_password row.id digest u))
  found-updated laws users users' row u digest name f h =
      laws.find_active-update users users' row.id digest name h
      ∙ ap (map_found (set_password row.id digest)) f

  updated :
      (m : Moment) (r : HttpRequest) (users users' : Users) (row : SysUser) (digest : Text)
      → Changes m r users users' row digest
      → b.services.users.update users row.id digest ≡ ok users'
  updated m r users users' row digest c =
      subst (λ d. b.services.users.update users row.id d ≡ ok users') (sym c.digest)
        c.change.updated

  -- A user's row is found under its name whatever is requested, with nothing but the password changed;
  -- and the password is as it was, or as one of the requests set it that asked for a change with a
  -- user's token, with a new password of eight bytes or more that it confirmed, and with the current
  -- password of the row with that id: then it is the digest of the new one and the salt drawn there.
  pub admin_run-password :
      (laws : SysUsersLaws b.services.users) (s : AppState b) (events : List (AdminEvent b))
      (name : Text) (u : SysUser)
      → b.services.users.find_active s.users name ≡ ok (some u)
      → Remains s events name u
  admin_run-password laws s [] name u f = unfold admin_run in (u.user_password, f, inl refl)
  admin_run-password laws s (check now ∷ events) name u f = checked now s events name u (
      admin_run-password laws (admin_step b s (check now)) events name u
        (checked-users now s name u f))
  admin_run-password laws s (request m r ∷ events) name u f =
      let s' = admin_step b s (request m r) in
      elim (step-users m s r) [
        | inl k ↦ later m r s events name u (
            admin_run-password laws s' events name u
              (ap (λ users. b.services.users.find_active users name) k ∙ f))
        | inr (row, param, c) ↦
            let digest = b.services.md5 (param.new_password ++ m.salt) in
            let f' =
              found-updated laws s.users s'.users row u digest name f
                (updated m r s.users s'.users row digest c) in
            elim (Bool-cases (is_same_id u.id row.id)) [
              | inl i ↦ changed m r s events name u row digest c i (
                  admin_run-password laws s' events name (with_password digest u)
                    (f' ∙ ground (arith, i)))
              | inr n ↦
                  later m r s events name u
                    (admin_run-password laws s' events name u (f' ∙ ground (arith, n)))
            ]
      ]
