-- ===== src/Admin/Service/Sessions.antt =====
-- A login, and the requests that carry its token.
use virt_db.Prelude.{
  ◌+◌, ◌≤◌, ◌≡◌, refl, sym, ap, ◌∙◌, subst, false, Option, none, some, List, [], Text, codes, arith,
  ◌++◌,
}
use virt_db.Text.{trim, contains}
use virt_db.Admin.Error.{Result, ok, err, SysError, DataWrapper, success_of}
use virt_db.Admin.Token.{CurrentUser, JwtLaws, Header, bearer, value, from_request}
use virt_db.Admin.Token.Bearer.{from_request-encode_token}
use virt_db.Admin.User.{SysUser, LoginReq, LoginResp, login}
use virt_db.Admin.User.Passwords.{IsWelcome, login_iff}
use virt_db.Admin.User.Info.{GetUserInfoResp, get_user_info_resp, get_user_info}
use virt_db.Text.Decimal.Read.{read, IsI64, read-to_string}
use virt_db.Admin.Service.{
  Backend, login_call, get_user_info_call, Moment, HttpRequest, AppState, logged_in, user_info,
  AdminEvent, seconds, current_user, dispatch, response_of, handle, admin_run,
}

module _ (b : Backend) where
  logged_in_injective :
      (r : Result SysError (DataWrapper LoginResp)) (w : DataWrapper LoginResp)
      → response_of b (λ v. logged_in v) r ≡ logged_in w
      → r ≡ ok w
  logged_in_injective (ok v) w h = cc
  logged_in_injective (err e) w h = absurd cc

  dispatch-login :
      (m : Moment) (s : AppState b) (user : Result SysError CurrentUser) (peer_addr : Option Text)
      (req : LoginReq) (w : DataWrapper LoginResp)
      → (dispatch b m s user peer_addr (login_call req)).1 ≡ logged_in w
      → login b.services (seconds m.now) s.users req ≡ ok w
  unfolding dispatch
  dispatch-login m s user peer_addr req w h =
      logged_in_injective (login b.services (seconds m.now) s.users req) w h

  handle-user_info :
      (m : Moment) (s : AppState b) (peer_addr : Option Text) (header : Header) (u : CurrentUser)
      → from_request b.services.jwt b.services.jwt_secret (seconds m.now) header ≡ ok u
      → handle b m s
          (record { authorization = header; peer_addr = peer_addr; call = get_user_info_call })
        ≡ (s, user_info (get_user_info u))
  unfolding handle dispatch
  handle-user_info m s peer_addr header u h = ground (arith, h)

  -- The description of a user: the name that was logged in with, and the digits of the id.
  pub record Describes (u : SysUser) (req : LoginReq) (info : GetUserInfoResp) : Type 0 where
    pub username : info.username ≡ req.username
    pub user_id : read info.user_id ≡ u.id

  describes :
      (u : SysUser) (req : LoginReq)
      → IsI64 u.id
      → Describes u req (get_user_info_resp (record { user_id = u.id; user_name = req.username }))
  describes u req h = record { username = refl; user_id = read-to_string u.id h }

  get_user_info-success :
      (u : CurrentUser) → get_user_info u ≡ success_of GetUserInfoResp (get_user_info_resp u)
  unfolding get_user_info
  get_user_info-success u = refl

  abbrev token_in : Option LoginResp → Text
  token_in none = []
  token_in (some resp) = resp.access_token

  abbrev token_of : DataWrapper LoginResp → Text
  token_of w = token_in w.data

  abbrev pub login_request : Header → Option Text → LoginReq → HttpRequest
  login_request header peer_addr req = record {
    authorization = header;
    peer_addr = peer_addr;
    call = login_call req;
  }

  abbrev pub info_request : Text → Option Text → HttpRequest
  info_request token peer_addr = record {
    authorization = value (codes "Bearer " ++ token);
    peer_addr = peer_addr;
    call = get_user_info_call;
  }

  login-IsWelcome :
      (m : Moment) (s : AppState b) (header : Header) (peer_addr : Option Text) (req : LoginReq)
      (resp : LoginResp)
      → (handle b m s (login_request header peer_addr req)).1
        ≡ logged_in (success_of LoginResp resp)
      → (u : SysUser) × IsWelcome b.services (seconds m.now) s.users req u resp.access_token
  unfolding handle
  login-IsWelcome m s header peer_addr req resp h =
      let r = login_request header peer_addr req in
      let l = dispatch-login m s (current_user b m r) peer_addr req (success_of LoginResp resp) h in
      let (u, token, w, e) =
        (login_iff b.services (seconds m.now) s.users req (success_of LoginResp resp)).0 l in
      (u, subst (λ t. IsWelcome b.services (seconds m.now) s.users req u t) (sym (ap token_of e)) w)

  -- Where a login is answered with a token, the user of that name is in the table with the password
  -- given; and for a day, whatever else is requested in between, a request for the user with that token
  -- in its `Authorization` header is answered with that name and the digits of that user's id, where the
  -- token has no white space at its ends and not the word "Bearer" inside, and the id is of 64 bits.
  pub login-get_user_info :
      (laws : JwtLaws b.services.jwt) (m later : Moment) (s : AppState b) (header : Header)
      (peer_addr peer_addr' : Option Text) (req : LoginReq) (resp : LoginResp)
      (events : List (AdminEvent b))
      → (handle b m s (login_request header peer_addr req)).1
        ≡ logged_in (success_of LoginResp resp)
      → contains bearer resp.access_token ≡ false
      → trim resp.access_token ≡ resp.access_token
      → seconds later.now ≤ seconds m.now + 86400
      → ((u : SysUser)
          → b.services.users.find_active s.users req.username ≡ ok (some u)
          → IsI64 u.id)
      → let s' = admin_run b (handle b m s (login_request header peer_addr req)).0 events in
        (u : SysUser) × (info : GetUserInfoResp) × (b.services.users.find_active s.users
            req.username
          ≡ ok (some u))
        × (u.user_password ≡ b.services.md5 (req.password ++ u.user_salt))
        × Describes u req info
        × (handle b later s' (info_request resp.access_token peer_addr')
            ≡ (s', user_info (success_of GetUserInfoResp info)))
  login-get_user_info laws m later s header peer_addr peer_addr' req resp events h c t time ids =
      let (u, w) = login-IsWelcome m s header peer_addr req resp h in
      let v : CurrentUser = record { user_id = u.id; user_name = req.username } in
      let s' = admin_run b (handle b m s (login_request header peer_addr req)).0 events in
      let from =
        from_request-encode_token b.services.jwt laws b.services.jwt_secret (seconds m.now) v 86400
          (seconds later.now) resp.access_token w.token_of c t time in
      (
        u,
        get_user_info_resp v,
        w.found,
        w.password,
        describes u req (ids u w.found),
        handle-user_info later s' peer_addr' (value (codes "Bearer " ++ resp.access_token)) v from
            ∙ ap (λ i. (s', user_info i)) (get_user_info-success v),
      )
