-- ===== src/Admin/Service/Authorized.antt =====
-- What requests can do that carry no token of a user.
use virt_db.Prelude.{
  ℕ, ◌≡◌, inl, inr, refl, sym, ◌∙◌, ap, Option, List, [], ◌∷◌, Text, codes, subst, arith,
}
use virt_db.Admin.Error.{ok, err, SysError, biz, Result-cases}
use virt_db.Admin.Token.{
  CurrentUser, Jwt, Header, missing, not_text, value, audience, bearer, remove_all,
  verify_and_parse_token, parse_current_user, from_request,
}
use virt_db.Text.{trim}
use virt_db.Admin.Service.{
  dispatch, Backend, Call, login_call, update_password_call, get_user_info_call,
  get_async_routes_call, list_call, create_call, delete_call, register_call, list_sql_call, Moment,
  HttpRequest, AppState, failed, AdminEvent, request, check, seconds, current_user, handle,
  admin_step, admin_run,
}

module _ (jwt : Jwt) (jwt_secret : Text) where
  verify-biz :
      (now : ℕ) (token : Text) (e : SysError)
      → verify_and_parse_token jwt jwt_secret now token ≡ err e
      → (msg : Text) × (e ≡ biz msg)
  unfolding verify_and_parse_token
  verify-biz now token e h = elim (Result-cases (jwt.decode jwt_secret audience now token)) [
    | inl (e', d) ↦ (codes "token无效或已过期", ground (arith, h, d))
    | inr (c, d) ↦ absurd (ground (arith, h, d))
  ]

  parse-biz :
      (now : ℕ) (token : Text) (e : SysError)
      → parse_current_user jwt jwt_secret now token ≡ err e
      → (msg : Text) × (e ≡ biz msg)
  unfolding parse_current_user
  parse-biz now token e h = elim (Result-cases (verify_and_parse_token jwt jwt_secret now token)) [
    | inl (e', d) ↦ let (msg, same) = verify-biz now token e' d in (msg, ground (arith, h, d, same))
    | inr (c, d) ↦ absurd (ground (arith, h, d))
  ]

  from_request-biz :
      (now : ℕ) (header : Header) (e : SysError)
      → from_request jwt jwt_secret now header ≡ err e
      → (msg : Text) × (e ≡ biz msg)
  unfolding from_request
  from_request-biz now missing e h = (codes "TOKEN无效或已过期", cc)
  from_request-biz now not_text e h = (codes "TOKEN无效或已过期", cc)
  from_request-biz now (value token) e h = parse-biz now (trim (remove_all bearer 0 token)) e h

-- The services that take the current user.
abbrev pub NeedsUser : Call → Type 0
NeedsUser (login_call req) = ⊥
NeedsUser (update_password_call param) = Unit
NeedsUser get_user_info_call = Unit
NeedsUser get_async_routes_call = ⊥
NeedsUser (list_call req) = Unit
NeedsUser (create_call req) = Unit
NeedsUser (delete_call id) = Unit
NeedsUser (register_call port rows) = ⊥
NeedsUser (list_sql_call param) = ⊥

module _ (b : Backend) where
  -- Its `Authorization` header gives no user at that time.
  abbrev pub IsUnauthorized : Moment → HttpRequest → Type 0
  IsUnauthorized m r = (u : CurrentUser) → current_user b m r ≡ ok u → ⊥

  abbrev pub AllUnauthorized : List (AdminEvent b) → Type 0
  AllUnauthorized [] = Unit
  AllUnauthorized (request m r ∷ events) = IsUnauthorized m r × AllUnauthorized events
  AllUnauthorized (check now ∷ events) = AllUnauthorized events

  -- The tables of users and of configurations are as before.
  abbrev pub IsKept : AppState b → AppState b → Type 0
  IsKept s s' = (s'.users ≡ s.users) × (s'.configs ≡ s.configs)

  dispatch-refused :
      (m : Moment) (s : AppState b) (e : SysError) (peer_addr : Option Text) (call : Call)
      → NeedsUser call
      → dispatch b m s (err e) peer_addr call ≡ (s, failed e)
  unfolding dispatch
  dispatch-refused m s e peer_addr (login_call req) n = absurd n
  dispatch-refused m s e peer_addr (update_password_call param) n = refl
  dispatch-refused m s e peer_addr get_user_info_call n = refl
  dispatch-refused m s e peer_addr get_async_routes_call n = absurd n
  dispatch-refused m s e peer_addr (list_call req) n = refl
  dispatch-refused m s e peer_addr (create_call req) n = refl
  dispatch-refused m s e peer_addr (delete_call id) n = refl
  dispatch-refused m s e peer_addr (register_call port rows) n = absurd n
  dispatch-refused m s e peer_addr (list_sql_call param) n = absurd n

  dispatch-IsKept :
      (m : Moment) (s : AppState b) (e : SysError) (peer_addr : Option Text) (call : Call)
      → IsKept s (dispatch b m s (err e) peer_addr call).0
  unfolding dispatch
  dispatch-IsKept m s e peer_addr (login_call req) = (refl, refl)
  dispatch-IsKept m s e peer_addr (update_password_call param) = (refl, refl)
  dispatch-IsKept m s e peer_addr get_user_info_call = (refl, refl)
  dispatch-IsKept m s e peer_addr get_async_routes_call = (refl, refl)
  dispatch-IsKept m s e peer_addr (list_call req) = (refl, refl)
  dispatch-IsKept m s e peer_addr (create_call req) = (refl, refl)
  dispatch-IsKept m s e peer_addr (delete_call id) = (refl, refl)
  dispatch-IsKept m s e peer_addr (register_call port rows) = (refl, refl)
  dispatch-IsKept m s e peer_addr (list_sql_call param) = (refl, refl)

  unauthorized-err :
      (m : Moment) (r : HttpRequest)
      → IsUnauthorized m r
      → (msg : Text) × (current_user b m r ≡ err (biz msg))
  unauthorized-err m r h = elim (Result-cases (current_user b m r)) [
    | inl (e, c) ↦
        let (msg, same) =
          from_request-biz b.services.jwt b.services.jwt_secret (seconds m.now) r.authorization e
            c in
        (msg, c ∙ ap err same)
    | inr (u, c) ↦ absurd (h u c)
  ]

  admin_step-IsKept :
      (s : AppState b) (e : AdminEvent b) → AllUnauthorized (e ∷ []) → IsKept s (admin_step b s e)
  unfolding admin_step handle
  admin_step-IsKept s (request m r) (h, _) =
      let (msg, c) = unauthorized-err m r h in
      subst (λ user. IsKept s (dispatch b m s user r.peer_addr r.call).0) (sym c)
        (dispatch-IsKept m s (biz msg) r.peer_addr r.call)
  admin_step-IsKept s (check now) h = (refl, refl)

  admin_run-IsKept :
      (s : AppState b) (events : List (AdminEvent b))
      → AllUnauthorized events
      → IsKept s (admin_run b s events)
  unfolding admin_run
  admin_run-IsKept s [] h = (refl, refl)
  admin_run-IsKept s (request m r ∷ events) (h, hs) =
      let (u, c) = admin_step-IsKept s (request m r) (h, tt) in
      let (us, cs) = admin_run-IsKept (admin_step b s (request m r)) events hs in (us ∙ u, cs ∙ c)
  admin_run-IsKept s (check now ∷ events) hs =
      admin_run-IsKept (admin_step b s (check now)) events hs

  handle-refused :
      (m : Moment) (s : AppState b) (r : HttpRequest)
      → IsUnauthorized m r
      → NeedsUser r.call
      → (msg : Text) × (handle b m s r ≡ (s, failed (biz msg)))
  unfolding handle
  handle-refused m s r h n =
      let (msg, c) = unauthorized-err m r h in
      (
        msg,
        ap (λ user. dispatch b m s user r.peer_addr r.call) c
            ∙ dispatch-refused m s (biz msg) r.peer_addr r.call n,
      )

  -- Requests whose `Authorization` header gives no user, in whatever order they come, leave the users and
  -- the configurations as they are; and such a request for a service that takes the current user is
  -- answered with a message, without a change of anything.
  pub admin_run-unauthorized :
      (s : AppState b) (events : List (AdminEvent b)) (m : Moment) (r : HttpRequest)
      → AllUnauthorized events
      → IsUnauthorized m r
      → NeedsUser r.call
      → IsKept s (admin_run b s events)
        × ((msg : Text) × (handle b m (admin_run b s events) r
              ≡ (admin_run b s events, failed (biz msg))))
  admin_run-unauthorized s events m r hs h n =
      (admin_run-IsKept s events hs, handle-refused m (admin_run b s events) r h n)
