-- ===== src/Admin/Service.antt =====
-- The services of admin/src/main.rs, with `AppState` and the check of the nodes: a request is given to
-- its handler, those of admin/src/controller, after its arguments are extracted. Requests whose body
-- does not decode are left out.
pub mod Authorized
pub mod Caching
pub mod Changes
pub mod Sessions
use virt_db.Prelude.{ℕ, ◌/◌, ◌≡◌, Option, none, some, List, [], ◌∷◌, ◌++◌, Text, codes}
use virt_db.Prelude.Int.{ℤ}
use virt_db.Admin.Error.{Result, ok, err, SysError, DataWrapper}
use virt_db.Admin.Token.{CurrentUser, Header, from_request}
use virt_db.Admin.User.{LoginReq, LoginResp, PasswordUpdateParam, Services, login, update_password}
use virt_db.Admin.User.Info.{GetUserInfoResp, get_user_info}
use virt_db.Admin.CacheConfig.{PageResponse, Model, CacheConfigListParam, Database, list}
use virt_db.Admin.CacheConfig.Change.{CacheConfigCreateParam, Configs, create, delete}
use virt_db.Admin.Node as Node
use virt_db.Admin.Node.{MetricHistory, Metrics, alive_check, register}
use virt_db.Admin.Metric.{MetricResult}
use virt_db.Admin.Metric.Listing.{MetricQueryParam, Json, MetricReads, list_sql}

-- The database, by its tables, and the other code that the handlers call.
pub record Backend : Type 1 where
  pub services : Services
  pub configs : Configs
  pub metrics : Metrics
  pub json : Json
  pub Decimal : Type 0
  pub reads : MetricReads json metrics.State Decimal

-- The body of a request, by the service that takes it.
pub data Call : Type 0 where
  login_call : LoginReq → Call
  update_password_call : PasswordUpdateParam → Call
  get_user_info_call : Call
  get_async_routes_call : Call
  list_call : CacheConfigListParam → Call
  create_call : CacheConfigCreateParam → Call
  delete_call : ℤ → Call
  register_call : Text → List MetricHistory → Call
  list_sql_call : MetricQueryParam → Call

-- What is there at a request: the time in nanoseconds, the local time as a text, the salt that is
-- drawn, and how the database compares texts and picks the rows of a page, in what order it likes.
pub record Moment : Type 0 where
  pub now : ℕ
  pub now_str : Text
  pub salt : Text
  pub database : Database

pub record HttpRequest : Type 0 where
  pub authorization : Header
  pub peer_addr : Option Text
  pub call : Call

abbrev pub seconds : ℕ → ℕ
seconds now = now / 1000000000

-- The body of `get_async_routes`.
unfoldable pub get_async_routes : Text
get_async_routes =
    codes "{\n"
    ++ codes "\t\"success\": true,\n"
    ++ codes "\t\"data\": [{\n"
    ++ codes "\t\t\"path\": \"/permission\",\n"
    ++ codes "\t\t\"meta\": {\n"
    ++ codes "\t\t\t\"title\": \"menus.permission\",\n"
    ++ codes "\t\t\t\"icon\": \"lollipop\",\n"
    ++ codes "\t\t\t\"rank\": 10\n"
    ++ codes "\t\t},\n"
    ++ codes "\t\t\"children\": []\n"
    ++ codes "\t}]\n"
    ++ codes "}"

module _ (b : Backend) where
  -- `conn` as the tables of users and of configurations; the table of metrics stands beside the nodes.
  pub record AppState : Type 0 where
    pub users : b.services.users.State
    pub configs : b.configs.State
    pub nodes : Node.AppState b.metrics

  -- `panicked` is a handler that did not return.
  pub data Response : Type 0 where
    panicked : Response
    failed : SysError → Response
    logged_in : DataWrapper LoginResp → Response
    user_info : DataWrapper GetUserInfoResp → Response
    routes : Text → Response
    config_page : DataWrapper (PageResponse Model) → Response
    metric_page : DataWrapper (PageResponse (MetricResult b.Decimal)) → Response
    answered : DataWrapper Text → Response

  abbrev pub response_of : {A : Type 0} → (A → Response) → Result SysError A → Response
  response_of f (ok a) = f a
  response_of f (err e) = failed e

  abbrev pub unless_panicked : {A : Type 0} → (A → Response) → Option (Result SysError A) → Response
  unless_panicked f none = panicked
  unless_panicked f (some r) = response_of f r

  abbrev pub page_response : Option (DataWrapper (PageResponse Model)) → Response
  page_response none = panicked
  page_response (some w) = config_page w

  -- A handler with the current user among its arguments.
  abbrev pub with_user :
      AppState
      → Result SysError CurrentUser
      → (CurrentUser → AppState × Response)
      → AppState × Response
  with_user s (err e) k = (s, failed e)
  with_user s (ok current_user) k = k current_user

  abbrev pub set_users :
      AppState → b.services.users.State × Result SysError (DataWrapper Text) → AppState × Response
  set_users s (users, r) = (record s { users = users }, response_of answered r)

  abbrev pub set_configs :
      AppState → b.configs.State × Result SysError (DataWrapper Text) → AppState × Response
  set_configs s (configs, r) = (record s { configs = configs }, response_of answered r)

  abbrev pub set_nodes :
      AppState
      → Node.AppState b.metrics × Option (Result SysError (DataWrapper Text))
      → AppState × Response
  set_nodes s (nodes, r) = (record s { nodes = nodes }, unless_panicked answered r)

  abbrev pub current_user : Moment → HttpRequest → Result SysError CurrentUser
  current_user m r =
      from_request b.services.jwt b.services.jwt_secret (seconds m.now) r.authorization

  -- The handler for a call, of what was extracted from the request.
  unfoldable pub dispatch :
      Moment → AppState → Result SysError CurrentUser → Option Text → Call → AppState × Response
  unfolding login update_password get_user_info get_async_routes list create delete register
      list_sql
  dispatch m s user peer_addr (login_call req) =
      (s, response_of logged_in (login b.services (seconds m.now) s.users req))
  dispatch m s user peer_addr (update_password_call param) =
      with_user s user (λ u. set_users s (update_password b.services m.salt s.users param u))
  dispatch m s user peer_addr get_user_info_call =
      with_user s user (λ u. (s, user_info (get_user_info u)))
  dispatch m s user peer_addr get_async_routes_call = (s, routes get_async_routes)
  dispatch m s user peer_addr (list_call req) =
      with_user s user (λ u. (s, page_response (list m.database req (b.configs.rows s.configs))))
  dispatch m s user peer_addr (create_call req) =
      with_user s user (λ u. set_configs s (create b.configs s.configs req))
  dispatch m s user peer_addr (delete_call id) =
      with_user s user (λ u. set_configs s (delete b.configs s.configs id))
  dispatch m s user peer_addr (register_call port metric_history_list) =
      set_nodes s (register b.metrics m.now peer_addr port metric_history_list s.nodes)
  dispatch m s user peer_addr (list_sql_call param) =
      (s, unless_panicked metric_page (list_sql b.json b.reads m.now_str s.nodes.metrics param))

  unfoldable pub handle : Moment → AppState → HttpRequest → AppState × Response
  unfolding dispatch from_request
  handle m s r = dispatch m s (current_user m r) r.peer_addr r.call

  -- A request, or a round of the check of the nodes.
  pub data AdminEvent : Type 0 where
    request : Moment → HttpRequest → AdminEvent
    check : ℕ → AdminEvent

  unfoldable pub admin_step : AppState → AdminEvent → AppState
  unfolding handle alive_check
  admin_step s (request m r) = (handle m s r).0
  admin_step s (check now) = record s {
    nodes = record s.nodes { vt_nodes = alive_check now s.nodes.vt_nodes };
  }

  unfoldable pub admin_run : AppState → List AdminEvent → AppState
  unfolding admin_step
  admin_run s [] = s
  admin_run s (e ∷ events) = admin_run (admin_step s e) events
