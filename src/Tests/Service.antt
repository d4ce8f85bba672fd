-- ===== src/Tests/Service.antt =====
-- The theorems on the services of the admin at concrete requests.
use virt_db.Prelude.{
  ℕ, ◌*◌, ap, subst, ◌≡◌, refl, Option, none, some, List, [], ◌∷◌, ◌++◌, Text, codes, arith,
}
use virt_db.Prelude.Int.{ℤ, pos}
use virt_db.Text.{trim, trim_start, is_whitespace, contains, starts_with}
use virt_db.Admin.Error.{Result, ok, err, biz, success_of}
use virt_db.Admin.Token.{
  missing, value, encode_token, from_request, parse_current_user, verify_and_parse_token,
  remove_all,
}
use virt_db.Admin.User.{
  SysUser, LoginResp, login_resp, byte_len, login, update_password, change_password,
}
use virt_db.Admin.User.Info.{GetUserInfoResp}
use virt_db.Text.Decimal.Read.{IsI64}
use virt_db.Admin.Node.{empty}
use virt_db.Admin.Service.{
  Backend, update_password_call, delete_call, register_call, Moment, HttpRequest, AppState, failed,
  user_info, AdminEvent, request, check, dispatch, handle, admin_step, admin_run,
}
use virt_db.Admin.Service.Authorized.{IsUnauthorized, IsKept, admin_run-unauthorized}
use virt_db.Admin.Service.Changes.{Remains, admin_run-password}
use virt_db.Admin.Service.Sessions.{Describes, login_request, info_request, login-get_user_info}
use virt_db.Tests.Admin.{jwt_laws, users_laws, services, user, token, req, param}
use virt_db.Tests.Unused.{table, configs}
use virt_db.Tests.CacheConfig.{db}
use virt_db.Tests.Node.{metrics, rows}
use virt_db.Tests.Columns.{json, query_all}

abbrev pub backend : Backend
backend = record {
  services = services;
  configs = table;
  metrics = metrics;
  json = json;
  Decimal = ℕ;
  reads = record {
    num_items = λ s statement. ok 2;
    fetch_page = λ s statement limit page_no. ok [];
    query_all = λ s sql. query_all sql;
  };
}

abbrev pub state : AppState backend
state = record {
  users = user;
  configs = configs;
  nodes = record { vt_nodes = empty; metrics = [] };
}

-- At a number of seconds.
abbrev pub at : ℕ → Moment
at n = record {
  now = n * 1000000000;
  now_str = codes "2023-02-17 10:01:00";
  salt = codes "-new";
  database = db;
}

abbrev resp : LoginResp
resp = login_resp services token (codes "ann")

abbrev new_password : HttpRequest
new_password = record {
  authorization = value (codes "Bearer " ++ token);
  peer_addr = none;
  call = update_password_call param;
}

abbrev events : List (AdminEvent backend)
events = check 100000000001 ∷ request (at 150) new_password ∷ []

abbrev id_of_found : Result Text (Option SysUser) → ℤ
id_of_found (ok none) = pos 0
id_of_found (ok (some u)) = u.id
id_of_found (err e) = pos 0

login-get_user_info_example :
    let s' =
      admin_run backend
        (handle backend (at 100) state (login_request backend missing none req)).0
        events in
    (u : SysUser) × (info : GetUserInfoResp) × (services.users.find_active user (codes "ann")
      ≡ ok (some u))
    × (u.user_password ≡ codes "password" ++ u.user_salt)
    × Describes backend u req info
    × (handle backend (at 200) s' (info_request backend token none)
        ≡ (s', user_info (success_of GetUserInfoResp info)))
login-get_user_info_example =
    login-get_user_info backend jwt_laws (at 100) (at 200) state missing none none req resp events
      (unfold handle dispatch login encode_token in refl) (unfold contains starts_with in refl)
      (unfold trim trim_start is_whitespace in refl) (omega arith)
      (λ u f. subst IsI64 (ap id_of_found f) (omega arith, omega arith))

admin_run-password_example : Remains backend state events (codes "ann") user
admin_run-password_example =
    admin_run-password backend users_laws state events (codes "ann") user refl

-- The change in the middle was made.
password_changed : (admin_run backend state events).users.user_password ≡ codes "p-second-new"
unfolding admin_run admin_step handle dispatch from_request parse_current_user
    verify_and_parse_token remove_all trim trim_start is_whitespace starts_with update_password
    change_password byte_len
password_changed = refl

abbrev deletion : HttpRequest
deletion = record {
  authorization = value (codes "Bearer none");
  peer_addr = none;
  call = delete_call (pos 1);
}

abbrev registration : HttpRequest
registration = record {
  authorization = missing;
  peer_addr = some (codes "10.0.0.1");
  call = register_call (codes "3306") rows;
}

abbrev strangers : List (AdminEvent backend)
strangers = request (at 100) registration ∷ check 100000000001 ∷ request (at 101) deletion ∷ []

no_user : (m : Moment) → IsUnauthorized backend m deletion
unfolding from_request parse_current_user verify_and_parse_token remove_all trim trim_start
    is_whitespace starts_with
no_user m u h = cc

no_header : (m : Moment) → IsUnauthorized backend m registration
unfolding from_request
no_header m u h = cc

admin_run-unauthorized_example :
    IsKept backend state (admin_run backend state strangers)
    × ((msg : Text) × (handle backend (at 200) (admin_run backend state strangers) deletion
          ≡ (admin_run backend state strangers, failed (biz msg))))
admin_run-unauthorized_example =
    admin_run-unauthorized backend state strangers (at 200) deletion
      (no_header (at 100), (no_user (at 101), tt)) (no_user (at 200)) tt
