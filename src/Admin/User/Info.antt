-- ===== src/Admin/User/Info.antt =====
-- `get_user_info` of admin/src/controller/user_controller.rs, with `GetUserInfoResp` of
-- admin/src/model/user_model.rs.
use virt_db.Prelude.{List, [], ◌∷◌, Text, codes}
use virt_db.Text.Decimal.{to_string}
use virt_db.Admin.Error.{DataWrapper, success_of}
use virt_db.Admin.Token.{CurrentUser}

pub record GetUserInfoResp : Type 0 where
  pub user_id : Text
  pub username : Text
  pub real_name : Text
  pub avatar : Text
  pub desc : Text
  pub password : Text
  pub token : Text
  pub home_path : Text
  pub roles : List Text

abbrev pub get_user_info_resp : CurrentUser → GetUserInfoResp
get_user_info_resp current_user = record {
  user_id = to_string current_user.user_id;
  username = current_user.user_name;
  real_name = codes "admin";
  avatar = codes "https://q1.qlogo.cn/g?b=qq&nk=190848757&s=640";
  desc = codes "manager";
  password = [];
  token = [];
  home_path = codes "/dashboard/analysis";
  roles = codes "admin" ∷ [];
}

unfoldable pub get_user_info : CurrentUser → DataWrapper GetUserInfoResp
unfolding to_string
get_user_info current_user = success_of GetUserInfoResp (get_user_info_resp current_user)
