-- ===== src/Tests/Start.antt =====
-- The start of the proxy at a concrete file system.
use virt_db.Prelude.{◌≡◌, ◌↔◌, refl, true, false, some, ◌++◌, Text, codes, text_eq}
use virt_db.Prelude.Int.{pos}
use virt_db.Text.Decimal.{to_string, digits}
use virt_db.Admin.Error.{ok, err}
use virt_db.Server.Config.{
  VirtDbConfig, Files, failed, done, Network, Serving, parse_config, start_serving, main,
}
use virt_db.Server.Config.Starting.{Serves, Unreadable, main_iff}

abbrev config : VirtDbConfig
config = record {
  server = record { dev = true; port = pos 3310 };
  admin = record { address = codes "http://127.0.0.1:8080" };
  metric = record { expose_port = 9000 };
  mysql = record { ip = codes "127.0.0.1"; port = pos 3306 };
  redis = record { nodes = codes "redis://127.0.0.1" };
  meta_db = record {
    ip = codes "127.0.0.1";
    port = pos 3306;
    username = codes "root";
    password = codes "root";
    database = codes "virt_db";
    refresh_duration_in_seconds = 10;
  };
}

-- There is one file, beside the program.
abbrev files : Files
files = record {
  FilePath = Text;
  path = λ s. s;
  exists = λ p. text_eq p (codes "/opt/config.toml");
  current_exe = some (codes "/opt/server");
  parent = λ p. some (codes "/opt");
  push = λ p s. p ++ codes "/" ++ s;
  to_str = λ p. some p;
  read_to_string = λ p. elim (text_eq p (codes "/opt/config.toml")) [
    | true ↦ ok (codes "toml")
    | false ↦ err (codes "no such file")
  ];
  from_str = λ s. some config;
}

abbrev net : Network
net = record { bind = λ a. ok tt; open_client = λ a. ok tt }

abbrev serving : Serving
serving = record { config = config; bound = codes "0.0.0.0:3310"; mysql = codes "127.0.0.1:3306" }

main_iff_example :
    ((main net files (codes "./config.toml") ≡ done serving)
      ↔ Serves net files (codes "./config.toml") serving)
    × ((main net files (codes "./config.toml") ≡ failed (codes "no such file"))
        ↔ Unreadable files (codes "./config.toml") (codes "no such file"))
main_iff_example = main_iff net files (codes "./config.toml") serving (codes "no such file")

serves : main net files (codes "./config.toml") ≡ done serving
unfolding main parse_config start_serving to_string digits
serves = refl

-- Without the file beside the program.
unreadable :
    main net (record files { push = λ p s. s }) (codes "./config.toml")
    ≡ failed (codes "no such file")
unfolding main parse_config
unreadable = refl
