-- ===== src/Server/Config.antt =====
-- server/src/sys_config.rs, and what server/src/main.rs and `start` of server/src/server.rs do with a
-- configuration before the first connection is accepted. The file system, toml, the network and the
-- Redis client are parameters.
pub mod Starting
use virt_db.Prelude.{
  ℕ, ◌≡◌, Bool, true, false, Option, none, some, ◌++◌, Text, codes, if◌then◌else◌,
}
use virt_db.Prelude.Int.{ℤ}
use virt_db.Text.Decimal.{to_string}
use virt_db.Admin.Error.{Result, ok, err}

pub record ServerConfig : Type 0 where
  pub dev : Bool
  pub port : ℤ

pub record AdminConfig : Type 0 where
  pub address : Text

pub record BackendMySqlServerConfig : Type 0 where
  pub ip : Text
  pub port : ℤ

pub record MetricConfig : Type 0 where
  pub expose_port : ℕ

pub record RedisServerConfig : Type 0 where
  pub nodes : Text

pub record MetaDbConfig : Type 0 where
  pub ip : Text
  pub port : ℤ
  pub username : Text
  pub password : Text
  pub database : Text
  pub refresh_duration_in_seconds : ℕ

pub record VirtDbConfig : Type 0 where
  pub server : ServerConfig
  pub admin : AdminConfig
  pub metric : MetricConfig
  pub mysql : BackendMySqlServerConfig
  pub redis : RedisServerConfig
  pub meta_db : MetaDbConfig

-- What `parse_config` calls: paths, the path of the running program, the file system, and
-- `toml::from_str`, where `none` is its error.
pub record Files : Type 1 where
  pub FilePath : Type 0
  pub path : Text → FilePath
  pub exists : FilePath → Bool
  pub current_exe : Option FilePath
  pub parent : FilePath → Option FilePath
  pub push : FilePath → Text → FilePath
  pub to_str : FilePath → Option Text
  pub read_to_string : Text → Result Text Text
  pub from_str : Text → Option VirtDbConfig

-- How a step of the start ends: with a panic, with an error, or with a value.
pub data Outcome (A : Type 0) : Type 0 where
  panicked : Outcome A
  failed : Text → Outcome A
  done : A → Outcome A

abbrev pub unwrap : {A B : Type 0} → Option A → (A → Outcome B) → Outcome B
unwrap none k = panicked
unwrap (some a) k = k a

abbrev pub or_fail : {A B : Type 0} → Result Text A → (A → Outcome B) → Outcome B
or_fail (err e) k = failed e
or_fail (ok a) k = k a

module _ (files : Files) where
  abbrev pub real_config_file : Text → files.FilePath → Option Text
  real_config_file config_file base_dir =
      if files.exists (files.path config_file)
      then some config_file
      else files.to_str (files.push base_dir (codes "config.toml"))

  -- That the file is missing is only logged; reading it fails then.
  unfoldable pub parse_config : Text → Outcome VirtDbConfig
  parse_config config_file = unwrap files.current_exe (λ current_exec_path.
      unwrap (files.parent current_exec_path) (λ base_dir.
        unwrap (real_config_file config_file base_dir) (λ real_config_file.
          or_fail (files.read_to_string real_config_file) (λ toml_str.
            unwrap (files.from_str toml_str) (λ virt_db_config. done virt_db_config)))))

abbrev pub server_addr : VirtDbConfig → Text
server_addr c = codes "0.0.0.0:" ++ to_string c.server.port

abbrev pub mysql_addr : VirtDbConfig → Text
mysql_addr c = c.mysql.ip ++ codes ":" ++ to_string c.mysql.port

-- Where the reload job connects to.
abbrev pub mysql_url : VirtDbConfig → Text
mysql_url c =
    codes "mysql://"
    ++ c.meta_db.username
    ++ codes ":"
    ++ c.meta_db.password
    ++ codes "@"
    ++ c.meta_db.ip
    ++ codes ":"
    ++ to_string c.meta_db.port
    ++ codes "/"
    ++ c.meta_db.database

-- Where `register` sends the metrics.
abbrev pub register_api_url : VirtDbConfig → Text
register_api_url c = c.admin.address ++ codes "/vt_node/register"

-- `TcpListener::bind` and `Client::open`, by their errors.
pub record Network : Type 0 where
  pub bind : Text → Result Text Unit
  pub open_client : Text → Result Text Unit

-- What the accept loop runs with: the address that is bound and the database's.
pub record Serving : Type 0 where
  pub config : VirtDbConfig
  pub bound : Text
  pub mysql : Text

module _ (net : Network) where
  -- `start`, up to the accept loop.
  unfoldable pub start_serving : VirtDbConfig → Outcome Serving
  start_serving c = or_fail (net.bind (server_addr c)) (λ listener.
      or_fail (net.open_client c.redis.nodes)
        (λ redis_client. done (record { config = c; bound = server_addr c; mysql = mysql_addr c })))

  abbrev pub unwrap_outcome : {A : Type 0} → Outcome A → Outcome A
  unwrap_outcome panicked = panicked
  unwrap_outcome (failed e) = panicked
  unwrap_outcome (done a) = done a

  abbrev pub started : Outcome VirtDbConfig → Outcome Serving
  started panicked = panicked
  started (failed e) = failed e
  started (done c) = unwrap_outcome (start_serving c)

  -- `main` for the argument `config_file`, from the reading of the configuration on. The jobs that it
  -- starts run in threads and tasks of their own.
  unfoldable pub main : Files → Text → Outcome Serving
  unfolding parse_config start_serving
  main files config_file = started (parse_config files config_file)
