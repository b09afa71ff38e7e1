-- ===== src/Config.antt =====
-- crates/canal-cli/src/lib.rs: the configuration, as `serde` reads it, and the address of the Admin
-- API. A section is what the file gives, with none where a key is missing.
use canal_rust.Prelude.{
  ℕ, ◌+◌, ◌≡◌, Option, none, some, Bool, false, [], ◌++◌, length, ltb, if◌then◌else◌, if-cases,
}
use canal_rust.Prelude.Bytes.{Text, bytes, decimal}
use canal_rust.Common.CanalError.{Result, ok, err, ◌>>=◌}
use canal_rust.Store.{MemoryEventStore}
use canal_rust.Server.Serve
use canal_rust.Server.Serve.{CanalServer, is_blank, with_auth, with_idle_timeout}

-- `#[serde(default = "...")]`
abbrev or_default {ℓ} : {A : Type ℓ} → Option A → A → A
or_default none d = d
or_default (some a) d = a

pub record FilterSection : Type 0 where
  pub pattern : Text
  pub black_list : Text

unfoldable pub default_filter_pattern : Text
default_filter_pattern = bytes ".*\\..*"

-- `FilterSection::default()`
unfoldable pub default_filter : FilterSection
default_filter = record { pattern = default_filter_pattern; black_list = [] }

unfoldable pub filter_section : Option Text → Option Text → FilterSection
filter_section pattern black_list = record {
  pattern = or_default pattern default_filter_pattern;
  black_list = or_default black_list [];
}

-- `token.filter(|t| !t.trim().is_empty())`
unfoldable pub deserialize_auth_token : Option Text → Option Text
deserialize_auth_token none = none
deserialize_auth_token (some token) = if is_blank token then none else some token

pub record MysqlConfig : Type 0 where
  pub host : Text
  pub port : ℕ
  pub username : Text
  pub password : Text

unfoldable pub mysql_config : Text → Option ℕ → Text → Text → MysqlConfig
mysql_config host port username password = record {
  host = host;
  port = or_default port 3306;
  username = username;
  password = password;
}

unfoldable pub store_section : Option ℕ → ℕ
store_section buffer_size = or_default buffer_size 16384

pub record ServerSection : Type 0 where
  pub bind : Text
  pub metrics_bind : Text
  pub admin_bind : Option Text
  pub idle_timeout_secs : ℕ

unfoldable pub server_section : Option Text → Option Text → Option Text → Option ℕ → ServerSection
server_section bind metrics_bind admin_bind idle_timeout_secs = record {
  bind = or_default bind (bytes "127.0.0.1:11111");
  metrics_bind = or_default metrics_bind (bytes "127.0.0.1:9090");
  admin_bind = admin_bind;
  idle_timeout_secs = or_default idle_timeout_secs 3600;
}

pub record LogSection : Type 0 where
  pub level : Text
  pub format : Text

unfoldable pub log_section : Option Text → Option Text → LogSection
log_section level format = record {
  level = or_default level (bytes "info");
  format = or_default format (bytes "json");
}

pub record CanalSection : Type 0 where
  pub server_id : ℕ
  pub start_journal_name : Text
  pub start_position : ℕ
  pub auth_token : Option Text
  pub mysql : MysqlConfig
  pub store : ℕ
  pub server : ServerSection
  pub filter : FilterSection
  pub logging : LogSection

unfoldable pub canal_section :
    Option ℕ
    → Option Text
    → Option ℕ
    → Option Text
    → MysqlConfig
    → ℕ
    → ServerSection
    → Option FilterSection
    → LogSection
    → CanalSection
canal_section server_id journal position auth_token mysql store server filter logging = record {
  server_id = or_default server_id 1001;
  start_journal_name = or_default journal (bytes "mysql-bin.000001");
  start_position = or_default position 4;
  auth_token = deserialize_auth_token auth_token;
  mysql = mysql;
  store = store;
  server = server;
  filter = or_default filter default_filter;
  logging = logging;
}

abbrev max_config : ℕ
max_config = 10485760

-- Why a configuration is refused; a cause of the file system or of `serde_yaml` is its text.
pub data ConfigError : Type 0 where
  failed_to_read failed_to_parse : Text → ConfigError
  exceeds_maximum : ℕ → ConfigError
  admin_port_overflow : ConfigError
  invalid_admin_bind : Text → ConfigError

abbrev parsed : Result CanalSection Text → Result CanalSection ConfigError
parsed (ok config) = ok config
parsed (err e) = err (failed_to_parse e)

-- `content` is what reading the file gives, and `from_str` is `serde_yaml`'s.
unfoldable pub load_config :
    (Text → Result CanalSection Text) → Result Text Text → Result CanalSection ConfigError
load_config from_str (err e) = err (failed_to_read e)
load_config from_str (ok content) =
    if ltb max_config (length content)
    then err (exceeds_maximum (length content))
    else parsed (from_str content)

-- The address that is configured, or loopback with the port after the server's
unfoldable pub admin_bind_of : Option Text → ℕ → Result Text ConfigError
admin_bind_of (some explicit) port = ok explicit
admin_bind_of none port =
    if ltb 65535 (port + 1)
    then err admin_port_overflow
    else ok (bytes "127.0.0.1:" ++ decimal (port + 1))

-- `is_address` says whether the text parses as a `SocketAddr`.
unfoldable pub resolve_admin_bind : (Text → Bool) → Option Text → ℕ → Result Text ConfigError
resolve_admin_bind is_address configured port = do
  admin_bind ← admin_bind_of configured port
  if is_address admin_bind then ok admin_bind else err (invalid_admin_bind admin_bind)

-- What `run_server` of crates/canal-cli/src/main.rs makes of the configured token
authorized : Option Text → CanalServer → CanalServer
authorized none server = server
authorized (some token) server = with_auth token server

unfoldable pub configured_server : Text → MemoryEventStore → CanalSection → CanalServer
unfolding authorized
configured_server bind_addr store config =
    authorized config.auth_token
      (with_idle_timeout config.server.idle_timeout_secs (Serve.new bind_addr store))

-- The token of the server, if there is one, is not blank.
abbrev pub IsTokenReal : Option Text → Type 0
IsTokenReal none = Unit
IsTokenReal (some token) = is_blank token ≡ false

-- Whatever the configuration: a server that asks for a password asks for one that is not blank.
pub configured_server-IsTokenReal :
    (bind_addr : Text) (store : MemoryEventStore) (config : CanalSection)
    → IsTokenReal (configured_server bind_addr store config).auth_token
unfolding configured_server with_auth with_idle_timeout Serve.new
configured_server-IsTokenReal bind_addr store config = by_token config.auth_token
  where
    by_token :
        (o : Option Text)
        → IsTokenReal
            (authorized o (
              with_idle_timeout config.server.idle_timeout_secs
                (Serve.new bind_addr store))).auth_token
    by_token none = tt
    by_token (some token) =
        if-cases (λ (s : CanalServer). IsTokenReal s.auth_token) (is_blank token) (λ e. tt) (λ e. e)
