-- ===== src/Config.antt =====
-- include/poker/config/server_config.hpp and src/poker/config/server_config.cpp. The process's environment
-- is a parameter, from the variable to its text; of a message only what it is about is kept.
mod Examples
pub mod Numbers
pub mod Valid
use poker.Config.Numbers.{integer_of}
use poker.Prelude.{
  List, Option, Text, [], if◌then◌else◌, is_empty_text, none, some, text_eq, ℕ, ◌++◌, ◌∷◌,
}

pub data ServerRole : Type 0 where
  standalone : ServerRole
  lobby : ServerRole
  game : ServerRole

pub record MysqlConfig : Type 0 where
  pub host : Text
  pub port : ℕ
  pub user : Text
  pub password : Text
  pub database : Text
  pub pool_size : ℕ
  pub connect_timeout_seconds : ℕ

pub record RedisConfig : Type 0 where
  pub host : Text
  pub port : ℕ
  pub password : Text
  pub database : ℕ
  pub connect_timeout_ms : ℕ

pub record ServerConfig : Type 0 where
  pub role : ServerRole
  pub node_id : Text
  pub public_endpoint : Text
  pub listen_host : Text
  pub listen_port : ℕ
  pub metrics_host : Text
  pub metrics_port : ℕ
  pub io_threads : ℕ
  pub logic_shards : ℕ
  pub action_timeout_ms : ℕ
  pub connection_idle_timeout_ms : ℕ
  pub node_failure_grace_ms : ℕ
  pub max_frame_bytes : ℕ
  pub max_pending_send_bytes : ℕ
  pub requests_per_second : ℕ
  pub request_burst : ℕ
  pub session_ttl_seconds : ℕ
  pub mysql : MysqlConfig
  pub redis : RedisConfig

-- The variables that are read, each under its name in small letters.
pub data Variable : Type 0 where
  poker_role : Variable
  poker_node_id : Variable
  poker_public_endpoint : Variable
  poker_listen_host : Variable
  poker_listen_port : Variable
  poker_metrics_host : Variable
  poker_metrics_port : Variable
  poker_io_threads : Variable
  poker_logic_shards : Variable
  poker_action_timeout_ms : Variable
  poker_connection_idle_timeout_ms : Variable
  poker_node_failure_grace_ms : Variable
  poker_max_frame_bytes : Variable
  poker_max_pending_send_bytes : Variable
  poker_requests_per_second : Variable
  poker_request_burst : Variable
  poker_session_ttl_seconds : Variable
  poker_mysql_host : Variable
  poker_mysql_port : Variable
  poker_mysql_user : Variable
  poker_mysql_password : Variable
  poker_mysql_database : Variable
  poker_mysql_pool_size : Variable
  poker_redis_host : Variable
  poker_redis_port : Variable
  poker_redis_password : Variable
  poker_redis_database : Variable

pub data ConfigError : Type 0 where
  not_in : Variable → ℕ → ℕ → ConfigError
  unknown_role : ConfigError
  must_be_given : Variable → ConfigError

pub record ConfigResult : Type 0 where
  pub value : Option ServerConfig
  pub errors : List ConfigError

abbrev pub Environment : Type 0
Environment = Variable → Option Text

unfoldable pub text : Environment → Variable → Text → Text
text environment name fallback = elim (environment name) [ none ↦ fallback | some value ↦ value ]

-- The number and the errors so far.
unfoldable pub integer :
    Environment → Variable → ℕ → ℕ → ℕ → List ConfigError → ℕ × List ConfigError
integer environment name fallback minimum maximum errors = elim (environment name) [
  | none ↦ (fallback, errors)
  | some value ↦ elim (integer_of value minimum maximum) [
    | none ↦ (fallback, errors ++ (not_in name minimum maximum ∷ []))
    | some parsed ↦ (parsed, errors)
  ]
]

abbrev lobby_text : Text
lobby_text = b'l' ∷ b'o' ∷ b'b' ∷ b'b' ∷ b'y' ∷ []

abbrev game_text : Text
game_text = b'g' ∷ b'a' ∷ b'm' ∷ b'e' ∷ []

abbrev standalone_text : Text
standalone_text = b's' ∷ b't' ∷ b'a' ∷ b'n' ∷ b'd' ∷ b'a' ∷ b'l' ∷ b'o' ∷ b'n' ∷ b'e' ∷ []

unfoldable pub role : Environment → List ConfigError → ServerRole × List ConfigError
role environment errors =
    let value = text environment poker_role standalone_text in
    if text_eq value standalone_text
    then (standalone, errors)
    else if text_eq value lobby_text
    then (lobby, errors)
    else if text_eq value game_text
    then (game, errors)
    else (standalone, errors ++ (unknown_role ∷ []))

abbrev any_host : Text
any_host = b'0' ∷ b'.' ∷ b'0' ∷ b'.' ∷ b'0' ∷ b'.' ∷ b'0' ∷ []

abbrev local_host : Text
local_host = b'1' ∷ b'2' ∷ b'7' ∷ b'.' ∷ b'0' ∷ b'.' ∷ b'0' ∷ b'.' ∷ b'1' ∷ []

abbrev poker_text : Text
poker_text = b'p' ∷ b'o' ∷ b'k' ∷ b'e' ∷ b'r' ∷ []

-- The fields of `loadFromEnvironment`, in the order in which they are read, and the errors on them.
unfoldable pub read_fields : Environment → ServerConfig × List ConfigError
read_fields environment =
    let own_role = role environment [] in
    let listen_port = integer environment poker_listen_port 7000 1 65535 own_role.1 in
    let metrics_port = integer environment poker_metrics_port 9100 1 65535 listen_port.1 in
    let io_threads = integer environment poker_io_threads 4 1 128 metrics_port.1 in
    let logic_shards = integer environment poker_logic_shards 4 1 128 io_threads.1 in
    let action = integer environment poker_action_timeout_ms 20000 1000 300000 logic_shards.1 in
    let idle = integer environment poker_connection_idle_timeout_ms 45000 10000 600000 action.1 in
    let grace = integer environment poker_node_failure_grace_ms 15000 6000 300000 idle.1 in
    let frame = integer environment poker_max_frame_bytes 1048576 1024 16777216 grace.1 in
    let send = integer environment poker_max_pending_send_bytes 4194304 65536 67108864 frame.1 in
    let rate = integer environment poker_requests_per_second 100 1 1000000 send.1 in
    let burst = integer environment poker_request_burst 200 1 1000000 rate.1 in
    let session = integer environment poker_session_ttl_seconds 86400 300 2592000 burst.1 in
    let mysql_port = integer environment poker_mysql_port 3306 1 65535 session.1 in
    let pool_size = integer environment poker_mysql_pool_size 8 1 128 mysql_port.1 in
    let redis_port = integer environment poker_redis_port 6379 1 65535 pool_size.1 in
    let database = integer environment poker_redis_database 0 0 15 redis_port.1 in
    (
      record {
        role = own_role.0;
        node_id = text environment poker_node_id (game_text ++ (b'-' ∷ b'1' ∷ []));
        public_endpoint =
            text environment poker_public_endpoint
              (local_host ++ (b':' ∷ b'7' ∷ b'0' ∷ b'0' ∷ b'0' ∷ []));
        listen_host = text environment poker_listen_host any_host;
        listen_port = listen_port.0;
        metrics_host = text environment poker_metrics_host any_host;
        metrics_port = metrics_port.0;
        io_threads = io_threads.0;
        logic_shards = logic_shards.0;
        action_timeout_ms = action.0;
        connection_idle_timeout_ms = idle.0;
        node_failure_grace_ms = grace.0;
        max_frame_bytes = frame.0;
        max_pending_send_bytes = send.0;
        requests_per_second = rate.0;
        request_burst = burst.0;
        session_ttl_seconds = session.0;
        mysql = record {
          host = text environment poker_mysql_host local_host;
          port = mysql_port.0;
          user = text environment poker_mysql_user poker_text;
          password = text environment poker_mysql_password [];
          database = text environment poker_mysql_database poker_text;
          pool_size = pool_size.0;
          connect_timeout_seconds = 5;
        };
        redis = record {
          host = text environment poker_redis_host local_host;
          port = redis_port.0;
          password = text environment poker_redis_password [];
          database = database.0;
          connect_timeout_ms = 2000;
        };
      },
      database.1,
    )

abbrev pub must_give : Variable → Text → List ConfigError → List ConfigError
must_give name value errors =
    if is_empty_text value then errors ++ (must_be_given name ∷ []) else errors

-- The tests at the end of `loadFromEnvironment`.
unfoldable pub required : ServerConfig → List ConfigError → List ConfigError
required config errors = must_give poker_mysql_password config.mysql.password (
    must_give poker_metrics_host config.metrics_host (
      must_give poker_public_endpoint config.public_endpoint
        (must_give poker_node_id config.node_id errors)))

abbrev pub result_of : ServerConfig → List ConfigError → ConfigResult
result_of config [] = record { value = some config; errors = [] }
result_of config (e ∷ errors) = record { value = none; errors = e ∷ errors }

unfoldable pub load_from_environment : Environment → ConfigResult
load_from_environment environment =
    let fields = read_fields environment in result_of fields.0 (required fields.0 fields.1)

-- `toString(ServerRole)`.
unfoldable pub role_name : ServerRole → Text
role_name standalone = standalone_text
role_name lobby = lobby_text
role_name game = game_text
