-- ===== src/Relay/Settings.antt =====
-- relay/main.cpp, the stored settings: `Config` with `toJson` and `fromJson`, `loadCfg` and `saveCfg`.
-- The values of JSON, their conversions and the text of an object belong to the library and are an
-- argument; an object is the list of its keys and values.
pub mod RoundTrip
use mbsquad.Prelude.{Bool, true, false, List, [], ◌∷◌, Option, none, some, ◌>>=◌}
use mbsquad.Prelude.Bytes.{Bytes, codes}
use mbsquad.Prelude.Maps.{bytes_key, lookup}
use mbsquad.Prelude.Int.{ℤ, pos}
use mbsquad.Relay.Files.{Disk, read_file, write_file}

-- The library: values of the three types that are stored, the conversions to them, none where one
-- throws, and the texts of objects, none for a text that is not one.
pub record Json (J : Type 0) : Type 0 where
  pub of_text : Bytes → J
  pub of_int : ℤ → J
  pub of_flag : Bool → J
  pub as_text : J → Option Bytes
  pub as_int : J → Option ℤ
  pub as_flag : J → Option Bool
  pub dump : List (Bytes × J) → Bytes
  pub parse : Bytes → Option (List (Bytes × J))

pub record Config : Type 0 where
  pub panel_url : Bytes
  pub api_key : Bytes
  pub register_code : Bytes
  pub server_name : Bytes
  pub server_host : Bytes
  pub rcon_port : ℤ
  pub rcon_password : Bytes
  pub log_dir : Bytes
  pub game_exe_path : Bytes
  pub launch_params : Bytes
  pub auto_restart : Bool
  pub web_port : ℤ
  pub unban_port : ℤ
  pub tcp_connect_timeout_ms : ℤ
  pub rcon_auth_timeout_ms : ℤ
  pub rcon_exec_timeout_ms : ℤ
  pub rcon_recv_timeout_ms : ℤ
  pub log_poll_interval_ms : ℤ
  pub chat_poll_interval_ms : ℤ
  pub keepalive_interval_sec : ℤ
  pub raw_flush_interval_ms : ℤ
  pub raw_batch_size : ℤ
  pub line_dedup_max_size : ℤ
  pub max_restart_attempts : ℤ
  pub restart_cooldown_sec : ℤ
  pub restart_base_delay_sec : ℤ
  pub http_request_buffer_size : ℤ
  pub http_server_backlog : ℤ
  pub rcon_reconnect_enabled : Bool
  pub rcon_reconnect_interval_sec : ℤ
  pub stored_token : Bytes
  pub stored_server_id : ℤ
  pub stored_server_name : Bytes
  pub stored_rcon_host : Bytes
  pub stored_rcon_port : ℤ
  pub stored_rcon_password : Bytes

-- What the fields are before anything is read.
abbrev pub default_config : Config
default_config = record {
  panel_url = codes "http://127.0.0.1:3000";
  api_key = [];
  register_code = [];
  server_name = [];
  server_host = [];
  rcon_port = pos 21114;
  rcon_password = [];
  log_dir = [];
  game_exe_path = [];
  launch_params = [];
  auto_restart = false;
  web_port = pos 18976;
  unban_port = pos 18977;
  tcp_connect_timeout_ms = pos 10000;
  rcon_auth_timeout_ms = pos 5000;
  rcon_exec_timeout_ms = pos 10000;
  rcon_recv_timeout_ms = pos 5000;
  log_poll_interval_ms = pos 300;
  chat_poll_interval_ms = pos 100;
  keepalive_interval_sec = pos 10;
  raw_flush_interval_ms = pos 200;
  raw_batch_size = pos 200;
  line_dedup_max_size = pos 1000;
  max_restart_attempts = pos 3;
  restart_cooldown_sec = pos 300;
  restart_base_delay_sec = pos 5;
  http_request_buffer_size = pos 16384;
  http_server_backlog = pos 5;
  rcon_reconnect_enabled = true;
  rcon_reconnect_interval_sec = pos 30;
  stored_token = [];
  stored_server_id = pos 0;
  stored_server_name = [];
  stored_rcon_host = [];
  stored_rcon_port = pos 0;
  stored_rcon_password = [];
}

module _ {J : Type 0} (L : Json J) where
  abbrev pub to_json : Config → List (Bytes × J)
  to_json c =
      (codes "panelUrl", L.of_text c.panel_url)
      ∷ (codes "apiKey", L.of_text c.api_key)
      ∷ (codes "registerCode", L.of_text c.register_code)
      ∷ (codes "serverName", L.of_text c.server_name)
      ∷ (codes "serverHost", L.of_text c.server_host)
      ∷ (codes "rconPort", L.of_int c.rcon_port)
      ∷ (codes "rconPassword", L.of_text c.rcon_password)
      ∷ (codes "logDir", L.of_text c.log_dir)
      ∷ (codes "gameExePath", L.of_text c.game_exe_path)
      ∷ (codes "launchParams", L.of_text c.launch_params)
      ∷ (codes "autoRestart", L.of_flag c.auto_restart)
      ∷ (codes "webPort", L.of_int c.web_port)
      ∷ (codes "unbanPort", L.of_int c.unban_port)
      ∷ (codes "tcpConnectTimeoutMs", L.of_int c.tcp_connect_timeout_ms)
      ∷ (codes "rconAuthTimeoutMs", L.of_int c.rcon_auth_timeout_ms)
      ∷ (codes "rconExecTimeoutMs", L.of_int c.rcon_exec_timeout_ms)
      ∷ (codes "rconRecvTimeoutMs", L.of_int c.rcon_recv_timeout_ms)
      ∷ (codes "logPollIntervalMs", L.of_int c.log_poll_interval_ms)
      ∷ (codes "chatPollIntervalMs", L.of_int c.chat_poll_interval_ms)
      ∷ (codes "keepaliveIntervalSec", L.of_int c.keepalive_interval_sec)
      ∷ (codes "rawFlushIntervalMs", L.of_int c.raw_flush_interval_ms)
      ∷ (codes "rawBatchSize", L.of_int c.raw_batch_size)
      ∷ (codes "lineDedupMaxSize", L.of_int c.line_dedup_max_size)
      ∷ (codes "maxRestartAttempts", L.of_int c.max_restart_attempts)
      ∷ (codes "restartCooldownSec", L.of_int c.restart_cooldown_sec)
      ∷ (codes "restartBaseDelaySec", L.of_int c.restart_base_delay_sec)
      ∷ (codes "httpRequestBufferSize", L.of_int c.http_request_buffer_size)
      ∷ (codes "httpServerBacklog", L.of_int c.http_server_backlog)
      ∷ (codes "rconReconnectEnabled", L.of_flag c.rcon_reconnect_enabled)
      ∷ (codes "rconReconnectIntervalSec", L.of_int c.rcon_reconnect_interval_sec)
      ∷ (codes "_token", L.of_text c.stored_token)
      ∷ (codes "_serverId", L.of_int c.stored_server_id)
      ∷ (codes "_serverName", L.of_text c.stored_server_name)
      ∷ (codes "_rconHost", L.of_text c.stored_rcon_host)
      ∷ (codes "_rconPort", L.of_int c.stored_rcon_port)
      ∷ (codes "_rconPassword", L.of_text c.stored_rcon_password)
      ∷ []

  -- A field: as it was where the key is not there.
  abbrev pub field_from : {A : Type 0} → (J → Option A) → A → Option J → Option A
  field_from as_field default none = some default
  field_from as_field default (some v) = as_field v

  abbrev pub text_at : List (Bytes × J) → Bytes → Bytes → Option Bytes
  text_at j key default = field_from L.as_text default (lookup key j)

  abbrev pub int_at : List (Bytes × J) → Bytes → ℤ → Option ℤ
  int_at j key default = field_from L.as_int default (lookup key j)

  abbrev pub flag_at : List (Bytes × J) → Bytes → Bool → Option Bool
  flag_at j key default = field_from L.as_flag default (lookup key j)

  -- None where a value has the wrong type.
  unfoldable pub from_json : List (Bytes × J) → Option Config
  from_json j = do
    panel_url ← text_at j (codes "panelUrl") default_config.panel_url
    api_key ← text_at j (codes "apiKey") default_config.api_key
    register_code ← text_at j (codes "registerCode") default_config.register_code
    server_name ← text_at j (codes "serverName") default_config.server_name
    server_host ← text_at j (codes "serverHost") default_config.server_host
    rcon_port ← int_at j (codes "rconPort") default_config.rcon_port
    rcon_password ← text_at j (codes "rconPassword") default_config.rcon_password
    log_dir ← text_at j (codes "logDir") default_config.log_dir
    game_exe_path ← text_at j (codes "gameExePath") default_config.game_exe_path
    launch_params ← text_at j (codes "launchParams") default_config.launch_params
    auto_restart ← flag_at j (codes "autoRestart") default_config.auto_restart
    web_port ← int_at j (codes "webPort") default_config.web_port
    unban_port ← int_at j (codes "unbanPort") default_config.unban_port
    tcp_connect_timeout_ms ←
        int_at j (codes "tcpConnectTimeoutMs") default_config.tcp_connect_timeout_ms
    rcon_auth_timeout_ms ← int_at j (codes "rconAuthTimeoutMs") default_config.rcon_auth_timeout_ms
    rcon_exec_timeout_ms ← int_at j (codes "rconExecTimeoutMs") default_config.rcon_exec_timeout_ms
    rcon_recv_timeout_ms ← int_at j (codes "rconRecvTimeoutMs") default_config.rcon_recv_timeout_ms
    log_poll_interval_ms ← int_at j (codes "logPollIntervalMs") default_config.log_poll_interval_ms
    chat_poll_interval_ms ←
        int_at j (codes "chatPollIntervalMs") default_config.chat_poll_interval_ms
    keepalive_interval_sec ←
        int_at j (codes "keepaliveIntervalSec") default_config.keepalive_interval_sec
    raw_flush_interval_ms ←
        int_at j (codes "rawFlushIntervalMs") default_config.raw_flush_interval_ms
    raw_batch_size ← int_at j (codes "rawBatchSize") default_config.raw_batch_size
    line_dedup_max_size ← int_at j (codes "lineDedupMaxSize") default_config.line_dedup_max_size
    max_restart_attempts ← int_at j (codes "maxRestartAttempts") default_config.max_restart_attempts
    restart_cooldown_sec ← int_at j (codes "restartCooldownSec") default_config.restart_cooldown_sec
    restart_base_delay_sec ←
        int_at j (codes "restartBaseDelaySec") default_config.restart_base_delay_sec
    http_request_buffer_size ←
        int_at j (codes "httpRequestBufferSize") default_config.http_request_buffer_size
    http_server_backlog ← int_at j (codes "httpServerBacklog") default_config.http_server_backlog
    rcon_reconnect_enabled ←
        flag_at j (codes "rconReconnectEnabled") default_config.rcon_reconnect_enabled
    rcon_reconnect_interval_sec ←
        int_at j (codes "rconReconnectIntervalSec") default_config.rcon_reconnect_interval_sec
    stored_token ← text_at j (codes "_token") default_config.stored_token
    stored_server_id ← int_at j (codes "_serverId") default_config.stored_server_id
    stored_server_name ← text_at j (codes "_serverName") default_config.stored_server_name
    stored_rcon_host ← text_at j (codes "_rconHost") default_config.stored_rcon_host
    stored_rcon_port ← int_at j (codes "_rconPort") default_config.stored_rcon_port
    stored_rcon_password ← text_at j (codes "_rconPassword") default_config.stored_rcon_password
    some (record {
      panel_url = panel_url;
      api_key = api_key;
      register_code = register_code;
      server_name = server_name;
      server_host = server_host;
      rcon_port = rcon_port;
      rcon_password = rcon_password;
      log_dir = log_dir;
      game_exe_path = game_exe_path;
      launch_params = launch_params;
      auto_restart = auto_restart;
      web_port = web_port;
      unban_port = unban_port;
      tcp_connect_timeout_ms = tcp_connect_timeout_ms;
      rcon_auth_timeout_ms = rcon_auth_timeout_ms;
      rcon_exec_timeout_ms = rcon_exec_timeout_ms;
      rcon_recv_timeout_ms = rcon_recv_timeout_ms;
      log_poll_interval_ms = log_poll_interval_ms;
      chat_poll_interval_ms = chat_poll_interval_ms;
      keepalive_interval_sec = keepalive_interval_sec;
      raw_flush_interval_ms = raw_flush_interval_ms;
      raw_batch_size = raw_batch_size;
      line_dedup_max_size = line_dedup_max_size;
      max_restart_attempts = max_restart_attempts;
      restart_cooldown_sec = restart_cooldown_sec;
      restart_base_delay_sec = restart_base_delay_sec;
      http_request_buffer_size = http_request_buffer_size;
      http_server_backlog = http_server_backlog;
      rcon_reconnect_enabled = rcon_reconnect_enabled;
      rcon_reconnect_interval_sec = rcon_reconnect_interval_sec;
      stored_token = stored_token;
      stored_server_id = stored_server_id;
      stored_server_name = stored_server_name;
      stored_rcon_host = stored_rcon_host;
      stored_rcon_port = stored_rcon_port;
      stored_rcon_password = stored_rcon_password;
    })

  abbrev pub config_or_default : Option Config → Config
  config_or_default none = default_config
  config_or_default (some c) = c

  abbrev pub parsed_config : Bytes → Config
  parsed_config [] = default_config
  parsed_config (c ∷ d) = config_or_default (L.parse (c ∷ d) >>= from_json)

  unfoldable pub load_cfg : Disk → Bytes → Config
  load_cfg d cfg_path = parsed_config (read_file d cfg_path)

  unfoldable pub save_cfg : Disk → Bytes → Config → Disk
  save_cfg d cfg_path c = write_file d cfg_path (L.dump (to_json c))
