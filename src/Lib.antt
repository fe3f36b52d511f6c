-- ===== src/Lib.antt =====
-- Verification of the Squad server panel: a web panel in C++ that administers game servers over RCON,
-- reads their logs, keeps players, points and bans in SQLite, and shows live updates to browsers.
--
-- The parts and their files. A browser's request passes the accounts and permissions of
-- src/core/auth.cpp; the handlers send commands to the game server through src/net/rcon.cpp, with the
-- texts escaped and the numbers read by src/core/shared_utils.h and src/core/core.cpp; the plugins
-- of src/plugins do so for events of the game; what happens on the server goes to the browsers through
-- src/net/ws_handler.cpp. The logs of a game server are followed by src/core/local_log_tailer.cpp and
-- read by src/core/log_parser.cpp, or come from the relay of relay/main.cpp, which runs beside the game
-- server. Players and events of other panels are fetched by src/core/remote_api_poller.cpp.
--
-- - Prelude: tests, lists, integers, byte strings and maps that all parts share. A byte is a number, a
--   `std::string` a list of bytes, a map an association list with one entry for each key.
-- - Core.Escape: `rconSafe` (rcon_safe), the command of `adminWarn` (warn_command), `htmlEscape` and
--   `urlDecode`. What a reader of the escaped text does is written independently in the children.
-- - Core.Numbers: `std::stoi`, which gives `none` where it throws, `std::to_string`, `safeStoi`, and
--   in Core.Numbers.Paging `parsePageParams`; an overflow of `int` is `none`.
-- - Core.Url: `parseRelayUrl`.
-- - Core.Config: the settings file (`loadFromFile`), `get`, `getInt`, `getBool` and `set`.
-- - Core.Settings: `getSetting`, `getSettingInt` and `getSettingBool` on the rows of the table.
-- - Auth.Hex, Auth.Base64, Auth.Password: `hexEncode`, `base64Encode`, `base64Decode`, `hashPassword`
--   and `verifyPassword`. OpenSSL is the record Crypto: any `scrypt` that gives 64 bytes or fails, and
--   a comparison that tells equal texts of one length from others.
-- - Auth.RateLimit: `checkRateLimit`; the settings are the record Limits, the time is an argument.
-- - Auth.Sessions: `getSession` on the rows of `sessions` and `users`.
-- - Auth.Accounts: the routes of src/handlers/auth_handler.cpp that register, log in and log out.
-- - Auth.Permissions: `getUserPermissions`, `has`, `insertDefaultPermissions` on the rows of
--   `user_permissions`.
-- - Rcon.Packet: `sendPacket` (encode) and `recvPacket` (recv_packet) on a stream of bytes.
-- - Rcon.Client: `connect`, `connectInternal`, `execute`, `ping` and `disconnect` as functions on the
--   state of a client. The record Network holds what the system calls answer. The loops of `execute`
--   and `ping` have the 64 and 4 rounds of the source as their fuel. Ids wrap at 2 ^ 32.
-- - Rcon.Pool: `send`, `test`, `remove`, `clear` and `healthCheck` of `RconPool`, on a table of clients.
-- - Points, Points.Scores: `PointsService`, `adjustPoints` and `getPointsBalance`; an overflow of `int`
--   is none.
-- - Plugins.Balance: `TeamBalancePlugin`, as the commands that it sends for a list of players.
-- - Plugins.Cdk: `CDKRedeemPlugin`, on the tables cdk_codes, cdk_logs, points, point_logs and
--   reserved_slots as lists of rows. Dates are texts, as SQLite keeps them; time stamps that no code
--   reads back are left out.
-- - Events, Events.Kills, Events.Lines, Events.Posts: the routes of src/handlers/event_handler.cpp. The
--   route `/api/events/raw` is handle_raw: it runs the parser on each line and handles each event. The
--   record Module is the state of the file; what goes to other parts is its list of effects, in order. The
--   steady clock, the universal and the local time are arguments.
-- - Plugins.Chat: the chat commands. `handle` is handle_chat and `execute` execute_command; the tables are
--   the record Tables, and what comes from elsewhere is the record Outside.
-- - Plugins.Welcome: `WelcomePlugin`; the loop on the message has a fuel, which is enough under the
--   conditions of the theorem and never enough under those of another.
-- - Plugins.Forgive: `TKForgivePlugin` (handle_kill, handle_apology), `SwitchLockPlugin` (lock_switches) and
--   two routes of src/handlers/tk_handler.cpp.
-- - Logs.Names, Logs.Wounds, Logs.Events, Logs.Kills, Logs.Lines, Logs.Players: `LogParser`. The record
--   Std holds the regular expressions' matches and the floating numbers; the clock is an argument. The
--   loop that replaces ids has the length of the line as its fuel, as each match takes bytes of it.
-- - Logs.Tail: `LocalLogTailer` and its manager. A round takes what the file system answers; the
--   error bits of the stream are those of the C++ library.
-- - Ws.Diff: `calculateDiff`, and in Ws.Diff.Apply a client that applies a difference.
-- - Ws.Hub: the clients, subscriptions and broadcasts. The mutex is a field of the state, and a call
--   that takes a mutex that its own thread holds gives `none`: it never returns.
-- - Relay: relay/main.cpp, the program beside the game server. Relay.Files and Relay.Entries: `trim`,
--   `splitLines`, the search for the configuration files, `unban`, `syncAdmin` and the reserved slots, on a
--   list of files (Disk). Relay.Requests: `parseReq` and a connection of `unbanSvr` (unban_connection).
--   Relay.Sender: `LineDedup` and `RawSender`; their steps are in the order of the lock. Relay.Process:
--   `GameSvr`, with its threads as whether they can be joined. Relay.Link: `Rcon` (connect, exec,
--   poll_chat) on the bytes that arrive in time. Relay.Settings: `Config` with `toJson` and `fromJson`.
--   Relay.Life: the turns of `main`, of the startup thread and of signals on `g_running`.
-- - Remote: src/core/remote_api_poller.cpp. Remote.Fields: `resolveField` (resolve_field, on the length of
--   the path as fuel, as each round takes a byte of it), `resolveString`, `resolveInt`. Remote.Leaderboard:
--   the readers of `SelfPanelAdapter` and the loop of `PluginSquadAdapter::fetchLeaderboard`, with the limit
--   as its fuel, as each page that goes on has an entry. Remote.Poller: `RemoteApiPoller` on its tables
--   (poll_loop, process_players, process_events) and the servers of the manager.
-- - Tests: runs on concrete inputs.
--
-- Not modelled: the vendored libraries, SQLite, sockets and threads themselves, the logger, the web
-- pages, and the other handlers and plugins; of the remote panels the fetchers of the generic adapter,
-- which the settings steer; of the relay the log's tail, the requests to the panel and the search for
-- the game's folders.
pub mod Prelude
pub mod Core
pub mod Auth
pub mod Rcon
pub mod Ws
pub mod Events
pub mod Logs
pub mod Points
pub mod Relay
pub mod Remote
pub mod Plugins
pub mod Tests
