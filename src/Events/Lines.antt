-- ===== src/Events/Lines.antt =====
-- The other events of the route `/api/events/raw` in src/handlers/event_handler.cpp, and the route itself:
-- the lines of a log are parsed, and each event is handled in turn.
use mbsquad.Prelude.{
  ℕ, ◌+◌, Bool, true, false, not, ◌&&◌, List, [], ◌∷◌, ◌++◌, Option, none, some, ltb, if◌then◌else◌,
  length, exists,
}
use mbsquad.Prelude.Bytes.{Bytes, codes, utf8, equal, contains}
use mbsquad.Prelude.Int.{ℤ, pos, eqb_ℤ}
use mbsquad.Prelude.Maps.{bytes_key}
use mbsquad.Core.Numbers.{safe_stoi}
use mbsquad.Core.Escape.{rcon_safe}
use mbsquad.Logs.Patterns.{Std}
use mbsquad.Logs.Wounds.{Windows, Wounds}
use mbsquad.Logs.Events.{ParsedLine}
use mbsquad.Logs.Lines.{process_line}
use mbsquad.Events.{
  Module, ChatRow, Effect, insert_revive, revive_scored, console, to_browsers, dispatch, int_key,
  find_steam_id_by_name, resolve_player_name, Keys, validate_relay_server_access,
}
use mbsquad.Events.Kills.{
  field, when, is_empty, warn_text, points_text, Counts, emit, on_kill, on_suicide,
}

pub attacker_text : Module → ℤ → ParsedLine → Bytes
attacker_text g server_id ev =
    let name = field (codes "attackerName") ev in
    let attacker = field (codes "attackerSteamId") ev in
    if contains (codes "PlayerController") name && not (is_empty attacker)
    then resolve_player_name g server_id attacker name
    else name

unfoldable pub wound_effects : Module → ℤ → ParsedLine → List Effect
wound_effects g server_id ev =
    let name = field (codes "victimName") ev in
    let attacker = field (codes "attackerSteamId") ev in
    let weapon = field (codes "weapon") ev in
    let victim = find_steam_id_by_name g server_id name in
    when (not (is_empty attacker)) (
      console server_id
        (warn_text attacker (utf8 "你使用 " ++ rcon_safe weapon ++ utf8 " 击倒了 " ++ rcon_safe name)))
    ++ when (not (is_empty victim)) (
        console server_id (
          warn_text victim (
            utf8 "你被 "
            ++ rcon_safe (attacker_text g server_id ev)
            ++ utf8 " 使用 "
            ++ rcon_safe weapon
            ++ utf8 " 击倒")))
    ++ (to_browsers server_id (codes "wound") (
          (codes "victimName", name)
          ∷ (codes "victimSteamId", victim)
          ∷ (codes "attackerSteamId", attacker)
          ∷ (codes "weapon", weapon)
          ∷ [])
        ∷ [])

unfoldable pub on_wound : ℤ → ParsedLine → Module × Counts → Module × Counts
on_wound server_id ev (g, c) =
    (emit (wound_effects g server_id ev) g, record c { wound = c.wound + 1 })

pub revive_fields : ParsedLine → List (Bytes × Bytes)
revive_fields ev =
    (codes "reviverName", field (codes "reviverName") ev)
    ∷ (codes "reviverSteamId", field (codes "reviverSteamId") ev)
    ∷ (codes "revivedName", field (codes "revivedName") ev)
    ∷ (codes "revivedSteamId", field (codes "revivedSteamId") ev)
    ∷ []

-- The text is in the source in a damaged encoding.
damaged_text : Bytes
damaged_text =
    195 ∷ 164 ∷ 194 ∷ 189 ∷ 194 ∷ 160 ∷ 195 ∷ 166 ∷ 194 ∷ 149 ∷ 194 ∷ 145 ∷ 195 ∷ 164 ∷ 194 ∷ 186
    ∷ 194 ∷ 134 ∷ 32 ∷ []

pub revived_warning : ParsedLine → Bytes
revived_warning ev =
    warn_text (field (codes "revivedSteamId") ev)
      (utf8 "你被 " ++ rcon_safe (field (codes "reviverName") ev) ++ utf8 " 救活了")

pub reviver_warning : Module → ParsedLine → Bytes
reviver_warning g ev = warn_text (field (codes "reviverSteamId") ev) (
    damaged_text
    ++ rcon_safe (field (codes "revivedName") ev)
    ++ points_text g (codes "points_revive") (pos 1))

unfoldable pub revive_effects : Module → ℤ → ParsedLine → List Effect
revive_effects g server_id ev =
    let reviver = field (codes "reviverSteamId") ev in
    let reviver_name = field (codes "reviverName") ev in
    let revived = field (codes "revivedSteamId") ev in
    let revived_name = field (codes "revivedName") ev in
    (insert_revive server_id reviver reviver_name revived revived_name
      ∷ revive_scored server_id reviver reviver_name
      ∷ [])
    ++ when (not (is_empty revived) && not (is_empty reviver_name))
        (console server_id (revived_warning ev))
    ++ when (not (is_empty reviver) && not (is_empty revived_name))
        (console server_id (reviver_warning g ev))
    ++ (to_browsers server_id (codes "revive") (revive_fields ev)
        ∷ dispatch server_id (codes "revive") (revive_fields ev)
        ∷ [])

unfoldable pub on_revive : ℤ → ParsedLine → Module × Counts → Module × Counts
on_revive server_id ev (g, c) =
    (emit (revive_effects g server_id ev) g, record c { revive = c.revive + 1 })

-- The clock of SQLite in seconds, and the local time that `nowISO` gives.
pub record Clock : Type 0 where
  pub utc : ℕ
  pub local : ℕ

-- `timestamp > datetime('now', '-5 seconds')`
abbrev pub is_repeat : Clock → ℤ → Bytes → Bytes → ChatRow → Bool
is_repeat clock server_id steam_id message row =
    eqb_ℤ row.server_id server_id
    && equal row.steam_id steam_id
    && equal row.message message
    && ltb clock.utc (row.timestamp + 5)

-- The row is stored with the local time, unless the message is a repeat.
unfoldable pub store_chat : Clock → ChatRow → Module → Module
store_chat clock row g =
    if exists (is_repeat clock row.server_id row.steam_id row.message) g.chat_logs
    then g
    else record g { chat_logs = row ∷ g.chat_logs }

pub chat_row : Clock → ℤ → ParsedLine → ChatRow
chat_row clock server_id ev = record {
  server_id = server_id;
  player_name = field (codes "playerName") ev;
  steam_id = field (codes "steamId") ev;
  message = field (codes "message") ev;
  type = codes "all";
  timestamp = clock.local;
}

pub chat_fields : ParsedLine → List (Bytes × Bytes)
chat_fields ev =
    (codes "playerName", field (codes "playerName") ev)
    ∷ (codes "steamId", field (codes "steamId") ev)
    ∷ (codes "message", field (codes "message") ev)
    ∷ []

unfoldable pub chat_effects : ℤ → ParsedLine → List Effect
chat_effects server_id ev =
    to_browsers server_id (codes "chat") (chat_fields ev)
    ∷ dispatch server_id (codes "chat") (chat_fields ev)
    ∷ []

unfoldable pub on_chat : Clock → ℤ → ParsedLine → Module × Counts → Module × Counts
on_chat clock server_id ev (g, c) = (
  emit (chat_effects server_id ev) (store_chat clock (chat_row clock server_id ev) g),
  record c { chat = c.chat + 1 },
)

-- The times and settings of a request: the parser reads the steady clock once for each line, and here
-- all lines of a request have the time at which the request reads it.
pub record Times : Type 0 where
  pub clock : Clock
  pub steady : ℕ
  pub suicide_window : ℕ
  pub windows : Windows

-- Other types of line are passed over.
unfoldable pub on_event : Times → ℤ → ParsedLine → Module × Counts → Module × Counts
on_event times server_id ev s =
    if equal ev.type (codes "kill")
    then on_kill server_id ev s
    else if equal ev.type (codes "suicide")
    then on_suicide times.suicide_window times.steady server_id ev s
    else if equal ev.type (codes "wound")
    then on_wound server_id ev s
    else if equal ev.type (codes "revive")
    then on_revive server_id ev s
    else if equal ev.type (codes "chat")
    then on_chat times.clock server_id ev s
    else s

unfoldable pub on_events : Times → ℤ → List ParsedLine → Module × Counts → Module × Counts
on_events times server_id [] s = s
on_events times server_id (ev ∷ evs) s =
    on_events times server_id evs (on_event times server_id ev s)

pub data Response : Type 0 where
  no_server unauthorized failed : Response
  processed : Counts → Response

abbrev pub no_counts : Counts
no_counts = record { kill = 0; wound = 0; revive = 0; chat = 0 }

module _ (std : Std) where
  -- The wounds of the parser, the module and the counts; none of a line means that `stod` threw.
  abbrev pub Run : Type 0
  Run = Wounds std × Module × Counts

  abbrev pub parsed :
      Times → ℤ → Run → (Run → Run × Bool) → Option (List ParsedLine × Wounds std) → Run × Bool
  parsed times server_id run next none = (run, false)
  parsed times server_id run next (some (evs, wounds)) =
      let s = on_events times server_id evs (run.1, run.2) in next (wounds, s.0, s.1)

  -- Lines of less than ten bytes are passed over. The Boolean tells whether the end was reached.
  unfoldable pub run_lines : Times → ℤ → List Bytes → Run → Run × Bool
  run_lines times server_id [] run = (run, true)
  run_lines times server_id (line ∷ lines) run =
      let next = run_lines times server_id lines in
      if ltb (length line) 10
      then next run
      else parsed times server_id run next (process_line std times.windows times.steady line run.0)

  abbrev pub response_of : Run × Bool → Response
  response_of (run, false) = failed
  response_of (run, true) = processed run.2

  abbrev pub reply : Run × Bool → Response × Wounds std × Module
  reply r = (response_of r, r.0.0, r.0.1)

  -- The route, on the lines of the request.
  unfoldable pub handle_raw :
      Keys
      → Times
      → Bytes
      → Bytes
      → Option Bytes
      → List Bytes
      → Wounds std
      → Module
      → Response × Wounds std × Module
  handle_raw keys times server_text header body lines wounds g =
      if is_empty server_text
      then (no_server, wounds, g)
      else if validate_relay_server_access keys header body (safe_stoi server_text (pos 0))
      then reply (run_lines times (safe_stoi server_text (pos 0)) lines (wounds, g, no_counts))
      else (unauthorized, wounds, g)
