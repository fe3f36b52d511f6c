-- ===== src/Plugins/Welcome.antt =====
-- src/plugins/welcome_plugin.cpp. The loop that puts the player's name into the message runs on fuel, and
-- gives none where that is used up.
pub mod Filled
use mbsquad.Prelude.{
  ℕ, zero, suc, Bool, true, false, ◌||◌, not, List, [], ◌∷◌, ◌++◌, Option, none, some,
  if◌then◌else◌,
}
use mbsquad.Prelude.Bytes.{Bytes, codes, utf8, equal}
use mbsquad.Prelude.Find.{find}
use mbsquad.Core.Settings.{SettingRows, get_setting, get_setting_bool}

abbrev pub player_mark : Bytes
player_mark = codes "{player}"

abbrev pub put_name : (Bytes → Option Bytes) → Bytes → Bytes → Option (Bytes × Bytes) → Option Bytes
put_name again name msg none = some msg
put_name again name msg (some (before, after)) = again (before ++ (name ++ after))

-- `while ((pos = msg.find("{player}")) != npos) msg.replace(pos, 8, name)`
unfoldable pub fill_player : ℕ → Bytes → Bytes → Option Bytes
fill_player zero name msg = none
fill_player (suc fuel) name msg = put_name (fill_player fuel name) name msg (find player_mark msg)

abbrev pub shown_player : Bytes → Bytes
shown_player [] = utf8 "玩家"
shown_player (c ∷ name) = c ∷ name

abbrev welcome_text : Bytes → Option Bytes → Option (List Bytes)
welcome_text steam_id none = none
welcome_text steam_id (some msg) =
    some ((codes "AdminWarn \"" ++ steam_id ++ codes "\" " ++ msg) ∷ [])

-- The commands that are sent to the server; none where the loop does not end within the fuel.
pub welcome : ℕ → SettingRows → Bytes → Bytes → Bytes → Option (List Bytes)
welcome fuel rows type steam_id player_name =
    let msg = get_setting rows (codes "welcome_message") (utf8 "欢迎 {player} 加入服务器！") in
    let sent = welcome_text steam_id (fill_player fuel (shown_player player_name) msg) in
    if not (equal type (codes "join"))
      || not (get_setting_bool rows (codes "welcome_enabled") false)
      || equal steam_id []
    then some []
    else sent
