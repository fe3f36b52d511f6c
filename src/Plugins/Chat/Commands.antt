-- ===== src/Plugins/Chat/Commands.antt =====
-- The commands of src/plugins/chat_commands.cpp: `getCommands`, `execute` and what it calls, and `handle`.
use mbsquad.Prelude.{
  ℕ, ◌/◌, ◌%◌, Bool, true, false, ◌&&◌, ◌||◌, List, [], ◌∷◌, ◌++◌, Option, none, some, ltb, ◌==◌,
  if◌then◌else◌, map, keep, length, exists,
}
use mbsquad.Prelude.Bytes.{Bytes, codes, utf8, lower, equal, contains, strip_prefix}
use mbsquad.Prelude.Int.{ℤ, pos, pos_part, ltb_ℤ, ◌-ℤ◌}
use mbsquad.Core.Numbers.{to_string, decimal_nat}
use mbsquad.Core.Settings.{get_setting, get_setting_int, get_setting_bool}
use mbsquad.Plugins.Chat.{
  Tables, Caller, Slot, send_console, warn, get_balance, add_balance, remaining,
}

pub record ChatCmd : Type 0 where
  pub name : Bytes
  pub trigger : Bytes
  pub action : Bytes
  pub cost : ℤ
  pub reward : ℤ
  pub enabled : Bool

-- What the plugin takes from elsewhere.
pub record Outside : Type 0 where
  -- the difference of two times, as SQLite's `julianday` gives it in seconds
  pub elapsed : ℕ → ℕ → ℤ
  -- `std::uniform_int_distribution` between two bounds
  pub draw : ℤ → ℤ → ℤ
  -- the game server's answer to a console command
  pub answer : Bytes → Bytes
  -- `nlohmann::json`: the commands that the text holds
  pub parse : Bytes → List ChatCmd
  -- the quotient of two counts with two digits, as `snprintf` writes it
  pub ratio : ℕ → ℕ → Bytes

abbrev pub sign_in_reason : Bytes
sign_in_reason = utf8 "每日签到"

abbrev pub lottery_reason : Bytes
lottery_reason = utf8 "抽奖"

-- `reason LIKE '抽奖%'`
abbrev pub is_lottery_reason : Bytes → Bool
is_lottery_reason reason = elim (strip_prefix lottery_reason reason) [
  | none ↦ false
  | some _ ↦ true
]

abbrev pub is_sign_in_reason : Bytes → Bool
is_sign_in_reason reason = equal reason sign_in_reason

pub wait_text : ℕ → Bytes
wait_text remain =
    if ltb 0 (remain / 3600)
    then decimal_nat (remain / 3600) ++ utf8 "小时" ++ decimal_nat (remain % 3600 / 60) ++ utf8 "分"
    else if ltb 0 (remain % 3600 / 60)
    then decimal_nat (remain % 3600 / 60) ++ utf8 "分" ++ decimal_nat (remain % 60) ++ utf8 "秒"
    else decimal_nat (remain % 60) ++ utf8 "秒"

unfoldable pub sign_in_after : Caller → ℤ → Tables → Option ℤ → Tables
sign_in_after p reward t (some remain) =
    warn p (utf8 "今日已签到，下次签到还需等待 " ++ wait_text (pos_part remain)) t
sign_in_after p reward t none =
    warn p (utf8 "签到成功！积分 +" ++ to_string reward) (add_balance p reward sign_in_reason t)

unfoldable pub do_sign_in : Outside → Caller → ℤ → Tables → Tables
do_sign_in outside p reward t = sign_in_after p reward t (
    remaining outside.elapsed is_sign_in_reason
      (get_setting_int t.settings (codes "sign_in_cooldown") (pos 86400)) p t)

abbrev shortage : Bytes → ℤ → ℤ → Bytes
shortage what cost balance = what ++ to_string cost ++ utf8 "，当前 " ++ to_string balance

unfoldable pub give_prize : Caller → ℤ → Tables → Tables
give_prize p reward t =
    warn p (utf8 "抽奖获得 " ++ to_string reward ++ utf8 " 积分！")
      (add_balance p reward (utf8 "抽奖 +" ++ to_string reward) t)

-- The two bounds, the second raised to the first.
unfoldable pub prize : Outside → Tables → ℤ
prize outside t =
    let low = get_setting_int t.settings (codes "lottery_min") (pos 5) in
    let high = get_setting_int t.settings (codes "lottery_max") (pos 30) in
    outside.draw low (if ltb_ℤ high low then low else high)

unfoldable pub pay_lottery : Outside → Caller → ℤ → Tables → Tables
pay_lottery outside p cost t =
    if ltb_ℤ (pos 0) cost
    then if ltb_ℤ (get_balance p t) cost
      then warn p (shortage (utf8 "积分不足！抽奖需要 ") cost (get_balance p t)) t
      else give_prize p (prize outside t) (add_balance p (pos 0 -ℤ cost) (utf8 "抽奖费用") t)
    else give_prize p (prize outside t) t

unfoldable pub lottery_after : Outside → Caller → Tables → Option ℤ → Tables
lottery_after outside p t (some remain) =
    warn p
      (utf8 "抽奖冷却中，还需等待 "
        ++ decimal_nat (pos_part remain / 60)
        ++ utf8 "分"
        ++ decimal_nat (pos_part remain % 60)
        ++ utf8 "秒")
      t
lottery_after outside p t none =
    pay_lottery outside p (get_setting_int t.settings (codes "lottery_cost") (pos 0)) t

unfoldable pub do_lottery : Outside → Caller → Tables → Tables
do_lottery outside p t =
    if get_setting_bool t.settings (codes "lottery_enabled") false
    then lottery_after outside p t (
        remaining outside.elapsed is_lottery_reason
          (get_setting_int t.settings (codes "lottery_cooldown") (pos 3600)) p t)
    else t

pub ratio_text : Outside → ℕ → ℕ → Bytes
ratio_text outside k d =
    if ltb 0 d then outside.ratio k d else if ltb 0 k then codes "inf" else codes "0"

unfoldable pub do_query_kd : Outside → Caller → Tables → Tables
do_query_kd outside p t =
    let k =
      length (keep (λ row. row.server_id == p.server_id && equal row.killer p.steam_id) t.kills) in
    let d =
      length (keep (λ row. row.server_id == p.server_id && equal row.victim p.steam_id) t.kills) in
    warn p
      (utf8 "战绩: K="
        ++ decimal_nat k
        ++ codes " D="
        ++ decimal_nat d
        ++ codes " K/D="
        ++ ratio_text outside k d)
      t

unfoldable pub do_query_points : Caller → Tables → Tables
do_query_points p t = warn p (utf8 "当前积分: " ++ to_string (get_balance p t)) t

abbrev pub has_slot : Caller → List Slot → Bool
has_slot p slots = exists (λ s. s.server_id == p.server_id && equal s.steam_id p.steam_id) slots

abbrev pub add_slot : Caller → ℤ → Tables → Tables
add_slot p days t = record t {
  slots =
      record {
        server_id = p.server_id;
        steam_id = p.steam_id;
        player_name = p.player_name;
        created_at = p.now;
        days = if ltb_ℤ (pos 0) days then some days else none;
      }
      ∷ t.slots;
}

unfoldable pub do_redeem : Caller → ℤ → Tables → Tables
do_redeem p cost t =
    if ltb_ℤ (get_balance p t) cost
    then warn p (shortage (utf8 "积分不足！兑换需要 ") cost (get_balance p t)) t
    else if has_slot p t.slots
    then warn p (utf8 "你已有预留位，无需重复兑换") t
    else warn p (utf8 "兑换成功！预留位已添加，积分 -" ++ to_string cost) (
        add_slot p (get_setting_int t.settings (codes "redeem_days") (pos 0))
          (add_balance p (pos 0 -ℤ cost) (utf8 "兑换预留位") t))

pub switch_team_command : Caller → Bytes
switch_team_command p = codes "AdminForceTeamChange \"" ++ p.steam_id ++ codes "\""

-- The points are not given back where the game's server refuses.
pub switch_text : ℤ → Bytes → Bytes
switch_text cost result =
    if contains (codes "Not Found") result || contains (codes "Error") result
    then utf8 "积分已扣(-" ++ to_string cost ++ utf8 ")，跳边执行失败，请联系管理员"
    else utf8 "跳边成功！积分 -" ++ to_string cost

unfoldable pub do_switch_team : Outside → Caller → ℤ → Tables → Tables
do_switch_team outside p cost t =
    if ltb_ℤ (get_balance p t) cost
    then warn p (shortage (utf8 "积分不足！跳边需要 ") cost (get_balance p t)) t
    else warn p (switch_text cost (outside.answer (switch_team_command p)))
        (send_console (switch_team_command p) (add_balance p (pos 0 -ℤ cost) (utf8 "跳边") t))

abbrev pub positive_or : ℤ → ℤ → ℤ
positive_or z fallback = if ltb_ℤ (pos 0) z then z else fallback

unfoldable pub execute_command : Outside → ChatCmd → Caller → Tables → Tables
execute_command outside cmd p t =
    if equal cmd.action (codes "sign_in")
    then do_sign_in outside p (positive_or cmd.reward (pos 5)) t
    else if equal cmd.action (codes "lottery")
    then do_lottery outside p t
    else if equal cmd.action (codes "query_kd")
    then do_query_kd outside p t
    else if equal cmd.action (codes "query_points")
    then do_query_points p t
    else if equal cmd.action (codes "redeem")
    then do_redeem p (positive_or cmd.cost (pos 50)) t
    else if equal cmd.action (codes "switch_team")
    then do_switch_team outside p (positive_or cmd.cost (pos 20)) t
    else t

-- The commands of a panel that has none set.
default_commands : List ChatCmd
default_commands =
    record {
      name = utf8 "签到";
      trigger = codes "qd";
      action = codes "sign_in";
      cost = pos 0;
      reward = pos 5;
      enabled = true;
    }
    ∷ record {
      name = utf8 "抽奖";
      trigger = codes "cj";
      action = codes "lottery";
      cost = pos 0;
      reward = pos 0;
      enabled = true;
    }
    ∷ record {
      name = utf8 "查询战绩";
      trigger = codes "kd";
      action = codes "query_kd";
      cost = pos 0;
      reward = pos 0;
      enabled = true;
    }
    ∷ record {
      name = utf8 "查询积分";
      trigger = codes "jf";
      action = codes "query_points";
      cost = pos 0;
      reward = pos 0;
      enabled = true;
    }
    ∷ record {
      name = utf8 "兑换预留位";
      trigger = codes "duihuan";
      action = codes "redeem";
      cost = pos 50;
      reward = pos 0;
      enabled = true;
    }
    ∷ record {
      name = utf8 "跳边";
      trigger = codes "tb";
      action = codes "switch_team";
      cost = pos 20;
      reward = pos 0;
      enabled = true;
    }
    ∷ []

commands_of : Outside → Bytes → List ChatCmd
commands_of outside [] = default_commands
commands_of outside (c ∷ raw) = if c == b'[' then outside.parse (c ∷ raw) else default_commands

pub get_commands : Outside → Tables → List ChatCmd
get_commands outside t = commands_of outside (get_setting t.settings (codes "chat_commands") [])

pub is_blank : ℕ → Bool
is_blank c = c == b' ' || c == 9

pub is_end : ℕ → Bool
is_end c = is_blank c || c == 13 || c == 10

abbrev pub keep_end : ℕ → Bytes → Bytes
keep_end c [] = if is_end c then [] else c ∷ []
keep_end c (d ∷ s) = c ∷ d ∷ s

unfoldable pub trim_back : Bytes → Bytes
trim_back [] = []
trim_back (c ∷ s) = keep_end c (trim_back s)

unfoldable pub trim_front : Bytes → Bytes
trim_front [] = []
trim_front (c ∷ s) = let rest = trim_front s in if is_blank c then rest else c ∷ s

unfoldable pub normalize : Bytes → Bytes
normalize msg = trim_front (trim_back (map lower msg))

-- The loop of `handle`: the first command that is on and has the message as its trigger.
unfoldable pub run_commands : Outside → List ChatCmd → Bytes → Caller → Tables → Tables
run_commands outside [] msg p t = t
run_commands outside (cmd ∷ cmds) msg p t =
    let rest = run_commands outside cmds msg p t in
    if cmd.enabled && equal msg cmd.trigger then execute_command outside cmd p t else rest

-- `handle` of a chat message.
unfoldable pub handle_chat : Outside → Bytes → Caller → Tables → Tables
handle_chat outside msg p t =
    if equal msg [] || equal p.steam_id [] || p.server_id == 0
    then t
    else run_commands outside (get_commands outside t) (normalize msg) p t
