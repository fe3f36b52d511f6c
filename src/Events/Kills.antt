-- ===== src/Events/Kills.antt =====
-- The events of the route `/api/events/raw` in src/handlers/event_handler.cpp: each is recorded, scored,
-- told to the players and sent on. This part has the kills and suicides.
use mbsquad.Prelude.{
  ℕ, ◌+◌, Bool, not, ◌&&◌, List, [], ◌∷◌, ◌++◌, Option, none, some, ltb, if◌then◌else◌,
}
use mbsquad.Prelude.Bytes.{Bytes, codes, utf8, equal, contains}
use mbsquad.Prelude.Int.{ℤ, pos, negsuc}
use mbsquad.Prelude.Maps.{bytes_key, lookup, insert}
use mbsquad.Core.Numbers.{to_string}
use mbsquad.Core.Escape.{rcon_safe}
use mbsquad.Core.Settings.{get_setting_int}
use mbsquad.Logs.Events.{ParsedLine}
use mbsquad.Events.{
  Module, Effect, insert_kill, kill_scored, suicide_scored, console, to_browsers, dispatch, int_key,
  is_team_kill, find_steam_id_by_name, resolve_player_name,
}

abbrev text_or : Bytes → Option Bytes → Bytes
text_or fallback none = fallback
text_or fallback (some v) = v

-- `ev.fields[name]`
unfoldable pub field : Bytes → ParsedLine → Bytes
field name ev = text_or [] (lookup name ev.fields)

abbrev pub when : Bool → Effect → List Effect
when b e = if b then e ∷ [] else []

abbrev pub is_empty : Bytes → Bool
is_empty s = equal s []

pub warn_text : Bytes → Bytes → Bytes
warn_text steam_id text = codes "AdminWarn \"" ++ rcon_safe steam_id ++ codes "\" " ++ text

or_text : Bytes → Bytes → Bytes
or_text fallback s = if is_empty s then fallback else s

pub points_text : Module → Bytes → ℤ → Bytes
points_text g key fallback = utf8 "，积分 " ++ to_string (get_setting_int g.settings key fallback)

-- The fields of a kill, with the names found out.
pub record Kill : Type 0 where
  pub killer_name : Bytes
  pub killer : Bytes
  pub victim_name : Bytes
  pub victim : Bytes
  pub weapon : Bytes
  pub is_self : Bool
  pub tk : Bool

killer_text : Module → ℤ → ParsedLine → Bytes
killer_text g server_id ev =
    let killer_name = field (codes "killerName") ev in
    let killer = field (codes "killerSteamId") ev in
    if contains (codes "PlayerController") killer_name && not (is_empty killer)
    then resolve_player_name g server_id killer killer_name
    else killer_name

victim_of : Module → ℤ → Bytes → Bytes
victim_of g server_id name = if is_empty name then [] else find_steam_id_by_name g server_id name

abbrev pub self_killed : Bytes → Bytes → Bool
self_killed killer victim = not (is_empty killer) && equal killer victim

abbrev pub team_killed : Module → ℤ → Bytes → Bytes → Bool
team_killed g server_id killer victim =
    not (self_killed killer victim)
    && not (is_empty killer)
    && not (is_empty victim)
    && is_team_kill g server_id killer victim

pub kill_of : Module → ℤ → ParsedLine → Kill
kill_of g server_id ev =
    let killer = field (codes "killerSteamId") ev in
    let victim = victim_of g server_id (field (codes "victimName") ev) in
    record {
      killer_name = killer_text g server_id ev;
      killer = killer;
      victim_name = field (codes "victimName") ev;
      victim = victim;
      weapon = field (codes "weapon") ev;
      is_self = self_killed killer victim;
      tk = team_killed g server_id killer victim;
    }

pub kill_type : Kill → Bytes
kill_type k = if k.tk then codes "teamkill" else if k.is_self then codes "suicide" else codes "kill"

pub kill_fields : Kill → List (Bytes × Bytes)
kill_fields k =
    (codes "type", kill_type k)
    ∷ (codes "killerName", k.killer_name)
    ∷ (codes "killerSteamId", k.killer)
    ∷ (codes "victimName", k.victim_name)
    ∷ (codes "victimSteamId", k.victim)
    ∷ (codes "weapon", k.weapon)
    ∷ []

unfoldable pub score : ℤ → Kill → Effect
score server_id k =
    if k.is_self
    then suicide_scored server_id k.victim k.victim_name
    else kill_scored server_id k.killer k.killer_name k.tk

pub killer_warning : Module → Kill → Bytes
killer_warning g k = warn_text k.killer (
    utf8 "你使用 "
    ++ rcon_safe k.weapon
    ++ utf8 " 击杀了 "
    ++ rcon_safe (or_text (utf8 "未知") k.victim_name)
    ++ points_text g (codes "points_kill") (pos 2))

pub victim_warning : Module → Kill → Bytes
victim_warning g k = warn_text k.victim (
    utf8 "你被 "
    ++ rcon_safe (or_text (utf8 "未知") k.killer_name)
    ++ utf8 " 使用 "
    ++ rcon_safe k.weapon
    ++ utf8 " 击杀"
    ++ points_text g (codes "points_suicide") (negsuc 1))

pub team_kill_warning : Module → Kill → Bytes
team_kill_warning g k = warn_text k.killer (
    utf8 "你TK了"
    ++ rcon_safe (or_text (utf8 "队友") k.victim_name)
    ++ points_text g (codes "points_tk") (negsuc 4))

unfoldable pub kill_effects : Module → ℤ → Kill → List Effect
kill_effects g server_id k =
    (insert_kill server_id k.killer k.victim k.weapon ∷ score server_id k ∷ [])
    ++ when (not k.is_self && not k.tk && not (is_empty k.killer))
        (console server_id (killer_warning g k))
    ++ when (not k.is_self && not (is_empty k.victim)) (console server_id (victim_warning g k))
    ++ when (k.tk && not (is_empty k.killer)) (console server_id (team_kill_warning g k))
    ++ (dispatch server_id (codes "kill") (kill_fields k)
        ∷ to_browsers server_id (kill_type k) (kill_fields k)
        ∷ [])

pub record Counts : Type 0 where
  pub kill : ℕ
  pub wound : ℕ
  pub revive : ℕ
  pub chat : ℕ

unfoldable pub emit : List Effect → Module → Module
emit effects g = record g { effects = g.effects ++ effects }

unfoldable pub on_kill : ℤ → ParsedLine → Module × Counts → Module × Counts
on_kill server_id ev (g, c) =
    (emit (kill_effects g server_id (kill_of g server_id ev)) g, record c { kill = c.kill + 1 })

abbrev pub last_time : Option ℕ → ℕ
last_time none = 0
last_time (some t) = t

pub suicide_id : Module → ℤ → Bytes → Bytes → Bytes
suicide_id g server_id victim name =
    if is_empty victim && not (is_empty name)
    then find_steam_id_by_name g server_id name
    else victim

pub suicide_warning : Module → Bytes → Bytes
suicide_warning g victim =
    warn_text victim (utf8 "你自杀了" ++ points_text g (codes "points_suicide") (negsuc 1))

unfoldable pub suicide_effects : Module → ℤ → Bytes → Bytes → List Effect
suicide_effects g server_id victim name =
    when (not (is_empty victim)) (suicide_scored server_id victim name)
    ++ when (not (is_empty victim)) (console server_id (suicide_warning g victim))
    ++ (to_browsers server_id (codes "suicide")
          ((codes "victimName", name) ∷ (codes "victimSteamId", victim) ∷ [])
        ∷ [])

-- `SUICIDE_DEDUP_WINDOW_MS`, on the time that the whole request has.
unfoldable pub on_suicide : ℕ → ℕ → ℤ → ParsedLine → Module × Counts → Module × Counts
on_suicide window now server_id ev (g, c) =
    let name = field (codes "victimName") ev in
    let victim = suicide_id g server_id (field (codes "victimSteamId") ev) name in
    if ltb now (last_time (lookup server_id g.last_suicide_time) + window) then (g, c) else (
      emit (suicide_effects g server_id victim name)
          (record g { last_suicide_time = insert server_id now g.last_suicide_time }),
      record c { kill = c.kill + 1 },
    )
