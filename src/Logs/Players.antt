-- ===== src/Logs/Players.antt =====
-- `LogParser::parsePlayerList`: the answer of the console command `ListPlayers`.
use mbsquad.Prelude.{Bool, List, [], ◌∷◌, Option, none, some, if◌then◌else◌, ◌>>=◌}
use mbsquad.Prelude.Bytes.{Bytes, codes, equal, get_lines}
use mbsquad.Prelude.Int.{ℤ}
use mbsquad.Core.Numbers.{stoi}
use mbsquad.Logs.Names.{trim_blanks}
use mbsquad.Logs.Patterns.{Std, Match, group, player}

pub record PlayerInfo : Type 0 where
  pub rcon_id : ℤ
  pub eos_id : Bytes
  pub steam_id : Bytes
  pub name : Bytes
  pub team_id : Bytes
  pub squad_id : Bytes
  pub is_leader : Bool
  pub role : Bytes

-- No squad is an empty text.
pub squad_of : Bytes → Bytes
squad_of squad = if equal squad (codes "N/A") then [] else squad

abbrev player_of : Match → ℤ → PlayerInfo
player_of m id = record {
  rcon_id = id;
  eos_id = group m 2;
  steam_id = group m 3;
  name = trim_blanks (group m 4);
  team_id = group m 5;
  squad_id = squad_of (trim_blanks (group m 6));
  is_leader = equal (group m 7) (codes "True");
  role = trim_blanks (group m 8);
}

-- An id that is no `int` makes `stoi` throw, and the call ends without a list.
abbrev pub add_player : Option Match → Option (List PlayerInfo) → Option (List PlayerInfo)
add_player none players = players
add_player (some m) players =
    stoi (group m 1) >>= λ id. players >>= λ rest. some (player_of m id ∷ rest)

pub parse_players : Std → List Bytes → Option (List PlayerInfo)
parse_players std [] = some []
parse_players std (line ∷ lines) = add_player (std.search player line) (parse_players std lines)

pub parse_player_list : Std → Bytes → Option (List PlayerInfo)
parse_player_list std raw = parse_players std (get_lines raw)
