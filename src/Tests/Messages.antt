-- ===== src/Tests/Messages.antt =====
-- Runs of the welcome message and of the apology for a team kill.
use mbsquad.Prelude.{
  ◌+◌, true, false, List, [], ◌∷◌, ◌++◌, none, some, ◌≡◌, refl, All, exists, length,
}
use mbsquad.Prelude.Bytes.{Bytes, codes, equal, Lacks}
use mbsquad.Prelude.Int.{pos, eqb_ℤ}
use mbsquad.Prelude.Maps.{lookup}
use mbsquad.Core.Settings.{
  get_setting, setting_text, get_setting_int, setting_number, get_setting_bool,
}
use mbsquad.Logs.Names.{trim_blanks}
use mbsquad.Plugins.Welcome.{player_mark, fill_player}
use mbsquad.Plugins.Welcome.Filled.{joined, fill_player_ends, fill_player_endless}
use mbsquad.Plugins.Forgive.{
  keywords_text, TkTables, TkRow, is_on, keywords, split_commas, drop_blanks, handle_apology,
}
use mbsquad.Plugins.Forgive.Apology.{AllAnswered, handle_apology-AllAnswered}

fill_player_endless_example :
    fill_player 9 (codes "a" ++ (player_mark ++ [])) (codes "hi " ++ (player_mark ++ codes "!"))
    ≡ none
fill_player_endless_example = fill_player_endless 9 (codes "a") [] (codes "hi ") (codes "!")

abbrev parts : List Bytes
parts = codes "hi " ∷ codes "!" ∷ []

parts-Lacks : All (Lacks b'{') parts
parts-Lacks = ((refl, (refl, (refl, tt))), ((refl, tt), tt))

name-Lacks : Lacks b'{' (codes "Al")
name-Lacks = (refl, (refl, tt))

fill_player_ends_example :
    fill_player (length parts + 1) (codes "Al") (joined player_mark parts)
    ≡ some (joined (codes "Al") parts)
fill_player_ends_example = fill_player_ends (codes "Al") parts name-Lacks parts-Lacks

abbrev killed : TkRow
killed = record {
  id = 4;
  server_id = pos 1;
  killer_steam_id = codes "76";
  killer_name = codes "p";
  victim_steam_id = codes "77";
  victim_name = codes "q";
  expires_at = pos 180;
  forgiven = false;
  kicked = false;
}

-- A record of another killer.
abbrev other_killed : TkRow
other_killed = record killed { id = 3; killer_steam_id = codes "78" }

abbrev tables : TkTables
tables = record {
  settings = [];
  next_id = 5;
  tk_forgive = killed ∷ other_killed ∷ [];
  switch_locks = [];
  sent = [];
}

on : is_on tables ≡ true
unfolding get_setting_bool get_setting_int setting_number get_setting setting_text lookup eqb_ℤ
on = refl

sorry_named : exists (equal (codes "sor")) (keywords (keywords_text tables)) ≡ true
unfolding get_setting setting_text lookup equal keywords split_commas drop_blanks trim_blanks
sorry_named = refl

handle_apology-AllAnswered_example :
    AllAnswered 100
      (pos 1)
      (codes "76")
      tables.tk_forgive
      (handle_apology 100 (pos 1) (codes "76") (codes "So Sorry") tables).tk_forgive
handle_apology-AllAnswered_example =
    handle_apology-AllAnswered 100 (pos 1) (codes "76") (codes "So Sorry") (codes "so ")
      (codes "ry") b's' (codes "or") tables on (λ e. absurd (cc e)) sorry_named refl
