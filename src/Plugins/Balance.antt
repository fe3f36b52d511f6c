-- ===== src/Plugins/Balance.antt =====
-- `TeamBalancePlugin` of src/plugins/team_balance_plugin.cpp. The result of an event is the list of
-- commands that the plugin sends; the settings that it reads are arguments.
pub mod Even
use mbsquad.Prelude.{
  ℕ, zero, suc, ◌+◌, ◌-◌, ◌/◌, Bool, true, false, not, ◌&&◌, ◌||◌, List, [], ◌∷◌, ◌++◌, Option,
  none, some, ltb, leb, if◌then◌else◌, length,
}
use mbsquad.Prelude.Bytes.{Bytes, codes, equal}
use mbsquad.Prelude.Int.{ℤ, pos, eqb_ℤ, ltb_ℤ}

-- The fields of a player in the event, with the values that stand for missing ones.
pub record Player : Type 0 where
  pub steam_id : Bytes
  pub name : Bytes
  pub squad_id : Bytes
  pub team_index : ℤ

unfoldable pub in_team : ℕ → Player → Bool
in_team team p = eqb_ℤ p.team_index (pos team)

-- The loop over the players counts team 1 and, where that is not it, team 2.
unfoldable pub count_teams : List Player → ℕ × ℕ
count_teams [] = (0, 0)
count_teams (p ∷ players) =
    let (team1, team2) = count_teams players in
    if in_team 1 p
    then (suc team1, team2)
    else if in_team 2 p
    then (team1, suc team2)
    else (team1, team2)

abbrev pub distance : ℕ → ℕ → ℕ
distance a b = (a - b) + (b - a)

pub has_squad : Player → Bool
has_squad p =
    not (equal p.squad_id [])
    && not (equal p.squad_id (codes "-1"))
    && not (equal p.squad_id (codes "N/A"))

abbrev pub team_of : Bool → ℕ
team_of true = 1
team_of false = 2

-- The players of the larger team who have an id: those without a squad, and the others.
pub candidates : Bool → List Player → List Player × List Player
candidates team1_bigger [] = ([], [])
candidates team1_bigger (p ∷ players) =
    let (unsorted, sorted) = candidates team1_bigger players in
    if not (in_team (team_of team1_bigger) p) || equal p.steam_id []
    then (unsorted, sorted)
    else if has_squad p
    then (unsorted, p ∷ sorted)
    else (p ∷ unsorted, sorted)

pub switch_command : Player → Bytes
switch_command p = codes "AdminForceTeamChange \"" ++ (p.steam_id ++ codes "\"")

-- One of the two loops: the commands, and how many players have been moved after it.
pub switch_players : ℕ → ℕ → List Player → List Bytes × ℕ
switch_players to_move moved [] = ([], moved)
switch_players to_move moved (p ∷ players) =
    let (commands, moved') = switch_players to_move (moved + 1) players in
    if leb to_move moved then ([], moved) else (switch_command p ∷ commands, moved')

pub switch_both : ℕ → List Player × List Player → List Bytes
switch_both to_move (unsorted, sorted) =
    let (first, moved) = switch_players to_move 0 unsorted in
    first ++ (switch_players to_move moved sorted).0

pub rebalance : ℤ → List Player → ℕ × ℕ → List Bytes
rebalance threshold players (team1, team2) =
    let diff = distance team1 team2 in
    if ltb_ℤ (pos diff) threshold
    then []
    else switch_both (diff / 2) (candidates (ltb team2 team1) players)

-- `players` is none where the event has no array of that name.
pub handle : Bytes → Bool → ℤ → Option (List Player) → List Bytes
handle type enabled threshold none = []
handle type enabled threshold (some players) =
    if not (equal type (codes "playerlist")) || not enabled || ltb (length players) 4
    then []
    else rebalance threshold players (count_teams players)
