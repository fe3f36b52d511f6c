-- ===== src/Events/Teams.antt =====
-- Team kills after a list of players has come in.
use mbsquad.Prelude.{
  List, [], ◌∷◌, Option, none, some, if◌then◌else◌, ◌≡◌, refl, ap, ◌∙◌, Bool-cases, inl, inr,
}
use mbsquad.Prelude.Bytes.{Bytes, equal}
use mbsquad.Prelude.Int.{ℤ, eqb_ℤ}
use mbsquad.Prelude.Maps.{bytes_key, lookup, insert, lookup-insert}
use mbsquad.Logs.Players.{PlayerInfo}
use mbsquad.Events.{
  Module, TeamMapEntry, int_key, both_on_team, kill_in, is_team_kill, entry_of, teams_of,
  update_team_map,
}

-- The entry of the last player of the list with that id, or else the given one.
pub last_entry : Bytes → List PlayerInfo → Option TeamMapEntry → Option TeamMapEntry
last_entry id [] before = before
last_entry id (p ∷ players) before =
    last_entry id players (if equal p.steam_id id then some (entry_of p) else before)

lookup-teams_of :
    (id : Bytes) (players : List PlayerInfo) (map : List (Bytes × TeamMapEntry))
    → lookup id (teams_of players map) ≡ last_entry id players (lookup id map)
unfolding teams_of last_entry
lookup-teams_of id [] map = refl
lookup-teams_of id (p ∷ players) map =
    lookup-teams_of id players (insert p.steam_id (entry_of p) map)
    ∙ ap (last_entry id players) (lookup-insert p.steam_id id (entry_of p) map)

-- After a list of players of a server is taken in, a kill on that server is a team kill just where the
-- last entries of both players in the list have the same team, and one that is not empty; on any other
-- server it is what it was.
pub is_team_kill-update_team_map :
    (server other : ℤ) (players : List PlayerInfo) (g : Module) (killer victim : Bytes)
    → is_team_kill (update_team_map server players g) other killer victim ≡ (
        if eqb_ℤ server other
        then both_on_team (last_entry killer players none) (last_entry victim players none)
        else is_team_kill g other killer victim)
unfolding is_team_kill update_team_map lookup
is_team_kill-update_team_map server other players g killer victim =
    ap (λ o. kill_in o killer victim) (lookup-insert server other (teams_of players []) g.team_map)
    ∙ elim (Bool-cases (eqb_ℤ server other)) [
      | inl own ↦ rw own (
          ap (λ o. both_on_team o (lookup victim (teams_of players [])))
            (lookup-teams_of killer players [])
          ∙ ap (both_on_team (last_entry killer players none)) (lookup-teams_of victim players []))
      | inr apart ↦ rw apart refl
    ]
