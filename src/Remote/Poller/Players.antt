-- ===== src/Remote/Poller/Players.antt =====
-- What the poller of src/core/remote_api_poller.cpp makes of the rows of the players.
use mbsquad.Prelude.{
  ℕ, ◌≡◌, refl, ap, subst, ◌∙◌, List, [], ◌∷◌, Option, none, some, arith, if◌then◌else◌, Bool-cases,
  inl, inr,
}
use mbsquad.Prelude.Bytes.{Bytes, codes, equal, equal_iff}
use mbsquad.Prelude.Maps.{lookup, lookup-insert, lookup-insert_self}
use mbsquad.Remote.Leaderboard.{PlayerInfo}
use mbsquad.Remote.Poller.{
  id_key, PlayerRow, Tables, seen_row, process_player, process_all, tell, process_players,
}

abbrev pub later_or : Option Bytes → Option Bytes → Option Bytes
later_or none here = here
later_or (some name) here = some name

-- The name that the last of the players with an id has, if there is one.
abbrev pub last_name : Bytes → List PlayerInfo → Option Bytes
last_name id [] = none
last_name id (p ∷ ps) =
    later_or (last_name id ps) (if equal p.steam_id id then some p.name else none)

-- The row of a player who was seen under this name, and of one who was not.
abbrev pub row_after : Bytes → Option Bytes → Option PlayerRow → Option PlayerRow
row_after now none old = old
row_after now (some name) none =
    some (record { name = name; playtime = 0; first_seen = now; last_seen = now; last_ip = none })
row_after now (some name) (some row) =
    some (record row { name = name; last_seen = now; last_ip = none })

seen_row_lem :
    (now name : Bytes) (old : Option PlayerRow)
    → some (seen_row now name old) ≡ row_after now (some name) old
seen_row_lem now name none = refl
seen_row_lem now name (some row) = refl

lookup-process_player :
    (server_id : ℕ) (now : Bytes) (p : PlayerInfo) (t : Tables) (id : Bytes)
    → lookup (server_id, id) (process_player server_id now p t).players
      ≡ row_after now
          (if equal p.steam_id id then some p.name else none)
          (lookup (server_id, id) t.players)
unfolding process_player
lookup-process_player server_id now p t id = elim (Bool-cases (equal p.steam_id id)) [
  | inl e ↦ rw e (
      subst
        (λ i.
          lookup (server_id, i) (process_player server_id now p t).players
          ≡ row_after now (some p.name) (lookup (server_id, i) t.players))
        ((equal_iff p.steam_id id).0 e)
        (lookup-insert_self (server_id, p.steam_id)
            (seen_row now p.name (lookup (server_id, p.steam_id) t.players)) t.players
          ∙ seen_row_lem now p.name (lookup (server_id, p.steam_id) t.players)))
  | inr e ↦ rw e (
      ground (
        arith,
        e,
        lookup-insert (server_id, p.steam_id) (server_id, id)
            (seen_row now p.name (lookup (server_id, p.steam_id) t.players)) t.players,
      ))
]

row_after_later :
    (now : Bytes) (later here : Option Bytes) (old : Option PlayerRow)
    → row_after now later (row_after now here old) ≡ row_after now (later_or later here) old
row_after_later now none here old = refl
row_after_later now (some name) none old = refl
row_after_later now (some name) (some n) none = refl
row_after_later now (some name) (some n) (some row) = refl

lookup-process_all :
    (server_id : ℕ) (now : Bytes) (ps : List PlayerInfo) (t : Tables) (id : Bytes)
    → lookup (server_id, id) (process_all server_id now ps t).players
      ≡ row_after now (last_name id ps) (lookup (server_id, id) t.players)
unfolding process_all
lookup-process_all server_id now [] t id = refl
lookup-process_all server_id now (p ∷ ps) t id =
    lookup-process_all server_id now ps (process_player server_id now p t) id
    ∙ ap (row_after now (last_name id ps)) (lookup-process_player server_id now p t id)
    ∙ row_after_later now (last_name id ps) _ (lookup (server_id, id) t.players)

tell-players {ℓ} :
    {A : Type ℓ} (type : Bytes) (xs : List A) (t : Tables) → (tell type xs t).players ≡ t.players
tell-players type [] t = refl
tell-players type (x ∷ xs) t = refl

-- What is known of a player after a list from a panel is processed: where the list has the player, the
-- last name in it, with the playtime and the first time that were stored and without the address, and
-- otherwise what was stored.
pub lookup-process_players :
    (server_id : ℕ) (now : Bytes) (ps : List PlayerInfo) (t : Tables) (id : Bytes)
    → lookup (server_id, id) (process_players server_id now ps t).players
      ≡ row_after now (last_name id ps) (lookup (server_id, id) t.players)
unfolding process_players
lookup-process_players server_id now ps t id =
    ap (lookup (server_id, id))
      (tell-players (codes "remote_players_sync") ps (process_all server_id now ps t))
    ∙ lookup-process_all server_id now ps t id
