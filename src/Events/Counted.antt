-- ===== src/Events/Counted.antt =====
-- The counts that the route answers with.
use mbsquad.Prelude.{
  ℕ, ◌+◌, Bool, true, false, List, [], ◌∷◌, ◌++◌, Option, none, some, ltb, if◌then◌else◌, length,
  exists, ◌≡◌, refl, ap, ◌∙◌, arith, both_branches,
}
use mbsquad.Prelude.Bytes.{Bytes, codes, equal}
use mbsquad.Prelude.Int.{ℤ, pos}
use mbsquad.Core.Numbers.{safe_stoi}
use mbsquad.Prelude.Maps.{lookup, insert}
use mbsquad.Logs.Events.{ParsedLine}
use mbsquad.Logs.Lines.{process_line}
use mbsquad.Logs.Patterns.{Std}
use mbsquad.Logs.Wounds.{Wounds}
use mbsquad.Events.{
  Keys, validate_relay_server_access, Module, ChatRow, Effect, console, to_browsers, dispatch,
  kill_scored, suicide_scored, insert_kill, insert_revive, revive_scored, int_key,
}
use mbsquad.Events.Kills.{
  Kill, field, kill_of, score, kill_effects, Counts, emit, on_kill, last_time, suicide_id,
  suicide_effects, on_suicide,
}
use mbsquad.Events.Lines.{
  Clock, Times, wound_effects, on_wound, revive_effects, on_revive, chat_effects, store_chat,
  chat_row, on_chat, on_event, on_events, Run, parsed, run_lines, is_repeat, Response, processed,
  no_server, unauthorized, reply, no_counts, handle_raw,
}

-- The messages to the browsers.
pub broadcasts : List Effect → ℕ
broadcasts [] = 0
broadcasts (to_browsers server type fields ∷ effects) = broadcasts effects + 1
broadcasts (insert_kill a b c d ∷ effects) = broadcasts effects
broadcasts (insert_revive a b c d e ∷ effects) = broadcasts effects
broadcasts (kill_scored a b c d ∷ effects) = broadcasts effects
broadcasts (suicide_scored a b c ∷ effects) = broadcasts effects
broadcasts (revive_scored a b c ∷ effects) = broadcasts effects
broadcasts (console a b ∷ effects) = broadcasts effects
broadcasts (dispatch a b c ∷ effects) = broadcasts effects

pub total : Counts → ℕ
total c = c.kill + c.wound + c.revive + c.chat

broadcasts-append : (es fs : List Effect) → broadcasts (es ++ fs) ≡ broadcasts es + broadcasts fs
unfolding broadcasts
broadcasts-append [] fs = omega arith
broadcasts-append (to_browsers a b c ∷ es) fs = omega (arith, broadcasts-append es fs)
broadcasts-append (insert_kill a b c d ∷ es) fs = broadcasts-append es fs
broadcasts-append (insert_revive a b c d e ∷ es) fs = broadcasts-append es fs
broadcasts-append (kill_scored a b c d ∷ es) fs = broadcasts-append es fs
broadcasts-append (suicide_scored a b c ∷ es) fs = broadcasts-append es fs
broadcasts-append (revive_scored a b c ∷ es) fs = broadcasts-append es fs
broadcasts-append (console a b ∷ es) fs = broadcasts-append es fs
broadcasts-append (dispatch a b c ∷ es) fs = broadcasts-append es fs

quiet_console :
    (b : Bool) (server : ℤ) (text : Bytes)
    → broadcasts (if b then console server text ∷ [] else []) ≡ 0
unfolding broadcasts
quiet_console true server text = refl
quiet_console false server text = refl

quiet_suicide :
    (b : Bool) (server : ℤ) (victim name : Bytes)
    → broadcasts (if b then suicide_scored server victim name ∷ [] else []) ≡ 0
unfolding broadcasts
quiet_suicide true server victim name = refl
quiet_suicide false server victim name = refl

quiet_score :
    (server : ℤ) (k : Kill) (es : List Effect) → broadcasts (score server k ∷ es) ≡ broadcasts es
unfolding score broadcasts
quiet_score server k es =
    both_branches (λ e. broadcasts (e ∷ es) ≡ broadcasts es) k.is_self
      (suicide_scored server k.victim k.victim_name)
      (kill_scored server k.killer k.killer_name k.tk) refl refl

suicide_effects-broadcasts :
    (g : Module) (server : ℤ) (victim name : Bytes)
    → broadcasts (suicide_effects g server victim name) ≡ 1
unfolding suicide_effects broadcasts
suicide_effects-broadcasts g server victim name =
    simp (broadcasts-append, quiet_console, quiet_suicide)

kill_effects-broadcasts :
    (g : Module) (server : ℤ) (k : Kill) → broadcasts (kill_effects g server k) ≡ 1
unfolding kill_effects broadcasts
kill_effects-broadcasts g server k =
    simp (broadcasts-append, quiet_console, quiet_score server k [])

wound_effects-broadcasts :
    (g : Module) (server : ℤ) (ev : ParsedLine) → broadcasts (wound_effects g server ev) ≡ 1
unfolding wound_effects broadcasts
wound_effects-broadcasts g server ev = simp (broadcasts-append, quiet_console)

revive_effects-broadcasts :
    (g : Module) (server : ℤ) (ev : ParsedLine) → broadcasts (revive_effects g server ev) ≡ 1
unfolding revive_effects broadcasts
revive_effects-broadcasts g server ev = simp (broadcasts-append, quiet_console)

-- The messages of the module so far are those of before and one for each event that is counted.
abbrev pub Tallied : ℕ → Module × Counts → Type 0
Tallied before s = broadcasts s.0.effects ≡ before + total s.1

emit-broadcasts :
    (es : List Effect) (g : Module)
    → broadcasts (emit es g).effects ≡ broadcasts g.effects + broadcasts es
unfolding emit
emit-broadcasts es g = broadcasts-append g.effects es

store_chat-effects :
    (clock : Clock) (row : ChatRow) (g : Module) → (store_chat clock row g).effects ≡ g.effects
unfolding store_chat
store_chat-effects clock row g =
    both_branches (λ h. h.effects ≡ g.effects)
      (exists (is_repeat clock row.server_id row.steam_id row.message) g.chat_logs) g
      (record g { chat_logs = row ∷ g.chat_logs }) refl refl

on_kill-Tallied :
    (before : ℕ) (server : ℤ) (ev : ParsedLine) (s : Module × Counts)
    → Tallied before s
    → Tallied before (on_kill server ev s)
unfolding on_kill total
on_kill-Tallied before server ev (g, c) h = omega (
  arith,
  h,
  emit-broadcasts (kill_effects g server (kill_of g server ev)) g,
  kill_effects-broadcasts g server (kill_of g server ev),
)

on_wound-Tallied :
    (before : ℕ) (server : ℤ) (ev : ParsedLine) (s : Module × Counts)
    → Tallied before s
    → Tallied before (on_wound server ev s)
unfolding on_wound total
on_wound-Tallied before server ev (g, c) h =
    omega (
      arith,
      h,
      emit-broadcasts (wound_effects g server ev) g,
      wound_effects-broadcasts g server ev,
    )

on_revive-Tallied :
    (before : ℕ) (server : ℤ) (ev : ParsedLine) (s : Module × Counts)
    → Tallied before s
    → Tallied before (on_revive server ev s)
unfolding on_revive total
on_revive-Tallied before server ev (g, c) h = omega (
  arith,
  h,
  emit-broadcasts (revive_effects g server ev) g,
  revive_effects-broadcasts g server ev,
)

on_chat-Tallied :
    (before : ℕ) (clock : Clock) (server : ℤ) (ev : ParsedLine) (s : Module × Counts)
    → Tallied before s
    → Tallied before (on_chat clock server ev s)
unfolding on_chat total chat_effects broadcasts
on_chat-Tallied before clock server ev (g, c) h = omega (
  arith,
  h,
  emit-broadcasts (chat_effects server ev) (store_chat clock (chat_row clock server ev) g),
  ap broadcasts (store_chat-effects clock (chat_row clock server ev) g),
)

on_suicide-Tallied :
    (before window now : ℕ) (server : ℤ) (ev : ParsedLine) (s : Module × Counts)
    → Tallied before s
    → Tallied before (on_suicide window now server ev s)
unfolding on_suicide total
on_suicide-Tallied before window now server ev (g, c) h =
    let name = field (codes "victimName") ev in
    let victim = suicide_id g server (field (codes "victimSteamId") ev) name in
    let g' = record g { last_suicide_time = insert server now g.last_suicide_time } in
    both_branches (Tallied before)
      (ltb now (last_time (lookup server g.last_suicide_time) + window)) (g, c) _ h
      (omega (
        arith,
        h,
        emit-broadcasts (suicide_effects g server victim name) g',
        suicide_effects-broadcasts g server victim name,
      ))

on_event-Tallied :
    (before : ℕ) (times : Times) (server : ℤ) (ev : ParsedLine) (s : Module × Counts)
    → Tallied before s
    → Tallied before (on_event times server ev s)
unfolding on_event
on_event-Tallied before times server ev s h =
    both_branches (Tallied before) (equal ev.type (codes "kill")) (on_kill server ev s) _
      (on_kill-Tallied before server ev s h)
      (both_branches (Tallied before) (equal ev.type (codes "suicide"))
        (on_suicide times.suicide_window times.steady server ev s) _
        (on_suicide-Tallied before times.suicide_window times.steady server ev s h)
        (both_branches (Tallied before) (equal ev.type (codes "wound")) (on_wound server ev s) _
          (on_wound-Tallied before server ev s h)
          (both_branches (Tallied before) (equal ev.type (codes "revive")) (on_revive server ev s) _
            (on_revive-Tallied before server ev s h)
            (both_branches (Tallied before) (equal ev.type (codes "chat"))
              (on_chat times.clock server ev s) s (on_chat-Tallied before times.clock server ev s h)
              h))))

on_events-Tallied :
    (before : ℕ) (times : Times) (server : ℤ) (evs : List ParsedLine) (s : Module × Counts)
    → Tallied before s
    → Tallied before (on_events times server evs s)
unfolding on_events
on_events-Tallied before times server [] s h = h
on_events-Tallied before times server (ev ∷ evs) s h =
    on_events-Tallied before times server evs (on_event times server ev s)
      (on_event-Tallied before times server ev s h)

module _ (std : Std) where
  abbrev RunTallied : ℕ → Run std × Bool → Type 0
  RunTallied before r = Tallied before (r.0.1, r.0.2)

  parsed-RunTallied :
      (before : ℕ) (times : Times) (server : ℤ) (run : Run std) (next : Run std → Run std × Bool)
      (o : Option (List ParsedLine × Wounds std))
      → ((r : Run std) → Tallied before (r.1, r.2) → RunTallied before (next r))
      → Tallied before (run.1, run.2)
      → RunTallied before (parsed std times server run next o)
  parsed-RunTallied before times server run next none keeps h = h
  parsed-RunTallied before times server run next (some (evs, wounds)) keeps h =
      let s = on_events times server evs (run.1, run.2) in
      keeps (wounds, s.0, s.1) (on_events-Tallied before times server evs (run.1, run.2) h)

  run_lines-RunTallied :
      (before : ℕ) (times : Times) (server : ℤ) (lines : List Bytes) (run : Run std)
      → Tallied before (run.1, run.2)
      → RunTallied before (run_lines std times server lines run)
  unfolding run_lines
  run_lines-RunTallied before times server [] run h = h
  run_lines-RunTallied before times server (line ∷ lines) run h =
      let next = run_lines std times server lines in
      let o = process_line std times.windows times.steady line run.0 in
      both_branches (RunTallied before) (ltb (length line) 10) (next run)
        (parsed std times server run next o) (run_lines-RunTallied before times server lines run h)
        (parsed-RunTallied before times server run next o
          (run_lines-RunTallied before times server lines) h)

counts_of : Response → Counts
counts_of (processed counts) = counts
counts_of _ = no_counts

abbrev Accounted : (std : Std) → ℕ → Counts → Response × Wounds std × Module → Type 0
Accounted std before counts r =
    r.0 ≡ processed counts → broadcasts r.2.effects ≡ before + total counts

reply-Accounted :
    (std : Std) (before : ℕ) (counts : Counts) (run : Run std) (b : Bool)
    → Tallied before (run.1, run.2)
    → Accounted std before counts (reply std (run, b))
unfolding counts_of
reply-Accounted std before counts run false h e = cc e
reply-Accounted std before counts run true h e = h ∙ ap (λ r. before + total (counts_of r)) e

start-Tallied : (g : Module) → Tallied (broadcasts g.effects) (g, no_counts)
unfolding total
start-Tallied g = omega arith

-- Where a request is processed to its end, whatever its lines are, each event that the answer counts has
-- been sent to the browsers once, and nothing else has: the messages after the request are those before
-- it and as many as the four counts together.
pub handle_raw-total :
    (std : Std) (keys : Keys) (times : Times) (server_text header : Bytes) (body : Option Bytes)
    (lines : List Bytes) (wounds : Wounds std) (g : Module) (counts : Counts)
    → (handle_raw std keys times server_text header body lines wounds g).0 ≡ processed counts
    → broadcasts (handle_raw std keys times server_text header body lines wounds g).2.effects
      ≡ broadcasts g.effects + total counts
unfolding handle_raw
handle_raw-total std keys times server_text header body lines wounds g counts =
    let server = safe_stoi server_text (pos 0) in
    let r = run_lines std times server lines (wounds, g, no_counts) in
    both_branches (Accounted std (broadcasts g.effects) counts) (equal server_text [])
      (no_server, wounds, g) _ (λ e. cc e)
      (both_branches (Accounted std (broadcasts g.effects) counts)
        (validate_relay_server_access keys header body server) (reply std r)
        (unauthorized, wounds, g)
        (reply-Accounted std (broadcasts g.effects) counts r.0 r.1 (
          run_lines-RunTallied std (broadcasts g.effects) times server lines (wounds, g, no_counts)
            (start-Tallied g)))
        (λ e. cc e))
