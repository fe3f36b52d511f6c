-- ===== src/Logs/Tail/Servers.antt =====
-- The tailers of `LocalLogTailerManager`: at most one for each server.
use mbsquad.Prelude.{
  false, not, ◌&&◌, ◌||◌, List, [], ◌∷◌, ◌≡◌, refl, ap, sym, subst, ◌∙◌, arith, Bool-cases,
  Option-cases, inl, inr, keep,
}
use mbsquad.Prelude.Bytes.{Bytes}
use mbsquad.Prelude.Int.{ℤ, eqb_ℤ, eqb_ℤ_iff}
use mbsquad.Core.Numbers.{stoi}
use mbsquad.Logs.Tail.{
  LocalLogTailer, LocalServer, is_tailed, is_local, push_back, start_server, start_row, go_on,
  start_rows, start_all, stop_server,
}

-- No server has two tailers.
abbrev pub OneEach : List LocalLogTailer → Type 0
OneEach [] = Unit
OneEach (t ∷ tailers) = (is_tailed t.server_id tailers ≡ false) × OneEach tailers

is_tailed-push_back :
    (id : ℤ) (tailers : List LocalLogTailer) (t : LocalLogTailer)
    → is_tailed id (push_back tailers t) ≡ (eqb_ℤ t.server_id id || is_tailed id tailers)
unfolding push_back
is_tailed-push_back id [] t = refl
is_tailed-push_back id (u ∷ tailers) t = ground (arith, is_tailed-push_back id tailers t)

push_back-OneEach :
    (tailers : List LocalLogTailer) (t : LocalLogTailer)
    → OneEach tailers
    → is_tailed t.server_id tailers ≡ false
    → OneEach (push_back tailers t)
unfolding push_back
push_back-OneEach [] t h fresh = (refl, tt)
push_back-OneEach (u ∷ tailers) t (hu, h) fresh = (
  ground (
    arith,
    is_tailed-push_back u.server_id tailers t,
    hu,
    fresh,
    eqb_ℤ_iff u.server_id t.server_id,
    eqb_ℤ_iff t.server_id u.server_id,
  ),
  push_back-OneEach tailers t h (ground (arith, fresh)),
)

start_server-OneEach :
    (id : ℤ) (path key : Bytes) (tailers : List LocalLogTailer)
    → OneEach tailers
    → OneEach (start_server id path key tailers)
unfolding start_server
start_server-OneEach id path key tailers h = elim (Bool-cases (is_tailed id tailers)) [
  | inl has ↦ rw has h
  | inr fresh ↦ rw fresh (push_back-OneEach tailers _ h fresh)
]

is_tailed-start_server :
    (id b : ℤ) (path key : Bytes) (tailers : List LocalLogTailer)
    → is_tailed b (start_server id path key tailers) ≡ (eqb_ℤ id b || is_tailed b tailers)
unfolding start_server
is_tailed-start_server id b path key tailers = elim (Bool-cases (is_tailed id tailers)) [
  | inl has ↦ rw has (elim (Bool-cases (eqb_ℤ id b)) [
    | inl own ↦ rw own (ap (λ i. is_tailed i tailers) (sym ((eqb_ℤ_iff id b).0 own)) ∙ has)
    | inr other ↦ rw other refl
  ])
  | inr fresh ↦ rw fresh (is_tailed-push_back b tailers _)
]

is_tailed-stop_server :
    (a b : ℤ) (tailers : List LocalLogTailer)
    → OneEach tailers
    → is_tailed b (stop_server a tailers) ≡ (not (eqb_ℤ a b) && is_tailed b tailers)
unfolding stop_server
is_tailed-stop_server a b [] h = ground arith
is_tailed-stop_server a b (t ∷ tailers) (ht, h) =
    let rest = is_tailed-stop_server a b tailers h in
    elim (Bool-cases (eqb_ℤ t.server_id a)) [
      | inl own ↦
          let same : t.server_id ≡ a = (eqb_ℤ_iff t.server_id a).0 own in
          let gone : is_tailed a tailers ≡ false = ap (λ i. is_tailed i tailers) (sym same) ∙ ht in
          elim (Bool-cases (eqb_ℤ a b)) [
            | inl target ↦
                rw own (
                  rw target (ap (λ i. is_tailed i tailers) (sym ((eqb_ℤ_iff a b).0 target)) ∙ gone))
            | inr other ↦ rw own (rw other (rw (ap (λ i. eqb_ℤ i b) same ∙ other) refl))
          ]
      | inr other ↦ rw other (elim (Bool-cases (eqb_ℤ a b)) [
        | inl target ↦
            let apart : eqb_ℤ t.server_id b ≡ false =
              ap (eqb_ℤ t.server_id) (sym ((eqb_ℤ_iff a b).0 target)) ∙ other in
            rw target (rw apart (rest ∙ rw target refl))
        | inr else_where ↦
            rw else_where (ap (λ x. eqb_ℤ t.server_id b || x) (rest ∙ rw else_where refl))
      ])
    ]

stop_server-OneEach :
    (id : ℤ) (tailers : List LocalLogTailer) → OneEach tailers → OneEach (stop_server id tailers)
unfolding stop_server
stop_server-OneEach id [] h = tt
stop_server-OneEach id (t ∷ tailers) (ht, h) = elim (Bool-cases (eqb_ℤ t.server_id id)) [
  | inl own ↦ rw own h
  | inr other ↦ rw other (
    is_tailed-stop_server id t.server_id tailers h
        ∙ ap (λ x. not (eqb_ℤ id t.server_id) && x) ht
        ∙ ground arith,
    stop_server-OneEach id tailers h,
  )
]

start_rows-OneEach :
    (rows : List LocalServer) (tailers : List LocalLogTailer)
    → OneEach tailers
    → OneEach (start_rows rows tailers).0
start_rows-OneEach [] tailers h = h
start_rows-OneEach (row ∷ rows) tailers h = elim (Option-cases (stoi row.id)) [
  | inl e ↦
      subst (λ o. OneEach (go_on (start_rows rows) tailers (start_row row tailers o)).0) (sym e) h
  | inr (id, e) ↦
      subst (λ o. OneEach (go_on (start_rows rows) tailers (start_row row tailers o)).0) (sym e)
        (start_rows-OneEach rows (start_server id row.log_path row.server_api_key tailers)
          (start_server-OneEach id row.log_path row.server_api_key tailers h))
]

-- However the servers of the table are started, and a row cut the start short or not, no server has
-- two tailers, also after one of them is stopped; then exactly that server has none, and each other
-- server has one as before.
pub start_all-stop_server :
    (rows : List LocalServer) (stopped other : ℤ)
    → OneEach (start_all rows []).0
      × OneEach (stop_server stopped (start_all rows []).0)
      × (is_tailed other (stop_server stopped (start_all rows []).0)
          ≡ (not (eqb_ℤ stopped other) && is_tailed other (start_all rows []).0))
unfolding start_all
start_all-stop_server rows stopped other =
    let h = start_rows-OneEach (keep is_local rows) [] tt in
    (
      h,
      stop_server-OneEach stopped (start_rows (keep is_local rows) []).0 h,
      is_tailed-stop_server stopped other (start_rows (keep is_local rows) []).0 h,
    )
