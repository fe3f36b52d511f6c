-- ===== src/Events/Access.antt =====
-- Whose lines are taken.
use mbsquad.Prelude.{
  true, false, List, [], ◌∷◌, Option, some, if◌then◌else◌, ◌≡◌, refl, ap, sym, ◌∙◌, Bool-cases,
  Option-cases, inl, inr,
}
use mbsquad.Prelude.Bytes.{Bytes, equal}
use mbsquad.Prelude.Int.{ℤ, pos, ltb_ℤ, eqb_ℤ, eqb_ℤ_iff}
use mbsquad.Prelude.Maps.{bytes_key, lookup}
use mbsquad.Core.Numbers.{safe_stoi}
use mbsquad.Logs.Patterns.{Std}
use mbsquad.Logs.Wounds.{Wounds}
use mbsquad.Events.{
  Module, Keys, server_of, key_server, used_key, validate_relay_api_key,
  validate_relay_server_access,
}
use mbsquad.Events.Lines.{Times, handle_raw}

server_test :
    (actual claimed : ℤ)
    → (if ltb_ℤ actual (pos 0) then false else eqb_ℤ actual claimed) ≡ true
    → (actual ≡ claimed) × (ltb_ℤ actual (pos 0) ≡ false)
server_test actual claimed h = elim (Bool-cases (ltb_ℤ actual (pos 0))) [
  | inl negative ↦ absurd (cc (ap (λ b. if b then false else eqb_ℤ actual claimed) negative, h))
  | inr other ↦ (
    (eqb_ℤ_iff actual claimed).0
        (ap (λ b. if b then false else eqb_ℤ actual claimed) (sym other) ∙ h),
    other,
  )
]

-- The key of the request is one of the table, and of the claimed server.
abbrev pub Owns : Keys → Bytes → ℤ → Type 0
Owns keys key claimed =
    (id : Bytes) × (lookup key keys ≡ some id) × (safe_stoi id (pos 0) ≡ claimed)

key_server-Owns :
    (keys : Keys) (key : Bytes) (claimed : ℤ)
    → key_server keys key ≡ claimed
    → ltb_ℤ (key_server keys key) (pos 0) ≡ false
    → Owns keys key claimed
key_server-Owns keys [] claimed same valid = absurd (cc valid)
key_server-Owns keys (c ∷ key) claimed same valid = elim (Option-cases (lookup (c ∷ key) keys)) [
  | inl missing ↦ absurd (cc valid)
  | inr (id, found) ↦ (id, found, ap server_of (sym found) ∙ same)
]

validate-Owns :
    (keys : Keys) (header : Bytes) (body : Option Bytes) (claimed : ℤ)
    → validate_relay_server_access keys header body claimed ≡ true
    → Owns keys (used_key header body) claimed
unfolding validate_relay_server_access validate_relay_api_key
validate-Owns keys header body claimed h =
    let (same, valid) = server_test (key_server keys (used_key header body)) claimed h in
    key_server-Owns keys (used_key header body) claimed same valid

-- A request whose key is not that of the server it names leaves the wounds and the module as they are,
-- whatever its lines are.
pub handle_raw-unowned :
    (std : Std) (keys : Keys) (times : Times) (server_text header : Bytes) (body : Option Bytes)
    (lines : List Bytes) (wounds : Wounds std) (g : Module)
    → (Owns keys (used_key header body) (safe_stoi server_text (pos 0)) → ⊥)
    → ((handle_raw std keys times server_text header body lines wounds g).1 ≡ wounds)
      × ((handle_raw std keys times server_text header body lines wounds g).2 ≡ g)
unfolding handle_raw
handle_raw-unowned std keys times server_text header body lines wounds g unowned =
    elim (Bool-cases (equal server_text [])) [
      | inl empty ↦ rw empty (refl, refl)
      | inr named ↦
          elim (Bool-cases
            (validate_relay_server_access keys header body (safe_stoi server_text (pos 0)))) [
              | inl valid ↦
                  absurd
                    (unowned (validate-Owns keys header body (safe_stoi server_text (pos 0)) valid))
              | inr refused ↦ rw named (rw refused (refl, refl))
            ]
    ]
