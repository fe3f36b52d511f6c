-- ===== src/Relay/Requests/Key.antt =====
-- The key of a call to `unbanSvr` of relay/main.cpp.
use mbsquad.Prelude.{
  false, not, ◌||◌, ◌≡◌, ◌≢◌, ◌⊎◌, refl, sym, ap, ◌∙◌, [], ◌∷◌, ◌++◌, append-nil, Option, none,
  some, arith, Bool-cases, Option-cases, inl, inr,
}
use mbsquad.Prelude.Bytes.{Bytes, codes, equal, equal_iff}
use mbsquad.Prelude.Find.{find, find_eq}
use mbsquad.Relay.Files.{Disk, trim}
use mbsquad.Relay.Entries.{Outcome}
use mbsquad.Relay.Requests.{
  Reply, text, is_nil, before, key_of, checked, HttpRequest, request_key, parse_req, c_string,
  answered, panel_call, unban_connection,
}

-- A text in which the stored key, which is not empty, stands behind `X-API-Key:` up to the end of its
-- line, with or without blanks around it.
pub record HasKey (stored raw : Bytes) : Type 0 where
  pub front : Bytes
  pub line : Bytes
  pub tail : Bytes
  pub split : raw ≡ front ++ (codes "X-API-Key:" ++ (line ++ tail))
  pub ended : (tail ≡ []) ⊎ ((more : Bytes) × (tail ≡ 13 ∷ 10 ∷ more))
  pub is_key : trim line ≡ stored
  pub is_set : stored ≢ []

line_end :
    (v : Bytes)
    → (tail : Bytes) × (v ≡ before v (find (13 ∷ 10 ∷ []) v) ++ tail)
      × ((tail ≡ []) ⊎ ((more : Bytes) × (tail ≡ 13 ∷ 10 ∷ more)))
line_end v = elim (Option-cases (find (13 ∷ 10 ∷ []) v)) [
  | inl e ↦ ([], rw e (sym (append-nil v)), inl refl)
  | inr ((line, rest), e) ↦
      (13 ∷ 10 ∷ rest, rw e (find_eq 13 (10 ∷ []) v line rest e), inr (rest, refl))
]

key_of-HasKey :
    (stored raw : Bytes) (o : Option (Bytes × Bytes))
    → stored ≢ []
    → find (codes "X-API-Key:") raw ≡ o
    → key_of o ≡ stored
    → HasKey stored raw
key_of-HasKey stored raw none set found is_key = absurd (set (sym is_key))
key_of-HasKey stored raw (some (front, v)) set found is_key =
    let e = line_end v in
    record {
      front = front;
      line = before v (find (13 ∷ 10 ∷ []) v);
      tail = e.0;
      split =
          find_eq b'X' (codes "-API-Key:") raw front v found
          ∙ ap (λ x. front ++ (codes "X-API-Key:" ++ x)) e.1;
      ended = e.2;
      is_key = is_key;
      is_set = set;
    }

-- The answer to a call that is read but refused, and to one that is let in.
abbrev pub refused : Option HttpRequest → Option Reply
refused none = none
refused (some req) = some (text 401 (codes "{\"error\":\"unauthorized\"}"))

abbrev pub let_in :
    (Bytes → Bytes → Outcome Bytes) → Bytes → Disk → Option HttpRequest → Option Reply × Disk
let_in value log_dir d none = (none, d)
let_in value log_dir d (some req) = answered value log_dir (panel_call value log_dir d req)

-- What a call comes to: it is refused, or let in with the key.
abbrev pub KeyChecked :
    (Bytes → Bytes → Outcome Bytes)
    → Bytes
    → Bytes
    → Disk
    → Bytes
    → Option HttpRequest
    → Option Reply × Disk
    → Type 0
KeyChecked value log_dir stored d raw req result =
    (result ≡ (refused req, d)) ⊎ (HasKey stored raw × (result ≡ let_in value log_dir d req))

right_key :
    (key stored : Bytes)
    → (is_nil key || not (equal key stored)) ≡ false
    → (key ≡ stored) × (stored ≢ [])
right_key [] stored h = absurd (cc h)
right_key (c ∷ key) stored h =
    let same : c ∷ key ≡ stored = ground (arith, equal_iff (c ∷ key) stored, h) in
    (same, λ e. absurd (cc (same ∙ e)))

checked-KeyChecked :
    (value : Bytes → Bytes → Outcome Bytes) (log_dir stored : Bytes) (d : Disk) (raw : Bytes)
    (req : Option HttpRequest)
    → KeyChecked value log_dir stored d raw req (checked value log_dir stored raw d req)
unfolding request_key
checked-KeyChecked value log_dir stored d raw none = inl refl
checked-KeyChecked value log_dir stored d raw (some req) =
    elim (Bool-cases (is_nil (request_key raw) || not (equal (request_key raw) stored))) [
      | inl wrong ↦ rw wrong (inl refl)
      | inr right ↦
          let key = right_key (request_key raw) stored right in
          inr (
            key_of-HasKey stored raw (find (codes "X-API-Key:") raw) key.1 refl key.0,
            rw right refl,
          )
    ]

-- What comes in is let in to the panel's calls only where the stored key, which is not empty, stands
-- behind `X-API-Key:` up to the end of its line. Else it changes no file and is answered, where it is a
-- request at all, with 401, whatever it asks for.
pub unban_connection-KeyChecked :
    (value : Bytes → Bytes → Outcome Bytes) (log_dir stored : Bytes) (d : Disk) (raw : Bytes)
    → KeyChecked value log_dir stored d raw
        (parse_req (c_string raw))
        (unban_connection value log_dir stored d raw)
unfolding unban_connection parse_req c_string find
unban_connection-KeyChecked value log_dir stored d [] = inl refl
unban_connection-KeyChecked value log_dir stored d (c ∷ raw) =
    checked-KeyChecked value log_dir stored d (c ∷ raw) (parse_req (c_string (c ∷ raw)))
