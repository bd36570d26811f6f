-- ===== src/Jobs/Intent.antt =====
-- crates/control/src/intent.rs: idempotency keys and If-Match revisions of owner requests, and the
-- answers stored under a key. The advisory lock that serialises one operation is implied, since a
-- transaction here runs whole.
use hostlet_app.Base.{
  ℕ, ◌+◌, ◌-◌, ◌*◌, Bool, not, ◌&&◌, ◌||◌, Option, none, some, [], ◌∷◌, ◌++◌, any, ltb, ◌==◌,
  if◌then◌else◌,
}
use hostlet_app.Base.Text.{Text, text_eq, len, bytes, is_empty, is_ascii_control, is_ascii_digit}
use hostlet_app.Base.Table.{select}
use hostlet_app.Api.{Result, ok, err, bad_request, precondition_required, internal}
use hostlet_app.Jobs.Model.{IdempotencyRow, Database}

-- A header: absent, not readable as text, or text.
pub data Header : Type 0 where
  absent unreadable : Header
  text : Text → Header

unfoldable pub check_key : Text → Result Text
unfolding bytes len
check_key key =
    if is_empty key || (ltb 128 (len key) || any is_ascii_control (bytes key))
    then err (bad_request "invalid_idempotency_key")
    else ok key

unfoldable pub idempotency_key : Header → Result Text
unfolding check_key
idempotency_key absent = err (bad_request "idempotency_key_required")
idempotency_key unreadable = err (bad_request "idempotency_key_required")
idempotency_key (text key) = check_key key

-- The digits of `i64::from_str`, read from the left onto `n`.
unfoldable pub read_digits : ℕ → Text → Option ℕ
read_digits n [] = some n
read_digits n (c ∷ s) =
    let rest = read_digits (10 * n + (c - b'0')) s in if is_ascii_digit c then rest else none

-- `i64::from_str` on a value whose sign is a plus or absent; a negative one is never positive.
unfoldable pub parse_positive : Text → Option ℕ
unfolding read_digits
parse_positive [] = none
parse_positive (c ∷ s) =
    elim (if c == b'+'
      then (if is_empty s then none else read_digits 0 s)
      else read_digits 0 (c ∷ s)) [
        | none ↦ none
        | some n ↦ if ltb 0 n && ltb n 9223372036854775808 then some n else none
      ]

-- `strip_suffix('"')`.
unfoldable pub strip_quote : Text → Option Text
strip_quote [] = none
strip_quote (c ∷ []) = if c == b'"' then some [] else none
strip_quote (c ∷ d ∷ s) = elim (strip_quote (d ∷ s)) [ none ↦ none | some r ↦ some (c ∷ r) ]

-- `strip_prefix('"')` and then the suffix.
unfoldable pub unquote : Text → Option Text
unfolding strip_quote
unquote [] = none
unquote (c ∷ s) = if c == b'"' then strip_quote s else none

unfoldable pub if_match_revision : Header → Result ℕ
unfolding parse_positive unquote
if_match_revision absent = err precondition_required
if_match_revision unreadable = err (bad_request "malformed_if_match")
if_match_revision (text value) = elim (unquote value) [
  | none ↦ err (bad_request "malformed_if_match")
  | some digits ↦ elim (parse_positive digits) [
    | none ↦ err (bad_request "malformed_if_match")
    | some revision ↦ ok revision
  ]
]

pub data Replay (A : Type 0) : Type 0 where
  miss : Replay A
  matched : A → Replay A
  changed : Replay A

abbrev pub is_record : ℕ → Text → Text → IdempotencyRow → Bool
is_record actor operation key r =
    r.actor_account_id == actor && (text_eq r.operation operation && text_eq r.key key)

-- `parse` is `serde_json::from_value` at the response's type.
unfoldable pub replay :
    {A : Type 0} → (Text → Option A) → Database → ℕ → Text → Text → Text → Result (Replay A)
replay parse db actor operation key hash =
    elim (select (is_record actor operation key) db.idempotency_records) [
      | none ↦ ok miss
      | some r ↦
          if not (text_eq r.request_hash hash) then ok changed else (elim (parse r.response_body) [
            | none ↦ err internal
            | some response ↦ ok (matched response)
          ])
    ]

-- An INSERT under the primary key (actor, operation, key).
unfoldable pub store_replay : Database → ℕ → Text → Text → Text → ℕ → Text → Option Database
store_replay db actor operation key hash response_status body =
    if any (is_record actor operation key) db.idempotency_records
    then none
    else some (record db {
      idempotency_records =
          db.idempotency_records
          ++ record {
            actor_account_id = actor;
            operation = operation;
            key = key;
            request_hash = hash;
            response_status = response_status;
            response_body = body;
          }
            ∷ [];
    })
