-- ===== src/Service.antt =====
-- The store of the control service, crates/sectiond/src/control_service.rs, as its tables: one list
-- of rows for each table of `init`. The rows of `grants` stand in the order of their query, by
-- `created_at_ms` and `grant_id`; the other lists are in the order of insertion, and a query sorts.
-- A statement fails where a key that the schema calls PRIMARY KEY or UNIQUE stands in the table.
pub mod Grants
pub mod Filesystems
pub mod Shares
pub mod Hooks
pub mod Agents
pub mod Log
pub mod Unchanged
pub mod Reached
use section.Base.{
  ℕ, ◌+◌, zero, suc, max, Bool, true, false, not, ◌&&◌, ◌||◌, Option, none, some, List, [], ◌∷◌,
  ◌++◌, any, filter, find, map, ltb, nat_beq, if◌then◌else◌, ◌==◌, nat_eq, list_eq, Result, ok, err,
  ◌>>=◌, ◌>>◌, guard, is_ok,
}
use section.Base.HashMap.{HashMap}
use section.Base.Text.{Text}
use section.AgentFs.HeadLock.{text_leb}
use section.AgentFs.Access.{
  AgentFsCapability, AgentFsRecord, AgentFsGrantRecord, AgentFsAuthorization,
  authorize_capability_for_fs,
}
use section.AgentFs.Records.{
  AgentFsSourceProfileRecord, AgentFsShareRecord, AgentFsCredentialBindingRecord, AgentFsHookRecord,
  AgentFsEventRecord,
}

-- The `cache` field, which the store leaves at its default, is left out.
pub record SourceConfig : Type 0 where
  pub provider : Text
  pub options : HashMap Text Text

pub record AgentRow : Type 0 where
  pub agent_id : Text
  pub name : Text
  pub auth_token_hash : Text
  pub created_at_ms : ℕ
  pub updated_at_ms : ℕ

pub record InstallationRow : Type 0 where
  pub installation_id : Text
  pub agent_id : Text
  pub created_at_ms : ℕ
  pub updated_at_ms : ℕ

pub record Tables : Type 0 where
  pub agents : List AgentRow
  pub installations : List InstallationRow
  pub source_profiles : List (AgentFsSourceProfileRecord × SourceConfig)
  pub filesystems : List AgentFsRecord
  pub grants : List AgentFsGrantRecord
  pub shares : List AgentFsShareRecord
  pub credential_bindings : List AgentFsCredentialBindingRecord
  pub events : List AgentFsEventRecord
  pub hooks : List AgentFsHookRecord

-- The codes of `AgentFsError`, and the plain messages of `bail!` and of SQL.
pub data ServiceError : Type 0 where
  unknown_agent unknown_fs unknown_hook unknown_profile ambiguous_fs_ref grant_denied : ServiceError
  invalid_agent_id invalid_path_scope malformed_metadata empty_name already_exists : ServiceError
  backing_not_empty mirror_failed sql_error : ServiceError

-- What a transaction reads and writes: an error rolls back, so it carries no tables.
abbrev pub Body : Type 0 → Type 0
Body A = Result ServiceError (Tables × A)

unfoldable pub finish_transaction : {A : Type 0} → Tables → Body A → Tables × Result ServiceError A
finish_transaction before (ok (after, value)) = (after, ok value)
finish_transaction before (err failure) = (before, err failure)

-- A clock reading and the digits of random bytes, which a record is made from.
pub record Stamp : Type 0 where
  pub at : ℕ
  pub random : Text

-- `ORDER BY`, by a Boolean test that the first of two rows comes no later.
module _ {ℓ} {A : Type ℓ} (no_later : A → A → Bool) where
  unfoldable pub insert_by : A → List A → List A
  insert_by x [] = x ∷ []
  insert_by x (y ∷ ys) = let rest = insert_by x ys in if no_later x y then x ∷ y ∷ ys else y ∷ rest

  unfoldable pub order_by : List A → List A
  unfolding insert_by
  order_by [] = []
  order_by (x ∷ xs) = insert_by x (order_by xs)

-- `ORDER BY created_at_ms, id`
abbrev pub key_leb : ℕ × Text → ℕ × Text → Bool
key_leb (at, id) (at', id') = ltb at at' || (nat_beq at at' && text_leb id id')

abbrev pub grant_no_later : AgentFsGrantRecord → AgentFsGrantRecord → Bool
grant_no_later g h = key_leb (g.created_at_ms, g.grant_id) (h.created_at_ms, h.grant_id)

unfoldable pub insert_grant : AgentFsGrantRecord → Tables → Result ServiceError Tables
unfolding insert_by
insert_grant grant t = do
  guard (not (any (λ g. g.grant_id == grant.grant_id) t.grants)) sql_error
  ok (record t { grants = insert_by grant_no_later grant t.grants })

-- `UPDATE grants SET .. WHERE grant_id = ..`, of one row.
unfoldable pub set_grant : AgentFsGrantRecord → AgentFsGrantRecord → AgentFsGrantRecord
set_grant grant row =
    if row.grant_id == grant.grant_id
    then record row {
      role = grant.role;
      capabilities = grant.capabilities;
      path_scopes = grant.path_scopes;
      revoked_at_ms = grant.revoked_at_ms;
      revoked_by = grant.revoked_by;
    }
    else row

unfoldable pub update_grant : AgentFsGrantRecord → Tables → Tables
unfolding set_grant
update_grant grant t = record t { grants = map (set_grant grant) t.grants }

-- `COALESCE(MAX(seq), 0)` of the events of a filesystem.
unfoldable pub max_seq : Text → List AgentFsEventRecord → ℕ
max_seq fs_id [] = 0
max_seq fs_id (event ∷ events) =
    let rest = max_seq fs_id events in if event.fs_id == fs_id then max event.seq rest else rest

unfoldable pub next_event_seq : Text → Tables → ℕ
unfolding max_seq
next_event_seq fs_id t = max_seq fs_id t.events + 1

unfoldable pub insert_event : AgentFsEventRecord → Tables → Body AgentFsEventRecord
unfolding next_event_seq
insert_event event t = do
  let numbered = record event {
    seq = if ltb 0 event.seq then event.seq else next_event_seq event.fs_id t;
  }
  guard (not (any (λ e. e.event_id == event.event_id) t.events)) sql_error
  ok (record t { events = t.events ++ numbered ∷ [] }, numbered)

abbrev pub event_no_later : AgentFsEventRecord → AgentFsEventRecord → Bool
event_no_later e f =
    ltb e.seq f.seq
    || (nat_beq e.seq f.seq && key_leb (e.created_at_ms, e.event_id) (f.created_at_ms, f.event_id))

unfoldable pub list_events : Text → Tables → List AgentFsEventRecord
unfolding order_by
list_events fs_id t = order_by event_no_later (filter (λ e. e.fs_id == fs_id) t.events)

-- `find_filesystems_by` with one of its two fields, then the `match` on what it found: one row is the
-- answer, no row asks `next`, and several are an error.
unfoldable pub one_of :
    List AgentFsRecord
    → Result ServiceError (Option AgentFsRecord)
    → Result ServiceError (Option AgentFsRecord)
one_of [] next = next
one_of (fs ∷ []) next = ok (some fs)
one_of (fs ∷ other ∷ rest) next = err ambiguous_fs_ref

unfoldable pub by_reference :
    Option AgentFsRecord → Text → Tables → Result ServiceError (Option AgentFsRecord)
unfolding one_of
by_reference (some fs) fs_ref t = ok (some fs)
by_reference none fs_ref t =
    one_of (filter (λ fs. fs.source_name == fs_ref) t.filesystems)
      (one_of (filter (λ fs. fs.name == fs_ref) t.filesystems) (ok none))

unfoldable pub find_filesystem : Text → Tables → Result ServiceError (Option AgentFsRecord)
unfolding by_reference
find_filesystem fs_ref t = by_reference (find (λ fs. fs.fs_id == fs_ref) t.filesystems) fs_ref t

-- `ok_or_else`
abbrev pub found : {A : Type 0} → ServiceError → Option A → Result ServiceError A
found failure none = err failure
found failure (some a) = ok a

-- `self.find_filesystem(fs_id)?.ok_or_else(..)?`
unfoldable pub known_filesystem : Text → Tables → Result ServiceError AgentFsRecord
unfolding find_filesystem
known_filesystem fs_ref t = find_filesystem fs_ref t >>= found unknown_fs

-- `self.authorize_capability_for_fs(..)?`, for its error alone.
unfoldable pub require_capability :
    AgentFsRecord → Text → AgentFsCapability → Tables → Result ServiceError (Unit {0})
unfolding authorize_capability_for_fs
require_capability fs agent_id capability t =
    guard (is_ok (authorize_capability_for_fs fs t.grants agent_id capability)) grant_denied

unfoldable pub agent_exists : Text → Tables → Bool
agent_exists agent_id t = any (λ a. a.agent_id == agent_id) t.agents
