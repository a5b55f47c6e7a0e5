-- ===== src/Service/Hooks.antt =====
-- Hooks of the control service, crates/sectiond/src/control_service.rs: `add_hook`, `list_hooks`
-- and `remove_hook`.
use section.Base.{
  Bool, not, ◌&&◌, Option, List, [], ◌∷◌, ◌++◌, any, filter, find, ◌==◌, nat_eq, list_eq, Result,
  ok, ◌>>=◌, ◌>>◌, guard,
}
use section.Base.Text.{Text}
use section.AgentFs.Access.{read, manage}
use section.AgentFs.Records.{AgentFsHookRecord}
use section.AgentFs.NewRecords.{hook_record}
use section.Service.Grants.{with_error}
use section.Service.{
  Tables, ServiceError, malformed_metadata, unknown_hook, sql_error, Body, Stamp,
  finish_transaction, order_by, key_leb, known_filesystem, found, require_capability,
}

unfoldable pub insert_hook : AgentFsHookRecord → Tables → Result ServiceError Tables
insert_hook hook t = do
  guard (not (any (λ h. h.hook_id == hook.hook_id) t.hooks)) sql_error
  ok (record t { hooks = t.hooks ++ hook ∷ [] })

unfoldable pub find_hook : Text → Text → Tables → Option AgentFsHookRecord
find_hook fs_id hook_id t = find (λ h. h.fs_id == fs_id && h.hook_id == hook_id) t.hooks

unfoldable pub add_body : Text → Text → Text → List Text → Stamp → Tables → Body AgentFsHookRecord
unfolding known_filesystem require_capability hook_record insert_hook
add_body fs_id actor name command stamp t = do
  fs ← known_filesystem fs_id t
  require_capability fs actor manage t
  hook ←
      with_error malformed_metadata (hook_record fs.fs_id name command actor stamp.random stamp.at)
  t' ← insert_hook hook t
  ok (t', hook)

unfoldable pub add_hook :
    Text → Text → Text → List Text → Stamp → Tables → Tables × Result ServiceError AgentFsHookRecord
unfolding add_body finish_transaction
add_hook fs_id actor name command stamp t =
    finish_transaction t (add_body fs_id actor name command stamp t)

abbrev pub hook_no_later : AgentFsHookRecord → AgentFsHookRecord → Bool
hook_no_later h k = key_leb (h.created_at_ms, h.hook_id) (k.created_at_ms, k.hook_id)

unfoldable pub list_hooks : Text → Text → Tables → Result ServiceError (List AgentFsHookRecord)
unfolding known_filesystem require_capability order_by
list_hooks fs_id actor t = do
  fs ← known_filesystem fs_id t
  require_capability fs actor read t
  ok (order_by hook_no_later (filter (λ h. h.fs_id == fs.fs_id) t.hooks))

unfoldable pub remove_body : Text → Text → Text → Tables → Body AgentFsHookRecord
unfolding known_filesystem require_capability find_hook
remove_body fs_id actor hook_id t = do
  fs ← known_filesystem fs_id t
  require_capability fs actor manage t
  hook ← found unknown_hook (find_hook fs.fs_id hook_id t)
  ok (record t { hooks = filter (λ h. not (h.hook_id == hook_id)) t.hooks }, hook)

unfoldable pub remove_hook :
    Text → Text → Text → Tables → Tables × Result ServiceError AgentFsHookRecord
unfolding remove_body finish_transaction
remove_hook fs_id actor hook_id t = finish_transaction t (remove_body fs_id actor hook_id t)
