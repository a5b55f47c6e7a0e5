-- ===== src/Sync/Resolve/Resolved.antt =====
-- After a conflict was resolved, the next pass over the path has nothing to do.
use section.Base.{string_eq, option_eq}
use section.Base.Text.{Text}
use section.Sync.Backend.{Backend}
use section.Sync.Resolve.Quiet.{Quiet}
