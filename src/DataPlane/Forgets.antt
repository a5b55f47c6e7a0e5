-- ===== src/DataPlane/Forgets.antt =====
-- What an invalidation takes out of the caches of the data plane, and what it leaves.
use section.Base.{some, Bool, ◌&&◌, ◌||◌, Option, ◌==◌, list_eq, nat_eq, option_eq}
use mathlib.Core.Option
use section.Base.Text.{Text}
use section.Base.HashMap
use section.Base.HashMap.{HashMap}
use section.Core.Paths.{parent_dir, path_matches_prefix}
use section.Core.ContentCache
use section.Core.ContentCache.{ContentCache}
use section.Core.MetadataCache
use section.Core.MetadataCache.{MetadataCache}

-- The paths that an invalidation is about.
abbrev pub meant : Bool → Text → Text → Bool
meant recursive path other = path == other || (recursive && path_matches_prefix other path)

-- The listings that an invalidation is about: also the one of the directory of the path.
abbrev pub meant_listing : Bool → Text → Text → Bool
meant_listing recursive path other =
    path == other
    || (parent_dir path == some other || (recursive && path_matches_prefix other path))
