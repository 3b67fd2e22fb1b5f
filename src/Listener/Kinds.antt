-- ===== src/Listener/Kinds.antt =====
-- The event types that `updateState` distinguishes: the labels of its `switch`. Labels are distinct
-- constants, so the switch is a look-up in their table; a type that is not there is ignored.
use plaklet.Base.{String, Option, none, some, ◌∷◌, [], Map, lookup}

-- The things that are counted, and what may happen to one.
pub data Entity : Type 0 where
  path directory file xattr symlink object chunk : Entity

pub data Outcome : Type 0 where
  started ok error cached : Outcome

pub data Kind : Type 0 where
  counted : Entity → Outcome → Kind
  workflow_start workflow_end fs_summary : Kind
  import_start import_done vfs_start vfs_end index_start index_end commit_start : Kind
  iostats result ignored : Kind

unfoldable pub kinds : Map Kind
kinds =
    ("workflow.start", workflow_start)
    ∷ ("workflow.end", workflow_end)
    ∷ ("path", counted path started)
    ∷ ("path.ok", counted path ok)
    ∷ ("path.error", counted path error)
    ∷ ("path.cached", counted path cached)
    ∷ ("directory", counted directory started)
    ∷ ("directory.ok", counted directory ok)
    ∷ ("directory.error", counted directory error)
    ∷ ("directory.cached", counted directory cached)
    ∷ ("file", counted file started)
    ∷ ("file.ok", counted file ok)
    ∷ ("file.error", counted file error)
    ∷ ("file.cached", counted file cached)
    ∷ ("xattr", counted xattr started)
    ∷ ("xattr.ok", counted xattr ok)
    ∷ ("xattr.error", counted xattr error)
    ∷ ("xattr.cached", counted xattr cached)
    ∷ ("symlink", counted symlink started)
    ∷ ("symlink.ok", counted symlink ok)
    ∷ ("symlink.error", counted symlink error)
    ∷ ("symlink.cached", counted symlink cached)
    ∷ ("object", counted object started)
    ∷ ("object.ok", counted object ok)
    ∷ ("object.error", counted object error)
    ∷ ("object.cached", counted object cached)
    ∷ ("chunk", counted chunk started)
    ∷ ("chunk.ok", counted chunk ok)
    ∷ ("chunk.error", counted chunk error)
    ∷ ("chunk.cached", counted chunk cached)
    ∷ ("fs.summary", fs_summary)
    ∷ ("snapshot.import.start", import_start)
    ∷ ("snapshot.import.done", import_done)
    ∷ ("snapshot.vfs.start", vfs_start)
    ∷ ("snapshot.vfs.end", vfs_end)
    ∷ ("snapshot.index.start", index_start)
    ∷ ("snapshot.index.end", index_end)
    ∷ ("snapshot.commit.start", commit_start)
    ∷ ("iostats", iostats)
    ∷ ("result", result)
    ∷ []

abbrev pub or_ignored : Option Kind → Kind
or_ignored none = ignored
or_ignored (some k) = k

unfoldable pub event_kind : String → Kind
unfolding kinds lookup
event_kind type = or_ignored (lookup type kinds)
