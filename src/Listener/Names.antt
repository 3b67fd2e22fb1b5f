-- ===== src/Listener/Names.antt =====
-- The event types by their names: what `updateState` tells apart, read off its table once.
use plaklet.Base.{
  ◌≡◌, refl, ap, subst, String, ◌<>◌, not, Bool, true, false, Option, none, some, [], ◌∷◌, All, Map,
  lookup, ◌==◌, string_eq, Comparable, if◌then◌else◌, ◌&&◌, arith, Bool-cases, eq_iff, inl, inr,
}
use plaklet.Listener.Kinds.{
  Entity, Outcome, Kind, path, directory, file, xattr, symlink, object, chunk, started, ok, error,
  cached, counted, import_start, vfs_start, vfs_end, index_start, index_end, commit_start, iostats,
  result, ignored, kinds, or_ignored, event_kind,
}

-- The type of the event that tells of an entity that something happened to it.
abbrev pub entity_name : Entity → String
entity_name path = "path"
entity_name directory = "directory"
entity_name file = "file"
entity_name xattr = "xattr"
entity_name symlink = "symlink"
entity_name object = "object"
entity_name chunk = "chunk"

abbrev pub event_name : Entity → Outcome → String
event_name n started = entity_name n
event_name n ok = entity_name n <> ".ok"
event_name n error = entity_name n <> ".error"
event_name n cached = entity_name n <> ".cached"

lookup-All :
    (P : String → Kind → Type 0) (type : String) (table : Map Kind)
    → All (λ entry. P entry.0 entry.1) table
    → (lookup type table ≡ none → P type ignored)
    → P type (or_ignored (lookup type table))
unfolding lookup
lookup-All P type [] h absent = absent refl
lookup-All P type ((k, v) ∷ table) (p, h) absent = elim (Bool-cases (k == type)) [
  | inl e ↦ rw e (subst (λ t. P t v) ((Comparable.decides string_eq k type).0 e) p)
  | inr e ↦ rw e (lookup-All P type table h (λ n. absent (rw e n)))
]

-- A test of kinds that holds of exactly the kind of one event type, and not of `ignored`.
abbrev agrees : (Kind → Bool) → String → Map Kind → Bool
agrees q name [] = not (q ignored)
agrees q name ((k, v) ∷ table) =
    let rest = agrees q name table in
    if k == name then (if q v then rest else false) else if q v then false else rest

abbrev is_there : Option Kind → Bool
is_there none = false
is_there (some k) = true

agrees-lookup :
    (q : Kind → Bool) (name type : String) (table : Map Kind)
    → agrees q name table ≡ true
    → q (or_ignored (lookup type table)) ≡ (type == name && is_there (lookup name table))
unfolding lookup
agrees-lookup q name type [] h = ground (arith, h)
agrees-lookup q name type ((k, v) ∷ table) h =
    ground
      (arith, agrees-lookup q name type table, h, eq_iff k type, eq_iff k name, eq_iff type name)

-- `q` tells the events of the type `name` from all others.
abbrev pub tells : (Kind → Bool) → String → Bool
tells q name = agrees q name kinds && is_there (lookup name kinds)

pub tells-event_kind :
    (q : Kind → Bool) (name type : String)
    → tells q name ≡ true
    → q (event_kind type) ≡ (type == name)
unfolding event_kind
tells-event_kind q name type h = in_table kinds h
  where
    in_table :
        (table : Map Kind)
        → (agrees q name table && is_there (lookup name table)) ≡ true
        → q (or_ignored (lookup type table)) ≡ (type == name)
    in_table table h = ground (arith, h, agrees-lookup q name type table)

-- Whether a kind is that of an entity and an outcome.
abbrev pub same_entity : Entity → Entity → Bool
same_entity path path = true
same_entity directory directory = true
same_entity file file = true
same_entity xattr xattr = true
same_entity symlink symlink = true
same_entity object object = true
same_entity chunk chunk = true
same_entity _ _ = false

abbrev pub same_outcome : Outcome → Outcome → Bool
same_outcome started started = true
same_outcome ok ok = true
same_outcome error error = true
same_outcome cached cached = true
same_outcome _ _ = false

abbrev pub counts : Entity → Outcome → Kind → Bool
counts n o (counted m p) = same_entity m n && same_outcome p o
counts n o _ = false

tells-counts : (n : Entity) (o : Outcome) → tells (counts n o) (event_name n o) ≡ true
unfolding kinds lookup
tells-counts path started = refl
tells-counts path ok = refl
tells-counts path error = refl
tells-counts path cached = refl
tells-counts directory started = refl
tells-counts directory ok = refl
tells-counts directory error = refl
tells-counts directory cached = refl
tells-counts file started = refl
tells-counts file ok = refl
tells-counts file error = refl
tells-counts file cached = refl
tells-counts xattr started = refl
tells-counts xattr ok = refl
tells-counts xattr error = refl
tells-counts xattr cached = refl
tells-counts symlink started = refl
tells-counts symlink ok = refl
tells-counts symlink error = refl
tells-counts symlink cached = refl
tells-counts object started = refl
tells-counts object ok = refl
tells-counts object error = refl
tells-counts object cached = refl
tells-counts chunk started = refl
tells-counts chunk ok = refl
tells-counts chunk error = refl
tells-counts chunk cached = refl

pub counts-event_kind :
    (n : Entity) (o : Outcome) (type : String)
    → counts n o (event_kind type) ≡ (type == event_name n o)
counts-event_kind n o type = tells-event_kind (counts n o) (event_name n o) type (tells-counts n o)

abbrev pub is_iostats : Kind → Bool
is_iostats iostats = true
is_iostats _ = false

tells-iostats : tells is_iostats "iostats" ≡ true
unfolding kinds lookup
tells-iostats = refl

pub iostats-event_kind : (type : String) → is_iostats (event_kind type) ≡ (type == "iostats")
iostats-event_kind type = tells-event_kind is_iostats "iostats" type tells-iostats

-- The phase that an event of a type sets, if it sets one.
abbrev pub named_phase : String → Option String
named_phase type =
    if type == "snapshot.import.start"
    then some "processing"
    else if type == "snapshot.vfs.start"
    then some "building VFS"
    else if type == "snapshot.vfs.end"
    then some ""
    else if type == "snapshot.index.start"
    then some "indexing"
    else if type == "snapshot.index.end"
    then some ""
    else if type == "snapshot.commit.start"
    then some "committing"
    else if type == "result"
    then some "completed"
    else none

-- The phase that the case of a kind sets.
abbrev pub phase_set : Kind → Option String
phase_set import_start = some "processing"
phase_set vfs_start = some "building VFS"
phase_set vfs_end = some ""
phase_set index_start = some "indexing"
phase_set index_end = some ""
phase_set commit_start = some "committing"
phase_set result = some "completed"
phase_set _ = none

absent_differs :
    (type name : String) (table : Map Kind)
    → lookup type table ≡ none
    → is_there (lookup name table) ≡ true
    → (type == name) ≡ false
absent_differs type name table absent known = elim (Bool-cases (type == name)) [
  | inl e ↦
      let same : type ≡ name = (Comparable.decides string_eq type name).0 e in
      let missing : is_there (lookup name table) ≡ false =
        subst (λ t. is_there (lookup t table) ≡ false) same (ap is_there absent) in
      cc (missing, known)
  | inr e ↦ e
]

pub phase_set-event_kind : (type : String) → phase_set (event_kind type) ≡ named_phase type
unfolding event_kind kinds lookup
phase_set-event_kind type =
    lookup-All (λ t k. phase_set k ≡ named_phase t) type kinds (ground arith)
      (λ absent.
        let other = λ (name : String). absent_differs type name kinds absent in
        rw (
          other "snapshot.import.start" refl,
          other "snapshot.vfs.start" refl,
          other "snapshot.vfs.end" refl,
          other "snapshot.index.start" refl,
          other "snapshot.index.end" refl,
          other "snapshot.commit.start" refl,
          other "result" refl,
        ))
