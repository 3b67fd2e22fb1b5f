-- ===== src/Listener/Volumes.antt =====
-- The sizes of the state sum the sizes of the events of the bus.
use plaklet.Base.{
  ℕ, ◌+◌, ◌<◌, ◌≡◌, refl, ap, u64_of_i64, ℤ, pos, none, some, ◌==◌, string_eq, ◌∙◌, String, Bool,
  true, false, Option, List, [], ◌∷◌, ◌&&◌, u64, u64_mod, if◌then◌else◌, arith, Bool-cases, inl,
  inr,
}
use plaklet.State.{StateCounter, State, zero_state}
use plaklet.Listener.Events.{
  Event, Value, file_info, int64, get_field, as_file_info, as_int64, event_field,
}
use plaklet.Listener.Kinds.{
  Entity, Outcome, Kind, path, directory, file, xattr, symlink, object, chunk, ok, cached, counted,
  iostats, event_kind,
}
use plaklet.Listener.Update.{
  bump, counter_of, on_counter, file_size, xattr_size, beside, summarize, FloatOps, MacOps,
  store_scope, finish, update_kind, update_state, update_states,
}
use plaklet.Listener.Names.{counts, event_name, counts-event_kind}

-- `Size` for what was read, `CachedSize` for what was in the cache.
abbrev pub volume : Outcome → StateCounter → ℕ
volume ok c = c.size
volume cached c = c.cached_size
volume _ c = 0

-- The events that carry a size: those of files and xattrs that are ok or cached.
abbrev pub is_sized : Entity → Outcome → Bool
is_sized file ok = true
is_sized file cached = true
is_sized xattr ok = true
is_sized xattr cached = true
is_sized _ _ = false

-- The bytes of a file: the size of the FileInfo, as an unsigned number; 0 where there is none.
abbrev file_bytes : Option Value → ℕ
file_bytes (some (file_info n)) = u64_of_i64 n
file_bytes _ = 0

abbrev xattr_bytes : Option Value → ℕ
xattr_bytes (some (int64 n)) = u64_of_i64 n
xattr_bytes _ = 0

-- The size that an event of a file carries as `fileinfo`, and one of an xattr as `size`.
abbrev pub weight : Entity → Event → ℕ
weight file e = file_bytes (get_field "fileinfo" e.payload)
weight _ e = xattr_bytes (get_field "size" e.payload)

file_bytes_eq :
    (v : Option Value)
    → u64_of_i64 (elim (elim v as (λ _. Option ℤ) [ none ↦ none | some v ↦ as_file_info v ]) [
      | none ↦ pos 0
      | some n ↦ n
    ])
      ≡ file_bytes v
file_bytes_eq none = refl
file_bytes_eq (some v) = ground arith

xattr_bytes_eq :
    (v : Option Value)
    → u64_of_i64 (elim (elim v as (λ _. Option ℤ) [ none ↦ none | some v ↦ as_int64 v ]) [
      | none ↦ pos 0
      | some n ↦ n
    ])
      ≡ xattr_bytes v
xattr_bytes_eq none = refl
xattr_bytes_eq (some v) = ground arith

file_size-weight : (e : Event) → file_size e ≡ weight file e
unfolding event_field
file_size-weight e = file_bytes_eq (get_field "fileinfo" e.payload)

xattr_size-weight : (e : Event) → xattr_size e ≡ weight xattr e
unfolding event_field
xattr_size-weight e = xattr_bytes_eq (get_field "size" e.payload)

-- Whether a case of the switch adds the size of its event.
abbrev kind_weighs : Entity → Outcome → Kind → Bool
kind_weighs n o k = is_sized n o && counts n o k

-- Whether an event's size counts for an entity and an outcome, by its type.
abbrev event_weighs : Entity → Outcome → Event → Bool
event_weighs n o e = is_sized n o && (e.type == event_name n o)

-- The sum of the sizes of an entity's events of an outcome.
abbrev pub total_weight : Entity → Outcome → List Event → ℕ
total_weight n o [] = 0
total_weight n o (e ∷ es) =
    let rest = total_weight n o es in if event_weighs n o e then weight n e + rest else rest

module _ (n : Entity) (o : Outcome) where
  volume-beside :
      (m : Entity) (p : Outcome) (e : Event) (s : State)
      → volume o (counter_of n (beside m p e s)) ≡ (
          if kind_weighs n o (counted m p)
          then u64 (volume o (counter_of n s) + weight n e)
          else volume o (counter_of n s))
  unfolding beside
  volume-beside path p e s = ground arith
  volume-beside directory p e s = ground arith
  volume-beside file p e s = ground (arith, file_size-weight e)
  volume-beside xattr p e s = ground (arith, xattr_size-weight e)
  volume-beside symlink p e s = ground arith
  volume-beside object p e s = ground arith
  volume-beside chunk p e s = ground arith

  volume-bump : (p : Outcome) (c : StateCounter) → volume o (bump p c) ≡ volume o c
  unfolding bump
  volume-bump p c = ground arith

  volume-on_counter :
      (m : Entity) (p : Outcome) (s : State)
      → volume o (counter_of n (on_counter m (bump p) s)) ≡ volume o (counter_of n s)
  unfolding on_counter
  volume-on_counter path p s = ground (arith, volume-bump p s.paths)
  volume-on_counter directory p s = ground (arith, volume-bump p s.dirs)
  volume-on_counter file p s = ground (arith, volume-bump p s.files)
  volume-on_counter xattr p s = ground (arith, volume-bump p s.xattrs)
  volume-on_counter symlink p s = ground (arith, volume-bump p s.symlinks)
  volume-on_counter object p s = ground (arith, volume-bump p s.objects)
  volume-on_counter chunk p s = ground (arith, volume-bump p s.chunks)

  module _ (floats : FloatOps) (macs : MacOps) where
    counter_of-store_scope :
        (scope : Option String) (e : Event) (s : State)
        → counter_of n (store_scope floats macs scope e s) ≡ counter_of n s
    unfolding store_scope
    counter_of-store_scope scope e s = ground arith

    volume-update_kind :
        (k : Kind) (e : Event) (s : State)
        → volume o (counter_of n (update_kind floats macs k e s)) ≡ (
            if kind_weighs n o k
            then u64 (volume o (counter_of n s) + weight n e)
            else volume o (counter_of n s))
    unfolding update_kind summarize finish
    volume-update_kind (counted m p) e s =
        volume-beside m p e (on_counter m (bump p) s)
        ∙ ap (λ v. if kind_weighs n o (counted m p) then u64 (v + weight n e) else v)
            (volume-on_counter m p s)
    volume-update_kind iostats e s = ap (volume o) (counter_of-store_scope _ e s) ∙ ground arith
    volume-update_kind k e s = ground arith

    volume-update_states :
        (es : List Event) (s : State)
        → volume o (counter_of n s) < u64_mod
        → volume o (counter_of n (update_states floats macs s es))
          ≡ u64 (volume o (counter_of n s) + total_weight n o es)
    unfolding update_states update_state
    volume-update_states [] s h = omega arith
    volume-update_states (e ∷ es) s h =
        let step = volume-update_kind (event_kind e.type) e s in
        let s' : State = update_state floats macs s e in
        let sized : kind_weighs n o (event_kind e.type) ≡ event_weighs n o e =
          ap (λ t. is_sized n o && t) (counts-event_kind n o e.type) in
        elim (Bool-cases (event_weighs n o e)) [
          | inl yes' ↦
              let moved : volume o (counter_of n s')
                  ≡ u64 (volume o (counter_of n s) + weight n e) =
                rw (sized ∙ yes') at step in
              rw yes' (volume-update_states es s' (omega (arith, moved)) ∙ omega (arith, moved))
          | inr no' ↦
              let kept : volume o (counter_of n s') ≡ volume o (counter_of n s) =
                rw (sized ∙ no') at step in
              rw no' (volume-update_states es s' (omega (arith, kept)) ∙ omega (arith, kept))
        ]

zero-volume : (n : Entity) (o : Outcome) → volume o (counter_of n zero_state) ≡ 0
zero-volume n o = ground arith

-- After any events from the zero state, the size and the cached size of files and of xattrs are the
-- sums, modulo 2^64, of the sizes that their ok and their cached events carry (as `fileinfo` and as
-- `size`, and 0 where that is missing or of another type); no other counter has a size.
pub volume-events :
    (floats : FloatOps) (macs : MacOps) (n : Entity) (o : Outcome) (es : List Event)
    → volume o (counter_of n (update_states floats macs zero_state es)) ≡ u64 (total_weight n o es)
volume-events floats macs n o es =
    volume-update_states n o floats macs es zero_state (omega (arith, zero-volume n o))
    ∙ ap (λ t. u64 (t + total_weight n o es)) (zero-volume n o)
    ∙ omega arith
