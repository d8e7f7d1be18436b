-- ===== src/Emulator/Record/Paths.antt =====
-- The path of a trace's second file, in `ExecutionContext::SetTracePath` of
-- src/emulator/execution_context.cpp, with `std::filesystem::path` on a POSIX system: the name of a
-- file follows the last slash, and its extension starts at its last dot, unless that is the first
-- character or the name is `..`.
use linx_model.Base.{Option, none, some, [], ◌∷◌, ◌++◌, ◌==◌, if◌then◌else◌}
use linx_model.Base.Text.{Bytes, codes}
use linx_model.Isa.Asm.{same_bytes}

-- The directory, up to its last slash, and the name.
unfoldable pub split_name : Bytes → Bytes × Bytes
split_name [] = ([], [])
split_name (c ∷ cs) =
    let (dir, name) = split_name cs in
    elim dir [
      | [] ↦ if c == b'/' then (c ∷ [], name) else ([], c ∷ name)
      | d ∷ ds ↦ (c ∷ d ∷ ds, name)
    ]

-- What stands before the last dot.
unfoldable pub before_last_dot : Bytes → Option Bytes
before_last_dot [] = none
before_last_dot (c ∷ cs) = elim (before_last_dot cs) [
  | some front ↦ some (c ∷ front)
  | none ↦ if c == b'.' then some [] else none
]

abbrev some_stem : Option Bytes → Option Bytes
some_stem none = none
some_stem (some []) = none
some_stem (some (c ∷ cs)) = some (c ∷ cs)

-- The name without its extension, where it has one.
unfoldable pub stem_of : Bytes → Option Bytes
unfolding before_last_dot
stem_of name = if same_bytes name (codes "..") then none else some_stem (before_last_dot name)

-- `has_extension() ? replace_extension(".dump") : += ".dump"`.
unfoldable pub dump_path : Bytes → Bytes
unfolding split_name stem_of
dump_path path =
    let (dir, name) = split_name path in
    elim (stem_of name) [
      | none ↦ path ++ codes ".dump"
      | some front ↦ dir ++ (front ++ codes ".dump")
    ]

-- `parent_path() / name`, up to slashes that follow one another.
unfoldable pub beside : Bytes → Bytes → Bytes
unfolding split_name
beside path name = (split_name path).0 ++ name
