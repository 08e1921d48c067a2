-- ===== src/Memory/Mapper.antt =====
-- `PartitionMapper` (backend/python-daemon/orchestrator/active_partition/mapper.py). A resolved
-- path is absolute, in the style of POSIX: the list of the names behind its root.
use Prim.Native.Char.{Char, code}
use Prim.Native.String.{[] as empty, ◌∷◌ as ◌∷ˢ◌, ◌++◌ as ◌++ˢ◌}
use agent_backend.Prelude.{
  String, Bool, true, false, ◌&&◌, ◌||◌, Option, none, some, List, [], ◌∷◌, ◌==◌, leb, eqb,
  if◌then◌else◌, Attempt, done, raised, join,
}
use agent_backend.Json.{str, obj, field, end, Codec}

abbrev pub Parts : Type 0
Parts = List String

-- str(path)
unfoldable pub path_text : Parts → String
unfolding join
path_text parts = "/" ++ˢ join "/" parts

-- path.parent
abbrev pub parent_of : Parts → Parts
parent_of [] = []
parent_of (name ∷ []) = []
parent_of (name ∷ next ∷ rest) = name ∷ parent_of (next ∷ rest)

-- path.relative_to(root), with `none` for its ValueError.
unfoldable pub relative_to : Parts → Parts → Option Parts
relative_to parts [] = some parts
relative_to [] (r ∷ root) = none
relative_to (name ∷ parts) (r ∷ root) =
    let rest = relative_to parts root in if name == r then rest else none

abbrev pub name_of : Parts → String
name_of [] = ""
name_of (name ∷ []) = name
name_of (name ∷ next ∷ rest) = name_of (next ∷ rest)

-- The texts before and behind the last dot.
abbrev pub at_last_dot : String → Option (String × String)
at_last_dot empty = none
at_last_dot (c ∷ˢ s) = elim (at_last_dot s) [
  | some (before, behind) ↦ some (c ∷ˢ before, behind)
  | none ↦ if eqb (code c) b'.' then some ("", s) else none
]

-- path.stem
unfoldable pub stem : Parts → String
stem parts = elim (at_last_dot (name_of parts)) [
  | none ↦ name_of parts
  | some (before, behind) ↦ if before == "" || behind == "" then name_of parts else before
]

-- [a-z0-9]
abbrev pub is_slug : Char → Bool
is_slug c = (leb b'a' (code c) && leb (code c) b'z') || (leb b'0' (code c) && leb (code c) b'9')

-- re.sub("[^a-z0-9]+", "-", …): whether the last character belonged to a run that is replaced.
abbrev pub dashes : Bool → String → String
dashes gap empty = ""
dashes gap (c ∷ˢ s) =
    let inside = dashes true s in
    let outside = dashes false s in
    if is_slug c then c ∷ˢ outside else if gap then inside else "-" ++ˢ inside

abbrev pub lstrip_dash : String → String
lstrip_dash empty = ""
lstrip_dash (c ∷ˢ s) = let rest = lstrip_dash s in if eqb (code c) b'-' then rest else c ∷ˢ s

abbrev attach_dash : Char → String → String
attach_dash c empty = if eqb (code c) b'-' then "" else c ∷ˢ empty
attach_dash c (d ∷ˢ s) = c ∷ˢ (d ∷ˢ s)

abbrev pub rstrip_dash : String → String
rstrip_dash empty = ""
rstrip_dash (c ∷ˢ s) = attach_dash c (rstrip_dash s)

abbrev pub or_project : String → String
or_project s = if s == "" then "project" else s

-- `lower` is `str.lower`.
unfoldable pub project_id_from_relpath : (lower : String → String) → String → String
project_id_from_relpath lower relpath =
    "lmstudio-" ++ˢ or_project (rstrip_dash (lstrip_dash (dashes false (lower relpath))))

-- The functions of Python and of the file system that the mapper calls: str.lower, the hexadecimal
-- SHA-1 of a text, the resolved path of a text, and json.dumps.
pub record Outside : Type 0 where
  pub lower : String → String
  pub sha1_hex : String → String
  pub resolve : String → Parts
  pub codec : Codec

unfoldable pub project_scope_hash : Outside → String → String
project_scope_hash outside project_id =
    let codec = outside.codec in
    outside.sha1_hex (codec.compact (obj (field "project_id" (str project_id) end)))

pub data NullStatus : Type 0 where
  policy_block needs_project_folder : NullStatus

pub record PartitionMapping : Type 0 where
  pub conversation_id : String
  pub folder_relpath : String
  pub project_id : String
  pub project_scope_hash : String
  pub conversation_path : String

-- PartitionMappingResult, or NullPartitionResult, whose message goes with its status.
pub data Mapping : Type 0 where
  mapped : PartitionMapping → Mapping
  unmapped : NullStatus → (conversation_path : String) → Mapping

abbrev pub mapping_of : Outside → Parts → String → Mapping
mapping_of outside path relpath = mapped (record {
  conversation_id = stem path;
  folder_relpath = relpath;
  project_id = project_id_from_relpath outside.lower relpath;
  project_scope_hash = project_scope_hash outside (project_id_from_relpath outside.lower relpath);
  conversation_path = path_text path;
})

-- The folder below the root, or the ValueError of `relative_to` when the path is the root itself.
abbrev pub in_folder : Outside → Parts → Option Parts → Attempt Mapping
in_folder outside path none = raised "is not in the subpath of"
in_folder outside path (some []) = done (unmapped needs_project_folder (path_text path))
in_folder outside path (some (name ∷ rest)) =
    done (mapping_of outside path (join "/" (name ∷ rest)))

unfoldable pub map_conversation : Outside → Parts → String → Attempt Mapping
unfolding relative_to stem path_text project_id_from_relpath project_scope_hash join
map_conversation outside root conversation_json_path =
    let path = outside.resolve conversation_json_path in
    elim (relative_to path root) [
      | none ↦ done (unmapped policy_block (path_text path))
      | some below ↦ in_folder outside path (relative_to (parent_of path) root)
    ]
