-- ===== src/Memory/Path.antt =====
-- services/memory_rs/src/path.rs: page paths, their validation, and their place on disk.
-- A `PathBuf` is the list of its components, so `push` of one name appends it.
pub mod Valid
pub mod RoundTrip
pub mod Resolve
mod Tests
use agentspace.Common.{
  ℕ, ◌-◌, ◌==◌, Bool, true, false, ◌||◌, ◌&&◌, Option, none, some, List, [], ◌∷◌, ◌++◌, PartialEq,
  ◌↔◌, ◌≡◌, arith, ap, list_eq, nat_eq, list_beq_iff, Bytes, codes, Result, ok, err, ◌>>=◌, ◌>>◌,
  ltb, leb, if◌then◌else◌, length, take, starts_with, strip_suffix, contains_byte, split, join,
}
use agentspace.Memory.Error.{
  M, IoError, invalid_path, io, io_not_found, io_other, path_empty, path_too_long, path_absolute,
  path_backslash, segment_empty, segment_dots, segment_too_long, segment_control, too_many_segments,
  symlink,
}

abbrev pub max_path_segments : ℕ
max_path_segments = 32

abbrev pub max_path_length : ℕ
max_path_length = 512

abbrev pub max_segment_length : ℕ
max_segment_length = 128

abbrev pub slash : ℕ
slash = b'/'

abbrev pub markdown_extension : Bytes
markdown_extension = codes ".md"

pub record PagePath : Type 0 where
  pub segments : List Bytes

unfoldable pub path_beq : PagePath → PagePath → Bool
path_beq p q = p.segments == q.segments

pub path_beq_iff : (p q : PagePath) → (path_beq p q ≡ true) ↔ (p ≡ q)
unfolding path_beq
path_beq_iff p q = (
  λ h. ap (λ s. record { segments = s }) ((list_beq_iff p.segments q.segments).0 h),
  λ e. (list_beq_iff p.segments q.segments).1 (ap (λ (r : PagePath). r.segments) e),
)

instance abbrev pub path_eq : PartialEq PagePath
path_eq = record { eq = path_beq; eq_iff = path_beq_iff }

-- `chars().any(char::is_control)`: the code points below 0x20, 0x7f, and 0x80 to 0x9f, which UTF-8
-- writes as 0xc2 and the code point itself.
unfoldable pub has_control : Bytes → Bool
has_control [] = false
has_control (c ∷ []) = ltb c 0x20 || c == 0x7f
has_control (c ∷ d ∷ s) =
    ltb c 0x20 || c == 0x7f || (c == 0xc2 && leb 0x80 d && leb d 0x9f) || has_control (d ∷ s)

-- The tests on one part of the split, in the order of the code.
unfoldable pub check_segment : Bytes → Bytes → M (Unit {0})
check_segment input raw =
    if raw == []
    then err (invalid_path input segment_empty)
    else if raw == codes "." || raw == codes ".."
    then err (invalid_path input segment_dots)
    else if ltb max_segment_length (length raw)
    then err (invalid_path input (segment_too_long raw))
    else if has_control raw
    then err (invalid_path input segment_control)
    else ok tt

unfoldable pub check_segments : Bytes → List Bytes → M (List Bytes)
unfolding check_segment
check_segments input [] = ok []
check_segments input (raw ∷ rest) = do
  check_segment input raw
  segments ← check_segments input rest
  ok (raw ∷ segments)

abbrev pub or_self : Option Bytes → Bytes → Bytes
or_self none s = s
or_self (some t) _ = t

-- `input.strip_suffix(".md").unwrap_or(input)`
unfoldable pub trimmed : Bytes → Bytes
trimmed input = or_self (strip_suffix markdown_extension input) input

unfoldable pub count_segments : Bytes → List Bytes → M PagePath
count_segments input segments =
    if ltb max_path_segments (length segments)
    then err (invalid_path input too_many_segments)
    else ok (record { segments = segments })

unfoldable pub parse : Bytes → M PagePath
unfolding trimmed count_segments
parse input =
    if input == []
    then err (invalid_path input path_empty)
    else if ltb max_path_length (length input)
    then err (invalid_path input path_too_long)
    else if starts_with (slash ∷ []) input
    then err (invalid_path input path_absolute)
    else if contains_byte b'\\' input
    then err (invalid_path input path_backslash)
    else do
      segments ← check_segments input (split slash (trimmed input))
      count_segments input segments

unfoldable pub as_str : PagePath → Bytes
as_str p = join slash p.segments

unfoldable pub last_or : Bytes → List Bytes → Bytes
last_or d [] = d
last_or d (s ∷ ss) = last_or s ss

unfoldable pub file_stem : PagePath → Bytes
unfolding last_or
file_stem p = last_or [] p.segments

unfoldable pub parent : PagePath → Option PagePath
parent p =
    if leb (length p.segments) 1
    then none
    else some (record { segments = take (length p.segments - 1) p.segments })

-- What `symlink_metadata` says of a path that is there.
pub data FileType : Type 0 where
  regular directory symbolic_link : FileType

abbrev pub FilePath : Type 0
FilePath = List Bytes

-- `symlink_metadata` of the host, a parameter of what calls it.
abbrev pub Stat : Type 0
Stat = FilePath → Result IoError FileType

abbrev pub shown : FilePath → Bytes
shown path = join slash path

unfoldable pub check_symlink : FilePath → Result IoError FileType → M (Unit {0})
check_symlink path (ok symbolic_link) = err (invalid_path (shown path) symlink)
check_symlink path (ok regular) = ok tt
check_symlink path (ok directory) = ok tt
check_symlink path (err io_not_found) = ok tt
check_symlink path (err (io_other n)) = err (io (io_other n))

unfoldable pub reject_symlink : Stat → FilePath → M (Unit {0})
unfolding check_symlink
reject_symlink stat path = check_symlink path (stat path)

-- The loop of `resolve_within`.
unfoldable pub resolve_from : Stat → FilePath → List Bytes → M FilePath
resolve_from stat current [] = ok current
resolve_from stat current (component ∷ rest) = do
  reject_symlink stat (current ++ component ∷ [])
  resolve_from stat (current ++ component ∷ []) rest

-- The components below the root: the directories, and the file name with its suffix.
unfoldable pub file_components : PagePath → List Bytes
unfolding file_stem
file_components p =
    take (length p.segments - 1) p.segments ++ (file_stem p ++ markdown_extension) ∷ []

unfoldable pub resolve_within : Stat → FilePath → PagePath → M FilePath
unfolding file_components resolve_from
resolve_within stat root p = resolve_from stat root (file_components p)

-- What stands before the last dot of a file name, if it has one.
unfoldable pub before_last_dot : Bytes → Option Bytes
before_last_dot [] = none
before_last_dot (c ∷ s) = elim (before_last_dot s) as (λ _. Option Bytes) [
  | some t ↦ some (c ∷ t)
  | none ↦ if c == b'.' then some [] else none
]

abbrev pub stem_of : Bytes → Option Bytes → Bytes
stem_of name none = name
stem_of name (some []) = name
stem_of name (some (c ∷ t)) = c ∷ t

-- `PathBuf::set_extension("md")` on a file name: a dot that is not the first byte starts the old
-- extension, which is replaced.
unfoldable pub set_extension : Bytes → Bytes
unfolding before_last_dot
set_extension name = stem_of name (before_last_dot name) ++ markdown_extension

unfoldable pub relative_file_path : PagePath → FilePath
unfolding file_stem set_extension
relative_file_path p = take (length p.segments - 1) p.segments ++ set_extension (file_stem p) ∷ []
