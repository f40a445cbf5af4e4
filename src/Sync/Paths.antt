-- ===== src/Sync/Paths.antt =====
-- crates/peergos-sync/src/sync.rs: relative paths, and the names that `rename_on_conflict` makes.
-- A path is the UTF-8 bytes of its components with `/` between them.
use rust_peergos_client.Common.{
  ℕ, zero, suc, ◌+◌, ◌-◌, ◌*◌, ◌/◌, ◌%◌, ◌^◌, Bool, true, false, ◌&&◌, Option, none, some, [], ◌∷◌,
  ◌++◌, length, take, drop, if◌then◌else◌, ltb, leb, ◌==◌,
}
use rust_peergos_client.Common.Text.{Text}
use rust_peergos_client.Common.Equality.{eq_bytes}

abbrev pub slash : ℕ
slash = 47

abbrev pub dot : ℕ
dot = 46

-- `str::starts_with`.
unfoldable pub starts_with : Text → Text → Bool
starts_with s [] = true
starts_with [] (p ∷ ps) = false
starts_with (c ∷ s) (p ∷ ps) = c == p && starts_with s ps

-- `str::find` of a text, and `str::rfind` of a character: the index of the match.
unfoldable pub find : Text → Text → Option ℕ
find pattern [] = if starts_with [] pattern then some 0 else none
find pattern (c ∷ s) =
    let later : Option ℕ = elim (find pattern s) [ none ↦ none | some i ↦ some (suc i) ] in
    if starts_with (c ∷ s) pattern then some 0 else later

unfoldable pub rfind : ℕ → Text → Option ℕ
rfind b [] = none
rfind b (c ∷ s) = elim (rfind b s) [
  | some i ↦ some (suc i)
  | none ↦ if c == b then some 0 else none
]

-- `split_path`, and with it `Path::parent` (empty where there is no directory) and `Path::file_name`.
unfoldable pub split_path : Text → Text × Text
split_path path = elim (rfind slash path) [
  | some i ↦ (take i path, drop (suc i) path)
  | none ↦ ([], path)
]

abbrev pub parent : Text → Text
parent path = (split_path path).0

abbrev pub file_name : Text → Text
file_name path = (split_path path).1

-- `Path::join` of a name.
unfoldable pub join : Text → Text → Text
join [] name = name
join (c ∷ dir) name = (c ∷ dir) ++ (slash ∷ name)

-- `strip_suffix`.
unfoldable pub strip_suffix : Text → Text → Option Text
strip_suffix s suffix =
    let n = length s - length suffix in
    if leb (length suffix) (length s) && eq_bytes (drop n s) suffix then some (take n s) else none

-- Decimal digits of a `u32`, which has ten at most.
unfoldable pub digits : ℕ → ℕ → Text
digits zero n = []
digits (suc f) n =
    let rest = digits f (n / 10) in if ltb n 10 then (48 + n) ∷ [] else rest ++ ((48 + n % 10) ∷ [])

unfoldable pub show_u32 : ℕ → Text
show_u32 n = digits 10 n

-- `parse::<u32>()`: decimal digits after at most one `+`, in range.
unfoldable pub parse_digits : ℕ → Text → Option ℕ
parse_digits n [] = some n
parse_digits n (c ∷ s) =
    let rest = parse_digits (n * 10 + (c - 48)) s in
    if leb 48 c && leb c 57 && ltb (n * 10 + (c - 48)) (2 ^ 32) then rest else none

unfoldable pub parse_u32 : Text → Option ℕ
parse_u32 [] = none
parse_u32 (c ∷ []) = if c == 43 then none else parse_digits 0 (c ∷ [])
parse_u32 (c ∷ d ∷ s) = if c == 43 then parse_digits 0 (d ∷ s) else parse_digits 0 (c ∷ d ∷ s)

-- "[conflict-" and "]".
abbrev pub marker : Text
marker = 91 ∷ b'c' ∷ b'o' ∷ b'n' ∷ b'f' ∷ b'l' ∷ b'i' ∷ b'c' ∷ b't' ∷ 45 ∷ []

abbrev pub marked : Text → ℕ → Text → Text
marked before version rest = before ++ (marker ++ (show_u32 version ++ (93 ∷ rest)))

abbrev pub or_length : Option ℕ → Text → ℕ
or_length none name = length name
or_length (some i) name = i

-- A name that has the marker at `cs`: what stands before it, its version, and what stands after it.
-- Without a closing bracket `after` is `cs + name.len()`, past the end unless `cs` is 0: `none` is the
-- panic of `name[after..]`.
unfoldable pub marker_parts : Text → ℕ → Option (Text × (ℕ × Text))
marker_parts name cs =
    let close = find (93 ∷ []) (drop cs name) in
    let after : ℕ = elim close [ some i ↦ cs + (i + 1) | none ↦ cs + length name ] in
    let end : ℕ = elim close [ some i ↦ cs + i | none ↦ length name ] in
    let version = take (end - (cs + length marker)) (drop (cs + length marker) name) in
    let ver : ℕ = elim (parse_u32 version) [ some v ↦ v | none ↦ 0 ] in
    if leb after (length name) then some (take cs name, (ver, drop after name)) else none

-- The name for a version, where the name has no marker yet.
unfoldable pub first_candidate : Text → ℕ → Text
first_candidate name version = elim (rfind dot name) [
  | some d ↦ marked (take d name) version (drop d name)
  | none ↦ marked name version []
]
