-- ===== src/Metadata/GoPath.antt =====
-- The functions of Go's `path` package that core uses on IDs, on the elements between the slashes.
pub mod Clean
use mathlib.Core.List.{reverse}
use laforge.Base.{
  String, Bool, true, false, ◌||◌, Option, none, some, List, [], ◌∷◌, ◌++◌, str_eq, if◌then◌else◌,
}

abbrev pub FilePath : Type 0
FilePath = List String

-- path.IsAbs: the text starts with a slash, so its first element is empty and there is a second.
unfoldable pub is_abs : FilePath → Bool
is_abs (s ∷ t ∷ r) = str_eq s ""
is_abs p = false

or_element : Option String → String → Option String
or_element (some t) s = some t
or_element none s = if str_eq s "" then none else some s

-- The last element that is not empty: what is left before the trailing slashes.
last_element : FilePath → Option String
unfolding or_element
last_element [] = none
last_element (s ∷ r) = or_element (last_element r) s

no_element : FilePath → String
no_element (s ∷ t ∷ r) = "/"
no_element p = "."

get_or_root : Option String → FilePath → String
unfolding no_element
get_or_root (some t) p = t
get_or_root none p = no_element p

-- path.Base
unfoldable pub base : FilePath → String
unfolding last_element get_or_root
base p = get_or_root (last_element p) p

-- ".." takes the last element away. At the root it is dropped; a relative path keeps it.
pop : Bool → FilePath → FilePath
pop true [] = []
pop false [] = ".." ∷ []
pop rooted (t ∷ acc) = if str_eq t ".." then ".." ∷ t ∷ acc else acc

clean_step : Bool → FilePath → String → FilePath
unfolding pop
clean_step rooted acc s =
    if str_eq s "" || str_eq s "." then acc else if str_eq s ".." then pop rooted acc else s ∷ acc

-- The elements seen so far, the last one first.
clean_loop : Bool → FilePath → FilePath → FilePath
unfolding clean_step
clean_loop rooted acc [] = acc
clean_loop rooted acc (s ∷ r) = clean_loop rooted (clean_step rooted acc s) r

rebuild : Bool → FilePath → FilePath
rebuild true [] = "" ∷ "" ∷ []
rebuild true (s ∷ r) = "" ∷ s ∷ r
rebuild false [] = "." ∷ []
rebuild false (s ∷ r) = s ∷ r

-- path.Clean
unfoldable pub clean : FilePath → FilePath
unfolding clean_loop rebuild is_abs
clean p = rebuild (is_abs p) (reverse (clean_loop (is_abs p) [] p))

-- What stands before the last slash.
drop_last : FilePath → FilePath
drop_last [] = []
drop_last (s ∷ []) = []
drop_last (s ∷ t ∷ r) = s ∷ drop_last (t ∷ r)

-- path.Dir: the text up to the last slash, cleaned.
unfoldable pub dir : FilePath → FilePath
unfolding drop_last clean_loop rebuild is_abs
dir p = rebuild (is_abs p) (reverse (clean_loop (is_abs p) [] (drop_last p)))

-- strings.Split("", "/") is the one empty element.
unfoldable pub is_blank : FilePath → Bool
is_blank [] = true
is_blank (s ∷ []) = str_eq s ""
is_blank p = false

non_empty : FilePath → FilePath
non_empty [] = []
non_empty (s ∷ r) = let rest = non_empty r in if str_eq s "" then rest else s ∷ rest

join_clean : FilePath → FilePath
unfolding clean
join_clean [] = "" ∷ []
join_clean (s ∷ r) = clean (s ∷ r)

-- path.Join of an ID and elements without slashes: the empty ones do not count.
unfoldable pub join : FilePath → FilePath → FilePath
unfolding is_blank non_empty join_clean
join p q = join_clean (if is_blank p then non_empty q else p ++ non_empty q)
