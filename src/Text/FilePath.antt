-- ===== src/Text/FilePath.antt =====
-- `path.Clean`, `path.Join`, `path.Dir` and `path.Base`.
use systemboot.Text.Split.{split_on, join}
use systemboot.Base.{
  ℕ, Bool, true, false, not, ◌||◌, List, [], ◌∷◌, ◌++◌, reverse, ◌==◌, if◌then◌else◌, Bytes, equal,
  is_empty, filter,
}

abbrev pub dot : Bytes
dot = b'.' ∷ []

abbrev pub dot_dot : Bytes
dot_dot = b'.' ∷ b'.' ∷ []

-- What `..` does to the elements kept so far, the last one first.
unfoldable pub back : Bool → List Bytes → List Bytes
unfolding equal
back rooted [] = if rooted then [] else dot_dot ∷ []
back rooted (top ∷ r) = if equal top dot_dot then dot_dot ∷ top ∷ r else r

-- The effect of one element of a path on the elements kept so far.
unfoldable pub push_element : Bool → List Bytes → Bytes → List Bytes
unfolding equal back
push_element rooted kept e =
    if is_empty e || equal e dot
    then kept
    else if equal e dot_dot
    then back rooted kept
    else e ∷ kept

abbrev pub is_rooted : Bytes → Bool
is_rooted [] = false
is_rooted (c ∷ s) = c == b'/'

unfoldable pub push_all : Bool → List Bytes → List Bytes → List Bytes
unfolding push_element
push_all rooted kept [] = kept
push_all rooted kept (e ∷ es) = push_all rooted (push_element rooted kept e) es

-- A path from its kept elements.
unfoldable pub print_elements : Bool → List Bytes → Bytes
unfolding join
print_elements true es = b'/' ∷ join (b'/' ∷ []) es
print_elements false [] = dot
print_elements false (e ∷ es) = join (b'/' ∷ []) (e ∷ es)

-- `path.Clean`
unfoldable pub clean : Bytes → Bytes
unfolding split_on push_all print_elements
clean p = print_elements (is_rooted p) (reverse (push_all (is_rooted p) [] (split_on b'/' p)))

abbrev join_nonempty : List Bytes → Bytes
join_nonempty [] = []
join_nonempty (e ∷ es) = clean (join (b'/' ∷ []) (e ∷ es))

-- `path.Join`
unfoldable pub path_join : List Bytes → Bytes
unfolding clean join
path_join es = join_nonempty (filter (λ e. not (is_empty e)) es)

-- Put a byte in front of what is kept of the rest; alone, it is kept if the test says so.
abbrev keep_if : Bool → ℕ → Bytes → Bytes
keep_if b c [] = if b then c ∷ [] else []
keep_if b c (d ∷ r) = c ∷ d ∷ r

-- The part of a path up to its last slash, that included.
unfoldable pub up_to_slash : Bytes → Bytes
up_to_slash [] = []
up_to_slash (c ∷ s) = keep_if (c == b'/') c (up_to_slash s)

-- `path.Dir`
unfoldable pub path_dir : Bytes → Bytes
unfolding up_to_slash clean
path_dir p = clean (up_to_slash p)

-- The text behind the last slash.
unfoldable pub after_slash : Bytes → Bytes → Bytes
after_slash acc [] = acc
after_slash acc (c ∷ s) = after_slash (if c == b'/' then [] else acc ++ (c ∷ [])) s

-- `s` without the slashes at its end.
unfoldable pub trim_slashes : Bytes → Bytes
trim_slashes [] = []
trim_slashes (c ∷ s) = keep_if (not (c == b'/')) c (trim_slashes s)

abbrev slash_if_empty : Bytes → Bytes
slash_if_empty [] = b'/' ∷ []
slash_if_empty (d ∷ r) = d ∷ r

-- `path.Base`
unfoldable pub path_base : Bytes → Bytes
unfolding after_slash trim_slashes
path_base [] = dot
path_base (c ∷ s) = slash_if_empty (after_slash [] (trim_slashes (c ∷ s)))
