-- ===== src/Wordpress/Paths.antt =====
-- The paths of content members (examples/wordpress-client/main.go, extractInto): filepath.Clean,
-- over the parts between slashes, and the test that rejects traversal.
pub mod Plain
use binfinity_addon_sdk.Prelude.{
  Bool, List, Option, Str, [], codes, false, has_prefix, if◌then◌else◌, is_empty, none, some,
  str_eq, ℕ, ◌++◌, ◌==◌, ◌||◌, ◌∷◌,
}

unfoldable pub push_first : ℕ → List Str → List Str
push_first c [] = (c ∷ []) ∷ []
push_first c (p ∷ ps) = (c ∷ p) ∷ ps

-- The parts between the slashes.
unfoldable pub split : Str → List Str
unfolding push_first
split [] = [] ∷ []
split (c ∷ s) = let rest = split s in if c == b'/' then [] ∷ rest else push_first c rest

abbrev pub dot : Str
dot = codes "."

abbrev pub dot_dot : Str
dot_dot = codes ".."

-- ".." takes the last part away; it stays where there is none to take, unless the path is rooted.
up : Bool → List Str → List Str
unfolding str_eq
up rooted [] = if rooted then [] else dot_dot ∷ []
up rooted (p ∷ ps) = if str_eq p dot_dot then dot_dot ∷ p ∷ ps else ps

push_part : Bool → Str → List Str → List Str
unfolding up
push_part rooted c stack =
    if is_empty c || str_eq c dot
    then stack
    else if str_eq c dot_dot
    then up rooted stack
    else c ∷ stack

abbrev pub reverse_onto : List Str → List Str → List Str
reverse_onto [] ps = ps
reverse_onto (p ∷ stack) ps = reverse_onto stack (p ∷ ps)

-- The parts that filepath.Clean leaves; `stack` holds those so far, the last first.
unfoldable pub clean_parts : Bool → List Str → List Str → List Str
unfolding push_part
clean_parts rooted stack [] = reverse_onto stack []
clean_parts rooted stack (c ∷ cs) = clean_parts rooted (push_part rooted c stack) cs

-- clean == ".." or it starts with "../"
unfoldable pub is_up : List Str → Bool
is_up [] = false
is_up (p ∷ ps) = str_eq p dot_dot

-- The parts, below the root, that extractInto writes to; `none` where it rejects the path.
unfoldable pub target : Str → Option (List Str)
unfolding clean_parts is_up split has_prefix
target rel =
    let rooted = has_prefix rel (codes "/") in
    let parts = clean_parts rooted [] (split rel) in
    if rooted || is_up parts then none else some parts

-- strings joined by slashes, as filepath.Rel returns a path below its base
unfoldable pub join : List Str → Str
join [] = []
join (p ∷ []) = p
join (p ∷ q ∷ ps) = p ++ (b'/' ∷ join (q ∷ ps))
