-- ===== src/Strings.antt =====
-- Go's packages `strings` and `path`, as far as the program uses them. A string is the list of its
-- code points. Case is that of ASCII, which is all that header names and the scheme `bearer` hold.
pub mod Split
pub mod Search
pub mod Trim
pub mod Last
use go_api_boot.Base.{
  ℕ, ◌+◌, ◌-◌, Str, codes, List, [], ◌∷◌, ◌++◌, map, Bool, true, false, ◌&&◌, ◌||◌, Option, none,
  some, leb, ◌==◌, nat_eq, str_eq, str_beq, if◌then◌else◌, length, drop,
}

-- strings.HasPrefix(s, p)
unfoldable pub has_prefix : Str → Str → Bool
has_prefix s [] = true
has_prefix [] (c ∷ p) = false
has_prefix (d ∷ s) (c ∷ p) = d == c && has_prefix s p

-- strings.TrimPrefix(s, p)
unfoldable pub trim_prefix : Str → Str → Str
unfolding has_prefix
trim_prefix s p = if has_prefix s p then drop (length p) s else s

-- A cut further on, with one more character before it.
abbrev pub later_cut : ℕ → Option (Str × Str) → Option (Str × Str)
later_cut c none = none
later_cut c (some (a, b)) = some (c ∷ a, b)

-- The text before the first `sub` and the text behind it.
unfoldable pub cut : Str → Str → Option (Str × Str)
unfolding has_prefix
cut [] sub = if has_prefix [] sub then some ([], []) else none
cut (c ∷ s) sub =
    let rest = cut s sub in
    if has_prefix (c ∷ s) sub then some ([], drop (length sub) (c ∷ s)) else later_cut c rest

-- strings.Contains(s, sub)
unfoldable pub contains : Str → Str → Bool
unfolding cut
contains s sub = elim (cut s sub) [ none ↦ false | some _ ↦ true ]

-- strings.Replace(s, old, new, 1)
unfoldable pub replace : Str → Str → Str → Str
unfolding cut
replace s old new = elim (cut s old) [ none ↦ s | some (a, b) ↦ a ++ new ++ b ]

-- The first part gets one more character.
abbrev push_first : ℕ → List Str → List Str
push_first c [] = (c ∷ []) ∷ []
push_first c (p ∷ ps) = (c ∷ p) ∷ ps

-- strings.Split(s, sep) for a separator of one character
unfoldable pub split : ℕ → Str → List Str
split sep [] = [] ∷ []
split sep (c ∷ s) = let rest = split sep s in if c == sep then [] ∷ rest else push_first c rest

-- strings.Join(parts, sep)
unfoldable pub join : List Str → Str → Str
join [] sep = []
join (p ∷ []) sep = p
join (p ∷ q ∷ ps) sep = p ++ (sep ++ join (q ∷ ps) sep)

-- unicode.IsSpace
unfoldable pub is_space : ℕ → Bool
is_space c =
    (leb 9 c && leb c 13)
    || c == 0x20
    || c == 0x85
    || c == 0xA0
    || c == 0x1680
    || (leb 0x2000 c && leb c 0x200A)
    || c == 0x2028
    || c == 0x2029
    || c == 0x202F
    || c == 0x205F
    || c == 0x3000

unfoldable pub trim_left : Str → Str
unfolding is_space
trim_left [] = []
trim_left (c ∷ s) = if is_space c then trim_left s else c ∷ s

-- A character before a text whose right end is trimmed.
unfoldable pub push_right : ℕ → Str → Str
unfolding is_space
push_right c [] = if is_space c then [] else c ∷ []
push_right c (d ∷ r) = c ∷ d ∷ r

unfoldable pub trim_right : Str → Str
unfolding push_right
trim_right [] = []
trim_right (c ∷ s) = push_right c (trim_right s)

-- strings.TrimSpace(s)
unfoldable pub trim_space : Str → Str
unfolding trim_left trim_right
trim_space s = trim_left (trim_right s)

unfoldable pub lower : ℕ → ℕ
lower c = if leb b'A' c && leb c b'Z' then c + 32 else c

unfoldable pub upper : ℕ → ℕ
upper c = if leb b'a' c && leb c b'z' then c - 32 else c

-- strings.ToLower(s)
unfoldable pub to_lower : Str → Str
unfolding lower
to_lower = map lower

-- strings.EqualFold(s, t)
unfoldable pub equal_fold : Str → Str → Bool
unfolding to_lower str_beq
equal_fold s t = to_lower s == to_lower t

-- The text behind the last `sep` of the part that is still to scan; `best` if there is none.
pub after_scan : ℕ → Str → Str → Str
after_scan sep best [] = best
after_scan sep best (c ∷ s) = after_scan sep (if c == sep then s else best) s

-- s[strings.LastIndex(s, sep)+1:]
unfoldable pub after_last : ℕ → Str → Str
unfolding after_scan
after_last sep s = after_scan sep s s

unfoldable pub trim_slashes : Str → Str
trim_slashes [] = []
trim_slashes (c ∷ s) = elim (trim_slashes s) [
  | [] ↦ if c == b'/' then [] else c ∷ []
  | d ∷ r ↦ c ∷ d ∷ r
]

abbrev base_of : Str → Str
base_of [] = codes "/"
base_of (c ∷ s) = c ∷ s

-- path.Base(p)
unfoldable pub path_base : Str → Str
unfolding trim_slashes after_last
path_base [] = codes "."
path_base (c ∷ s) = base_of (after_last b'/' (trim_slashes (c ∷ s)))
