-- ===== src/Text.antt =====
-- The functions of Go's package strings that the program calls, over a text as the list of its
-- Unicode code points. On valid UTF-8, which is what a JSON decoder produces, cutting, searching
-- and comparing code points and bytes agree. `equal_fold` is exact where one side is ASCII, as in
-- every call of the program; the upper case of the letters beyond ASCII is an argument of `to_upper`,
-- but for the two whose upper case is in ASCII.
pub mod Slices
pub mod Folding
pub mod Splitting
use Prim.Native.Char.{code}
use mathlib.Core.List.{reverse}
use keymaker.Prelude.{
  ℕ, zero, suc, ◌+◌, ◌-◌, String, Bool, true, false, ◌&&◌, ◌||◌, Option, none, some, List, [], ◌∷◌,
  ◌++◌, ltb, leb, ◌==◌, nat_equality, list_equality, if◌then◌else◌, length,
}

abbrev pub Text : Type 0
Text = List ℕ

-- A literal of the source.
abbrev pub text : String → Text
text String.[] = []
text (String.◌∷◌ c s) = code c ∷ text s

module _ {ℓ} {A : Type ℓ} where
  abbrev pub take : ℕ → List A → List A
  take zero xs = []
  take (suc n) [] = []
  take (suc n) (x ∷ xs) = x ∷ take n xs

  abbrev pub drop : ℕ → List A → List A
  drop zero xs = xs
  drop (suc n) [] = []
  drop (suc n) (x ∷ xs) = drop n xs

  abbrev pub drop_while : (A → Bool) → List A → List A
  drop_while p [] = []
  drop_while p (x ∷ xs) = let rest = drop_while p xs in if p x then rest else x ∷ xs

unfoldable pub has_prefix : Text → Text → Bool
has_prefix s [] = true
has_prefix [] (c ∷ p) = false
has_prefix (d ∷ s) (c ∷ p) = d == c && has_prefix s p

unfoldable pub has_suffix : Text → Text → Bool
has_suffix s p = leb (length p) (length s) && drop (length s - length p) s == p

unfoldable pub trim_suffix : Text → Text → Text
unfolding has_suffix
trim_suffix s p = if has_suffix s p then take (length s - length p) s else s

abbrev pub map_suc : Option ℕ → Option ℕ
map_suc none = none
map_suc (some n) = some (suc n)

-- `strings.Index`; -1 is `none`.
unfoldable pub index : Text → Text → Option ℕ
unfolding has_prefix
index [] p = if has_prefix [] p then some 0 else none
index (c ∷ s) p = let later = index s p in if has_prefix (c ∷ s) p then some 0 else map_suc later

abbrev pub onto_first : ℕ → List Text → List Text
onto_first c [] = (c ∷ []) ∷ []
onto_first c (t ∷ ts) = (c ∷ t) ∷ ts

-- `strings.Split` at one ASCII character: never empty.
unfoldable pub split : ℕ → Text → List Text
split sep [] = [] ∷ []
split sep (c ∷ s) = let rest = split sep s in if c == sep then [] ∷ rest else onto_first c rest

-- `unicode.IsSpace`
unfoldable pub is_space : ℕ → Bool
is_space c =
    (leb 9 c && leb c 13)
    || c == 32
    || c == 0x85
    || c == 0xa0
    || c == 0x1680
    || (leb 0x2000 c && leb c 0x200a)
    || c == 0x2028
    || c == 0x2029
    || c == 0x202f
    || c == 0x205f
    || c == 0x3000

unfoldable pub trim_space : Text → Text
unfolding is_space
trim_space s = reverse (drop_while is_space (reverse (drop_while is_space s)))

-- The simple case folding of ASCII letters and of the two other characters that fold to one:
-- U+212A (Kelvin sign) to k and U+017F (long s) to s.
unfoldable pub fold : ℕ → ℕ
fold c =
    if leb b'A' c && leb c b'Z'
    then c + 32
    else if c == 0x212a
    then b'k'
    else if c == 0x17f
    then b's'
    else c

unfoldable pub equal_fold : Text → Text → Bool
unfolding fold
equal_fold [] [] = true
equal_fold (c ∷ s) (d ∷ t) = fold c == fold d && equal_fold s t
equal_fold _ _ = false

-- `unicode.ToUpper`: U+0131 (dotless i) and U+017F (long s) go to ASCII letters; `beyond` has the
-- others beyond ASCII.
unfoldable pub upper : (ℕ → ℕ) → ℕ → ℕ
upper beyond c =
    if leb b'a' c && leb c b'z'
    then c - 32
    else if ltb c 128
    then c
    else if c == 0x131
    then b'I'
    else if c == 0x17f
    then b'S'
    else beyond c

-- `strings.ToUpper`
unfoldable pub to_upper : (ℕ → ℕ) → Text → Text
unfolding upper
to_upper beyond [] = []
to_upper beyond (c ∷ s) = upper beyond c ∷ to_upper beyond s

-- `strings.Join`
unfoldable pub join : List Text → Text → Text
join [] sep = []
join (t ∷ []) sep = t
join (t ∷ ts) sep = t ++ (sep ++ join ts sep)

-- The comparison of two strings by `<`.
unfoldable pub less : Text → Text → Bool
less s [] = false
less [] (d ∷ t) = true
less (c ∷ s) (d ∷ t) = let rest = less s t in if c == d then rest else ltb c d

-- `strings.Cut` at one character.
unfoldable pub cut : ℕ → Text → Option (Text × Text)
cut sep [] = none
cut sep (c ∷ s) = elim (cut sep s) [
  | none ↦ if c == sep then some ([], s) else none
  | some (before, after) ↦ if c == sep then some ([], s) else some (c ∷ before, after)
]
