-- ===== src/Exceptions/Text.antt =====
-- Python's `str` as a list of code points: the character classes and string methods that
-- exceptions.py uses.
use Prim.Native.Char.{code}
use Prim.Native.String.{String}
use conda_presto.Prelude.{
  ℕ, Bool, true, false, ◌&&◌, ◌||◌, List, [], ◌∷◌, ◌++◌, leb, nat_eq, if◌then◌else◌,
}

abbrev pub Text : Type 0
Text = List ℕ

-- The code points of a literal.
abbrev pub codes : String → Text
codes String.[] = []
codes (String.◌∷◌ c s) = code c ∷ codes s

abbrev between : ℕ → ℕ → ℕ → Bool
between lo hi c = leb lo c && leb c hi

abbrev pub is_letter : ℕ → Bool
is_letter c = between b'a' b'z' c || between b'A' b'Z' c

-- `[0-9+.-]`
abbrev pub is_lead : ℕ → Bool
is_lead c = between b'0' b'9' c || (between 43 43 c || between 45 46 c)

-- `[A-Za-z0-9+.-]`
abbrev pub is_scheme : ℕ → Bool
is_scheme c = is_letter c || is_lead c

-- `str.isspace` of one character, which is also what `\s` matches
abbrev pub is_space : ℕ → Bool
is_space c =
    between 9 13 c
    || (between 28 32 c
        || (between 133 133 c
            || (between 160 160 c
                || (between 5760 5760 c
                    || (between 8192 8202 c
                        || (between 8232 8233 c
                            || (between 8239 8239 c
                                || (between 8287 8287 c || between 12288 12288 c))))))))

-- the boundaries of `str.splitlines`
abbrev pub is_line_break : ℕ → Bool
is_line_break c = between 10 13 c || (between 28 30 c || (between 133 133 c || between 8232 8233 c))

abbrev cons_head : ℕ → List Text → List Text
cons_head c [] = (c ∷ []) ∷ []
cons_head c (l ∷ ls) = (c ∷ l) ∷ ls

-- `after_return`: the character before was `\r`, so a `\n` belongs to it
split_lines : Bool → Text → List Text
split_lines after_return [] = []
split_lines after_return (c ∷ cs) =
    let rest = split_lines (leb 13 c && leb c 13) cs in
    if after_return && (leb 10 c && leb c 10)
    then rest
    else if is_line_break c
    then [] ∷ rest
    else cons_head c rest

-- `message.splitlines()`
unfoldable pub splitlines : Text → List Text
unfolding split_lines
splitlines = split_lines false

-- `"\n".join(lines)`
unfoldable pub join_lines : List Text → Text
join_lines [] = []
join_lines (l ∷ []) = l
join_lines (l ∷ m ∷ ls) = l ++ (10 ∷ join_lines (m ∷ ls))

-- The longest beginning of characters in a class, and what is behind it.
unfoldable pub take_while : (ℕ → Bool) → Text → Text
take_while p [] = []
take_while p (c ∷ cs) = let rest = take_while p cs in if p c then c ∷ rest else []

unfoldable pub drop_while : (ℕ → Bool) → Text → Text
drop_while p [] = []
drop_while p (c ∷ cs) = let rest = drop_while p cs in if p c then rest else c ∷ cs

-- a character in front of what is left of a text without its trailing space
keep : ℕ → Text → Text
keep c [] = if is_space c then [] else c ∷ []
keep c (d ∷ ds) = c ∷ d ∷ ds

strip_end : Text → Text
unfolding keep
strip_end [] = []
strip_end (c ∷ cs) = keep c (strip_end cs)

-- `line.strip()`
unfoldable pub strip : Text → Text
unfolding strip_end drop_while
strip l = strip_end (drop_while is_space l)

-- `line.startswith(prefix)`
unfoldable pub starts_with : Text → Text → Bool
starts_with l [] = true
starts_with [] (p ∷ ps) = false
starts_with (c ∷ cs) (p ∷ ps) = (leb c p && leb p c) && starts_with cs ps

unfoldable pub text_eq : Text → Text → Bool
text_eq [] [] = true
text_eq (c ∷ cs) (d ∷ ds) = (leb c d && leb d c) && text_eq cs ds
text_eq _ _ = false
