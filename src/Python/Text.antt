-- ===== src/Python/Text.antt =====
-- `str`: `strip`, `in`, `join`, `startswith`, slices and `upper`, over code points.
use Prim.Native.String.{◌++◌ as append}
use ecommerce_after_sales_sy.Prelude.{
  ℕ, zero, suc, Char, code, String, ◌≡◌, refl, Bool, true, false, ◌&&◌, ◌||◌, List, [], ◌∷◌, leb,
  ◌==◌, str_eq, if◌then◌else◌,
}

-- The code points that `str.isspace` accepts.
abbrev pub is_space_code : ℕ → Bool
is_space_code c =
    (leb 9 c && leb c 13)
    || (leb 28 c && leb c 32)
    || c == 0x85
    || c == 0xa0
    || c == 0x1680
    || (leb 0x2000 c && leb c 0x200a)
    || c == 0x2028
    || c == 0x2029
    || c == 0x202f
    || c == 0x205f
    || c == 0x3000

abbrev pub is_empty : String → Bool
is_empty String.[] = true
is_empty (String.◌∷◌ c s) = false

-- `bool(s)`
abbrev pub is_text : String → Bool
is_text String.[] = false
is_text (String.◌∷◌ c s) = true

unfoldable pub lstrip : String → String
lstrip String.[] = String.[]
lstrip (String.◌∷◌ c s) =
    let rest = lstrip s in if is_space_code (code c) then rest else String.◌∷◌ c s

drop_blank : Char → String → String
drop_blank c r = if is_space_code (code c) && is_empty r then String.[] else String.◌∷◌ c r

unfoldable pub rstrip : String → String
unfolding drop_blank
rstrip String.[] = String.[]
rstrip (String.◌∷◌ c s) = drop_blank c (rstrip s)

unfoldable pub strip : String → String
unfolding lstrip rstrip
strip s = rstrip (lstrip s)

-- `s.startswith(t)`
unfoldable pub has_prefix : String → String → Bool
has_prefix s String.[] = true
has_prefix String.[] (String.◌∷◌ d t) = false
has_prefix (String.◌∷◌ c s) (String.◌∷◌ d t) = code c == code d && has_prefix s t

-- `t in s`
unfoldable pub contains : String → String → Bool
unfolding has_prefix
contains t String.[] = is_empty t
contains t (String.◌∷◌ c s) = has_prefix (String.◌∷◌ c s) t || contains t s

-- `s.endswith(("Z", "z"))`
unfoldable pub ends_with_z : String → Bool
ends_with_z String.[] = false
ends_with_z (String.◌∷◌ c String.[]) = code c == b'Z' || code c == b'z'
ends_with_z (String.◌∷◌ c (String.◌∷◌ d s)) = ends_with_z (String.◌∷◌ d s)

-- `s.endswith(t)`
unfoldable pub has_suffix : String → String → Bool
has_suffix t String.[] = is_empty t
has_suffix t (String.◌∷◌ c s) = str_eq (String.◌∷◌ c s) t || has_suffix t s

-- `s[:-1]`
unfoldable pub drop_last : String → String
drop_last String.[] = String.[]
drop_last (String.◌∷◌ c String.[]) = String.[]
drop_last (String.◌∷◌ c (String.◌∷◌ d s)) = String.◌∷◌ c (drop_last (String.◌∷◌ d s))

-- `s[:n]`
unfoldable pub slice_to : ℕ → String → String
slice_to zero s = String.[]
slice_to (suc n) String.[] = String.[]
slice_to (suc n) (String.◌∷◌ c s) = String.◌∷◌ c (slice_to n s)

-- `sep.join(texts)`
unfoldable pub join : String → List String → String
join sep [] = String.[]
join sep (x ∷ []) = x
join sep (x ∷ y ∷ r) = append x (append sep (join sep (y ∷ r)))

-- `x in xs`
unfoldable pub mem : String → List String → Bool
mem x [] = false
mem x (y ∷ ys) = str_eq x y || mem x ys

-- `dict.fromkeys(xs)`: the first of equal texts, in order. `seen` holds the keys so far.
unfoldable pub from_keys : List String → List String → List String
unfolding mem
from_keys seen [] = []
from_keys seen (x ∷ xs) =
    let new = x ∷ from_keys (x ∷ seen) xs in
    let old = from_keys seen xs in if mem x seen then old else new

unfoldable pub dedup : List String → List String
unfolding from_keys
dedup xs = from_keys [] xs

strip_test : strip "  a b \n" ≡ "a b"
unfolding strip
strip_test = refl

contains_test : contains "图片" "商品图片" ≡ true
unfolding contains
contains_test = refl

dedup_test : dedup ("a" ∷ "b" ∷ "a" ∷ []) ≡ "a" ∷ "b" ∷ []
unfolding dedup
dedup_test = refl
