-- ===== src/Json/Text.antt =====
-- String(v), as a template literal applies it, the length of a text in UTF-16 units, trim, and the
-- word characters of regular expressions.
use Prim.Native.Char.{code}
use Prim.Native.String
use wazuh_dashboard_security.Base.{
  ℕ, zero, suc, ◌+◌, ◌-◌, List, [], ◌∷◌, ◌/◌, ◌%◌, String, Bool, true, false, ◌&&◌, ◌||◌, ◌==◌, leb,
  ltb, nat_eq, if◌then◌else◌, length,
}
use wazuh_dashboard_security.Json.{
  Json, undefined, null, bool, num, str, arr, obj, Items, nil, cons, elems, opt,
}

infixl 65 ◌&◌
abbrev pub ◌&◌ : String → String → String
s & t = String.◌++◌ s t

abbrev pub utf16_length : String → ℕ
utf16_length String.[] = 0
utf16_length (String.◌∷◌ c s) = (if ltb (code c) 0x10000 then 1 else 2) + utf16_length s

-- The numerals, and the one at a place.
abbrev numerals : List String
numerals = "0" ∷ "1" ∷ "2" ∷ "3" ∷ "4" ∷ "5" ∷ "6" ∷ "7" ∷ "8" ∷ "9" ∷ []

numeral : ℕ → List String → String
numeral place [] = ""
numeral place (s ∷ rest) = if nat_eq place 0 then s else numeral (place - 1) rest

-- More rounds than digits: n rounds serve for n, as a round divides by ten.
written : ℕ → ℕ → String
unfolding numeral
written zero n = numeral n numerals
written (suc rounds) n =
    let last = numeral (n % 10) numerals in
    let front = written rounds (n / 10) in if leb 10 n then front & last else last

unfoldable pub decimal : ℕ → String
unfolding written
decimal n = written n n

-- What an element contributes to a join: undefined and null are empty.
abbrev pub unless_nullish : Json → String → String
unless_nullish undefined s = ""
unless_nullish null s = ""
unless_nullish _ s = s

unfoldable mutual
  unfolding decimal

  pub to_text : Json → String
  to_text undefined = "undefined"
  to_text null = "null"
  to_text (bool true) = "true"
  to_text (bool false) = "false"
  to_text (num n) = decimal n
  to_text (str s) = s
  to_text (arr vs) = join_items vs
  to_text (obj _) = "[object Object]"

  -- Array.prototype.join(",").
  pub join_items : Items → String
  join_items nil = ""
  join_items (cons v vs) = unless_nullish v (to_text v) & join_rest vs

  pub join_rest : Items → String
  join_rest nil = ""
  join_rest (cons v vs) = "," & unless_nullish v (to_text v) & join_rest vs

-- v.length
unfoldable pub js_length : Json → Json
unfolding opt
js_length (arr vs) = num (length (elems vs))
js_length (str s) = num (utf16_length s)
js_length v = opt v "length"

-- The characters that String.prototype.trim takes off: white space and line terminators.
unfoldable pub is_space : ℕ → Bool
is_space c =
    (leb 9 c && leb c 13)
    || nat_eq c 32
    || nat_eq c 160
    || nat_eq c 0x1680
    || (leb 0x2000 c && leb c 0x200a)
    || nat_eq c 0x2028
    || nat_eq c 0x2029
    || nat_eq c 0x202f
    || nat_eq c 0x205f
    || nat_eq c 0x3000
    || nat_eq c 0xfeff

unfoldable pub trim_start : String → String
trim_start String.[] = ""
trim_start (String.◌∷◌ c s) = if is_space (code c) then trim_start s else String.◌∷◌ c s

unfoldable pub trim_end : String → String
trim_end String.[] = ""
trim_end (String.◌∷◌ c s) =
    let rest = trim_end s in if is_space (code c) && rest == "" then "" else String.◌∷◌ c rest

unfoldable pub trim : String → String
unfolding trim_start trim_end
trim s = trim_end (trim_start s)

-- \w of a regular expression.
unfoldable pub is_word : ℕ → Bool
is_word c =
    (leb 48 c && leb c 57) || (leb 65 c && leb c 90) || nat_eq c 95 || (leb 97 c && leb c 122)

unfoldable pub is_prefix : String → String → Bool
is_prefix String.[] s = true
is_prefix (String.◌∷◌ c p) String.[] = false
is_prefix (String.◌∷◌ c p) (String.◌∷◌ d s) = nat_eq (code c) (code d) && is_prefix p s

-- s.includes(part)
unfoldable pub contains : String → String → Bool
unfolding is_prefix
contains part String.[] = part == ""
contains part (String.◌∷◌ c s) = is_prefix part (String.◌∷◌ c s) || contains part s
