-- ===== src/Json.antt =====
-- JavaScript values as the services handle them: parsed JSON, and `undefined`. Numbers are the
-- natural ones (sizes, offsets, totals). A property of a text or a number reads as `undefined`, and
-- what is no object spreads to nothing.
pub mod Members
pub mod Text
use wazuh_dashboard_security.Base.{
  ℕ, String, Bool, true, false, not, List, [], ◌∷◌, ◌==◌, Dict, if◌then◌else◌, nat_eq, ◌≡◌, refl,
  ap,
}

mutual
  pub data Json : Type 0 where
    undefined null : Json
    bool : Bool → Json
    num : ℕ → Json
    str : String → Json
    arr : Items → Json
    obj : Fields → Json

  pub data Items : Type 0 where
    nil : Items
    cons : Json → Items → Items

  pub data Fields : Type 0 where
    end : Fields
    field : String → Json → Fields → Fields

abbrev pub elems : Items → List Json
elems nil = []
elems (cons v vs) = v ∷ elems vs

abbrev pub items : List Json → Items
items [] = nil
items (v ∷ vs) = cons v (items vs)

pub elems-items : (vs : List Json) → elems (items vs) ≡ vs
elems-items [] = refl
elems-items (v ∷ vs) = ap (λ l. v ∷ l) (elems-items vs)

abbrev pub props : Fields → Dict Json
props end = []
props (field k v fs) = (k, v) ∷ props fs

abbrev pub fields : Dict Json → Fields
fields [] = end
fields ((k, v) ∷ m) = field k v (fields m)

abbrev pub array : List Json → Json
array vs = arr (items vs)

abbrev pub object : Dict Json → Json
object m = obj (fields m)

abbrev pub texts : List String → List Json
texts [] = []
texts (s ∷ ss) = str s ∷ texts ss

abbrev pub text_array : List String → Json
text_array ss = array (texts ss)

-- Boolean(v)
abbrev pub truthy : Json → Bool
truthy undefined = false
truthy null = false
truthy (bool b) = b
truthy (num n) = not (nat_eq n 0)
truthy (str s) = not (s == "")
truthy (arr _) = true
truthy (obj _) = true

-- v === undefined || v === null
abbrev pub is_nullish : Json → Bool
is_nullish undefined = true
is_nullish null = true
is_nullish _ = false

-- a ?? b and a || b
abbrev pub nullish : Json → Json → Json
nullish a b = if is_nullish a then b else a

abbrev pub or_else : Json → Json → Json
or_else a b = if truthy a then a else b

-- The default of a destructured property: used on `undefined` only.
abbrev pub default : Json → Json → Json
default undefined d = d
default v d = v

unfoldable pub get_field : String → Fields → Json
get_field k end = undefined
get_field k (field j v fs) = if j == k then v else get_field k fs

-- v?.k
unfoldable pub opt : Json → String → Json
unfolding get_field
opt (obj fs) k = get_field k fs
opt _ k = undefined

-- v?.[0]; of a text, its first character.
unfoldable pub at_zero : Json → Json
unfolding get_field
at_zero (arr (cons v vs)) = v
at_zero (obj fs) = get_field "0" fs
at_zero (str (String.◌∷◌ c s)) = str (String.◌∷◌ c "")
at_zero _ = undefined

-- v?.k1?.k2…
unfoldable pub path : Json → List String → Json
unfolding opt
path v [] = v
path v (k ∷ ks) = path (opt v k) ks

-- The writes of an object literal or a spread: a later one wins, at the earlier one's place.
unfoldable pub set_field : String → Json → Fields → Fields
set_field k v end = field k v end
set_field k v (field j w fs) = if j == k then field j v fs else field j w (set_field k v fs)

unfoldable pub assign : Fields → Fields → Fields
unfolding set_field
assign target end = target
assign target (field k v fs) = assign (set_field k v target) fs

-- What `...v` contributes to an object literal.
abbrev pub spread : Json → Fields
spread (obj fs) = fs
spread _ = end

-- const { k, ...rest } = v
unfoldable pub omit : String → Fields → Fields
omit k end = end
omit k (field j v fs) = if j == k then omit k fs else field j v (omit k fs)

-- SameValueZero, of values that come from different parses: objects and arrays differ.
unfoldable pub same_value : Json → Json → Bool
same_value undefined undefined = true
same_value null null = true
same_value (bool true) (bool true) = true
same_value (bool false) (bool false) = true
same_value (num m) (num n) = nat_eq m n
same_value (str s) (str t) = s == t
same_value _ _ = false
