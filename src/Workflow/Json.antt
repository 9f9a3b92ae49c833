-- ===== src/Workflow/Json.antt =====
-- JSON values, and the functions on them of packages/workflows/src/validation.ts and manager.ts. The
-- keys of an object stand in sorted order: each function here that looks at the order sorts them.
-- Numbers are integers.
use Prim.Native.String
use nuxt_laravelize.Common.{
  ℕ, String, refl, Bool, false, ◌&&◌, str_eq, ltb, ◌==◌, if◌then◌else◌, ◌/◌, ◌≡◌, true, ◌%◌, arith,
  eq_refl, eq_iff, ap, both,
}
use Prim.Native.Char.{Char, code}
use Prim.Native.String.{[], ◌∷◌}
use nuxt_laravelize.Common.Text.{decimal}

mutual
  pub data Json : Type 0 where
    null : Json
    bool : Bool → Json
    minus num : ℕ → Json
    text : String → Json
    arr : Items → Json
    obj : Fields → Json

  pub data Items : Type 0 where
    nil : Items
    cons : Json → Items → Items

  pub data Fields : Type 0 where
    end : Fields
    field : String → Json → Fields → Fields

infixr 66 ◌+++◌
abbrev pub ◌+++◌ : String → String → String
s +++ t = String.◌++◌ s t

abbrev hex_digit : ℕ → String
hex_digit n =
    if ltb n 10
    then decimal n
    else if n == 10
    then "a"
    else if n == 11
    then "b"
    else if n == 12
    then "c"
    else if n == 13
    then "d"
    else if n == 14
    then "e"
    else "f"

-- One character of `JSON.stringify` of a text.
unfoldable pub escaped : Char → String
unfolding decimal
escaped c =
    let n = code c in
    if n == 34
    then "\\\""
    else if n == 92
    then "\\\\"
    else if n == 8
    then "\\b"
    else if n == 9
    then "\\t"
    else if n == 10
    then "\\n"
    else if n == 12
    then "\\f"
    else if n == 13
    then "\\r"
    else if ltb n 32
    then "\\u00" +++ hex_digit (n / 16) +++ hex_digit (n % 16)
    else (c ∷ "")

escaped_text : String → String
escaped_text [] = ""
escaped_text (c ∷ s) = escaped c +++ escaped_text s

unfoldable pub quoted : String → String
unfolding escaped_text escaped
quoted s = "\"" +++ escaped_text s +++ "\""

-- `canonicalJson` of validation.ts, and `canonicalizeMaterialized` of manager.ts. The commas stand
-- before each item but the first.
unfoldable mutual
  pub canonical_json : Json → String
  canonical_json null = "null"
  canonical_json (bool true) = "true"
  canonical_json (bool false) = "false"
  canonical_json (num n) = decimal n
  canonical_json (minus n) = "-" +++ decimal n
  canonical_json (text s) = quoted s
  canonical_json (arr xs) = "[" +++ canonical_items "" xs +++ "]"
  canonical_json (obj fs) = "{" +++ canonical_fields "" fs +++ "}"

  pub canonical_items : String → Items → String
  canonical_items comma nil = ""
  canonical_items comma (cons x xs) = comma +++ canonical_json x +++ canonical_items "," xs

  pub canonical_fields : String → Fields → String
  canonical_fields comma end = ""
  canonical_fields comma (field k v fs) =
      comma +++ quoted k +++ ":" +++ canonical_json v +++ canonical_fields "," fs

-- `sameStructuredValue` on JSON.
unfoldable mutual
  pub same_json : Json → Json → Bool
  same_json null null = true
  same_json (bool true) (bool true) = true
  same_json (bool false) (bool false) = true
  same_json (num n) (num m) = n == m
  same_json (minus n) (minus m) = n == m
  same_json (text s) (text t) = str_eq s t
  same_json (arr xs) (arr ys) = same_items xs ys
  same_json (obj fs) (obj gs) = same_fields fs gs
  same_json _ _ = false

  pub same_items : Items → Items → Bool
  same_items nil nil = true
  same_items (cons x xs) (cons y ys) = same_json x y && same_items xs ys
  same_items _ _ = false

  pub same_fields : Fields → Fields → Bool
  same_fields end end = true
  same_fields (field k v fs) (field j w gs) = str_eq k j && same_json v w && same_fields fs gs
  same_fields _ _ = false

mutual
  unfolding same_json same_items same_fields

  json_refl : (x : Json) → same_json x x ≡ true
  json_refl null = refl
  json_refl (bool true) = refl
  json_refl (bool false) = refl
  json_refl (num n) = ground arith
  json_refl (minus n) = ground arith
  json_refl (text s) = eq_refl s
  json_refl (arr xs) = items_refl xs
  json_refl (obj fs) = fields_refl fs

  items_refl : (xs : Items) → same_items xs xs ≡ true
  items_refl nil = refl
  items_refl (cons x xs) = ground (arith, json_refl x, items_refl xs)

  fields_refl : (fs : Fields) → same_fields fs fs ≡ true
  fields_refl end = refl
  fields_refl (field k v fs) = ground (arith, eq_refl k, json_refl v, fields_refl fs)

pub same_json_refl : (x : Json) → same_json x x ≡ true
same_json_refl x = json_refl x

field_eq :
    {k j : String} {v w : Json} {fs gs : Fields}
    → k ≡ j
    → v ≡ w
    → fs ≡ gs
    → field k v fs ≡ field j w gs
field_eq a b c = cc (a, b, c)

mutual
  unfolding same_json same_items same_fields

  json_sound : (x y : Json) → same_json x y ≡ true → x ≡ y
  json_sound null y h = ground (arith, h)
  json_sound (bool true) y h = ground (arith, h)
  json_sound (bool false) y h = ground (arith, h)
  json_sound (num n) y h = ground (arith, h)
  json_sound (minus n) y h = ground (arith, h)
  json_sound (text s) (text t) h = ground (arith, h, eq_iff s t)
  json_sound (arr xs) (arr ys) h = ap arr (items_sound xs ys h)
  json_sound (obj fs) (obj gs) h = ap obj (fields_sound fs gs h)
  json_sound x y h = absurd (ground (arith, h))

  items_sound : (xs ys : Items) → same_items xs ys ≡ true → xs ≡ ys
  items_sound nil ys h = ground (arith, h)
  items_sound (cons x xs) nil h = absurd (cc h)
  items_sound (cons x xs) (cons y ys) h = ground (arith, h, json_sound x y, items_sound xs ys)

  fields_sound : (fs gs : Fields) → same_fields fs gs ≡ true → fs ≡ gs
  fields_sound end gs h = ground (arith, h)
  fields_sound (field k v fs) end h = absurd (cc h)
  fields_sound (field k v fs) (field j w gs) h =
      let (first, others) = both (str_eq k j && same_json v w) (same_fields fs gs) h in
      let (keys, values) = both (str_eq k j) (same_json v w) first in
      field_eq ((eq_iff k j).0 keys) (json_sound v w values) (fields_sound fs gs others)

pub same_json-eq : (x y : Json) → same_json x y ≡ true → x ≡ y
same_json-eq x y h = json_sound x y h

canonical_test :
    canonical_json
      (obj (field "a" (arr (cons (num 1) (cons null nil))) (field "b" (text "x\ty") end)))
    ≡ "{\"a\":[1,null],\"b\":\"x\\ty\"}"
unfolding canonical_json canonical_items canonical_fields quoted decimal
canonical_test = refl
