-- ===== src/Common/Json.antt =====
-- The JSON values that the steps pass to one another, with Python's dict operations and `==`.
-- Numbers are natural; a dict is its fields in insertion order.
use kdevops_ng.Prelude.{
  ℕ, suc, String, ◌≡◌, Bool, true, false, ◌&&◌, Option, none, some, List, [], ◌∷◌, arith, ◌==◌,
  string_eq, nat_eq, if◌then◌else◌,
}

mutual
  pub data Value : Type 0 where
    null : Value
    bool : Bool → Value
    num : ℕ → Value
    str : String → Value
    obj : Fields → Value
    arr : Items → Value

  pub data Fields : Type 0 where
    end : Fields
    field : String → Value → Fields → Fields

  pub data Items : Type 0 where
    nil : Items
    cons : Value → Items → Items

-- `d.get(k)`
unfoldable pub get : String → Fields → Option Value
get k end = none
get k (field j v fs) = if k == j then some v else get k fs

-- `d[k] = v`
unfoldable pub put : String → Value → Fields → Fields
put k v end = field k v end
put k v (field j w fs) = if k == j then field k v fs else field j w (put k v fs)

-- `d.pop(k, None)`
unfoldable pub pop : String → Fields → Fields
pop k end = end
pop k (field j w fs) = let rest = pop k fs in if k == j then rest else field j w rest

-- `{**d, **e}`
unfoldable pub update : Fields → Fields → Fields
update d end = d
update d (field k v fs) = update (put k v d) fs

pub get-put :
    (j k : String) (v : Value) (d : Fields)
    → get j (put k v d) ≡ (if j == k then some v else get j d)
unfolding get put
get-put j k v end = ground arith
get-put j k v (field i w d) = ground (arith, get-put j k v d)

pub get-pop : (j k : String) (d : Fields) → get j (pop k d) ≡ (if j == k then none else get j d)
unfolding get pop
get-pop j k end = ground arith
get-pop j k (field i w d) = ground (arith, get-pop j k d)

-- The truth value of a JSON value.
unfoldable pub truthy : Value → Bool
truthy null = false
truthy (bool b) = b
truthy (num n) = if n == 0 then false else true
truthy (str s) = if s == "" then false else true
truthy (arr nil) = false
truthy (arr (cons _ _)) = true
truthy (obj end) = false
truthy (obj (field _ _ _)) = true

-- A dict literal, and a list of texts.
abbrev pub fields_of : List (String × Value) → Fields
fields_of [] = end
fields_of ((k, v) ∷ l) = field k v (fields_of l)

abbrev pub dict : List (String × Value) → Value
dict l = obj (fields_of l)

abbrev pub items_of : List String → Items
items_of [] = nil
items_of (s ∷ l) = cons (str s) (items_of l)

abbrev pub texts : List String → Value
texts l = arr (items_of l)

abbrev pub size : Fields → ℕ
size end = 0
size (field _ _ fs) = suc (size fs)

-- Python's `==`: `True == 1`, and the order of a dict's keys does not count.
unfoldable mutual
  pub same : Value → Value → Bool
  same null w = elim w [ null ↦ true | _ ↦ false ]
  same (bool b) w = elim w [
    | bool c ↦ if b then c else (if c then false else true)
    | num n ↦ n == (if b then 1 else 0)
    | _ ↦ false
  ]
  same (num n) w = elim w [ bool c ↦ n == (if c then 1 else 0) | num m ↦ n == m | _ ↦ false ]
  same (str s) w = elim w [ str t ↦ s == t | _ ↦ false ]
  same (arr xs) w = elim w [ arr ys ↦ same_items xs ys | _ ↦ false ]
  same (obj fs) w = elim w [ obj gs ↦ size fs == size gs && same_fields fs gs | _ ↦ false ]

  pub same_items : Items → Items → Bool
  same_items nil ys = elim ys [ nil ↦ true | _ ↦ false ]
  same_items (cons x xs) ys = elim ys [ cons y r ↦ same x y && same_items xs r | _ ↦ false ]

  -- Every field of the first dict stands in the second.
  pub same_fields : Fields → Fields → Bool
  same_fields end gs = true
  same_fields (field k v fs) gs =
      elim (get k gs) [ none ↦ false | some w ↦ same v w ] && same_fields fs gs
