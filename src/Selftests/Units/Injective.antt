-- ===== src/Selftests/Units/Injective.antt =====
-- Reading a unit's instance name back.
use kdevops_ng.Prelude.{
  ℕ, ◌+◌, ◌-◌, ◌*◌, ◌<◌, ◌≡◌, refl, ap, sym, ◌∙◌, Bool, true, false, List, [], ◌∷◌, ◌++◌, arith,
  ◌==◌, nat_eq, ltb, ◌≢◌, ◌||◌, if◌then◌else◌,
}
use kdevops_ng.Prelude.Lists.{All, All-append}
use kdevops_ng.Selftests.Units.{stays, escape_byte, escape_rest, unit_escape, UnitName, item_unit}

-- What the reader waits for: a byte, the `x` after a backslash, or a digit of the code.
data Mode : Type 0 where
  byte at_x high : Mode
  low : ℕ → Mode

abbrev hex_value : ℕ → ℕ
hex_value d = if ltb d b':' then d - b'0' else d - 87

read : Mode → List ℕ → List ℕ
read mode [] = []
read byte (c ∷ s) =
    let after = read at_x s in
    let rest = read byte s in
    if c == b'\\' then after else if c == b'-' then b'/' ∷ rest else c ∷ rest
read at_x (c ∷ s) = read high s
read high (c ∷ s) = read (low (hex_value c)) s
read (low h) (c ∷ s) = (h * 16 + hex_value c) ∷ read byte s

read-escape_byte :
    (first : Bool) (b : ℕ) (s : List ℕ)
    → b < 256
    → read byte (escape_byte first b ++ s) ≡ b ∷ read byte s
unfolding read escape_byte
read-escape_byte first b s small = ground arith

abbrev pub IsBytes : List ℕ → Type 0
IsBytes = All (λ b. b < 256)

read-escape_rest : (name : List ℕ) → IsBytes name → read byte (escape_rest name) ≡ name
unfolding escape_rest read
read-escape_rest [] small = refl
read-escape_rest (b ∷ name) (small, rest) =
    read-escape_byte false b (escape_rest name) small ∙ ap (λ s. b ∷ s) (read-escape_rest name rest)

read-unit_escape : (name : List ℕ) → IsBytes name → read byte (unit_escape name) ≡ name
unfolding unit_escape read
read-unit_escape [] small = refl
read-unit_escape (b ∷ name) (small, rest) =
    read-escape_byte true b (escape_rest name) small ∙ ap (λ s. b ∷ s) (read-escape_rest name rest)

-- Two run items never share a unit: the instance name of a unit tells the bytes of its item.
pub item_unit-injective : (a b : List ℕ) → IsBytes a → IsBytes b → item_unit a ≡ item_unit b → a ≡ b
unfolding item_unit
item_unit-injective a b small_a small_b same =
    sym (read-unit_escape a small_a)
    ∙ ap (λ (u : UnitName). read byte u.instance_name) same
    ∙ read-unit_escape b small_b

-- What systemd takes in an instance name.
abbrev pub IsUnitByte : ℕ → Type 0
IsUnitByte c = (stays c || c == b'-' || c == b'\\') ≡ true

escape_byte-IsUnitByte : (first : Bool) (b : ℕ) → b < 256 → All IsUnitByte (escape_byte first b)
unfolding escape_byte
escape_byte-IsUnitByte first b small = ground arith

escape_rest-IsUnitByte : (name : List ℕ) → IsBytes name → All IsUnitByte (escape_rest name)
unfolding escape_rest read
escape_rest-IsUnitByte [] small = tt
escape_rest-IsUnitByte (b ∷ name) (small, rest) =
    All-append IsUnitByte (escape_byte false b) (escape_rest name)
      (escape_byte-IsUnitByte false b small) (escape_rest-IsUnitByte name rest)

-- An instance name has letters, digits and `:_.-\` only, and does not begin with a dot.
pub unit_escape-IsUnitByte :
    (name : List ℕ)
    → IsBytes name
    → All IsUnitByte (unit_escape name) × ((rest : List ℕ) → unit_escape name ≢ b'.' ∷ rest)
unfolding unit_escape read
unit_escape-IsUnitByte [] small = (tt, λ rest e. cc)
unit_escape-IsUnitByte (b ∷ name) (small, more) = (
  All-append IsUnitByte (escape_byte true b) (escape_rest name)
      (escape_byte-IsUnitByte true b small) (escape_rest-IsUnitByte name more),
  λ rest e. no_dot b (escape_rest name) rest e,
)
  where
    no_dot : (b : ℕ) (s rest : List ℕ) → escape_byte true b ++ s ≢ b'.' ∷ rest
    no_dot b s rest e = ground arith
