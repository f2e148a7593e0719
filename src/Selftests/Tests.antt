-- ===== src/Selftests/Tests.antt =====
-- The units of two run items.
use kdevops_ng.Prelude.{ℕ, ◌≡◌, ◌≢◌, refl, List, [], ◌∷◌, arith, nat_eq}
use kdevops_ng.Prelude.Lists.{All}
use kdevops_ng.Selftests.Units.{escape_byte, unit_escape}
use kdevops_ng.Selftests.Units.Injective.{
  IsBytes, IsUnitByte, item_unit-injective, unit_escape-IsUnitByte,
}

-- `a-b`
abbrev item : List ℕ
item = b'a' ∷ b'-' ∷ b'b' ∷ []

item-IsBytes : IsBytes item
item-IsBytes = (omega arith, (omega arith, (omega arith, tt)))

item_unit-injective_example : item ≡ item
item_unit-injective_example = item_unit-injective item item item-IsBytes item-IsBytes refl

instance_bytes :
    All IsUnitByte (unit_escape item) × ((rest : List ℕ) → unit_escape item ≢ b'.' ∷ rest)
instance_bytes = unit_escape-IsUnitByte item item-IsBytes

escapes_dash : unit_escape item ≡ b'a' ∷ b'\\' ∷ b'x' ∷ b'2' ∷ b'd' ∷ b'b' ∷ []
unfolding unit_escape escape_byte nat_eq
escapes_dash = refl
