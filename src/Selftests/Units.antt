-- ===== src/Selftests/Units.antt =====
-- f/selftests/common.py: the systemd unit that a run item starts. f/usertests/common.py escapes in
-- the same way. A name is its UTF-8 bytes.
pub mod Injective
use kdevops_ng.Prelude.{
  ℕ, ◌+◌, ◌/◌, ◌%◌, Bool, true, false, not, ◌&&◌, ◌||◌, List, [], ◌∷◌, ◌++◌, ◌==◌, nat_eq, ltb, leb,
  contains, if◌then◌else◌,
}

-- `c.isascii() and c.isalnum() or c in ":_."`
abbrev pub stays : ℕ → Bool
stays b =
    (leb b'0' b && leb b b'9')
    || (leb b'A' b && leb b b'Z')
    || (leb b'a' b && leb b b'z')
    || b == b':'
    || b == b'_'
    || b == b'.'

abbrev pub hex_digit : ℕ → ℕ
hex_digit d = if ltb d 10 then b'0' + d else 87 + d

-- What one byte adds; a leading dot is escaped too.
unfoldable pub escape_byte : Bool → ℕ → List ℕ
escape_byte first b =
    if b == b'/'
    then b'-' ∷ []
    else if stays b && not (b == b'.' && first)
    then b ∷ []
    else b'\\' ∷ b'x' ∷ hex_digit (b / 16) ∷ hex_digit (b % 16) ∷ []

escape_rest : List ℕ → List ℕ
unfolding escape_byte
escape_rest [] = []
escape_rest (b ∷ name) = escape_byte false b ++ escape_rest name

unfoldable pub unit_escape : List ℕ → List ℕ
unfolding escape_rest
unit_escape [] = []
unit_escape (b ∷ name) = escape_byte true b ++ escape_rest name

-- The two templates: "kselftest" for a collection, "kselftest-test" for a COLLECTION:TEST entry.
pub data Template : Type 0 where
  kselftest kselftest_test : Template

-- A unit `<template>@<instance>.service`.
pub record UnitName : Type 0 where
  pub template : Template
  pub instance_name : List ℕ

unfoldable pub item_unit : List ℕ → UnitName
item_unit item = record {
  template = if contains item b':' then kselftest_test else kselftest;
  instance_name = unit_escape item;
}
