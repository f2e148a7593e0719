-- ===== src/Qsu/Drives/Keys.antt =====
-- Which settings of a drive have which keys.
use kdevops_ng.Prelude.{
  ℕ, String, ◌≡◌, refl, sym, ap, ◌∙◌, Bool, true, false, ◌&&◌, none, List, [], ◌∷◌, ◌++◌, map, ◌==◌,
  ◌!=◌, string_eq, nat_eq, contains, arith, if-lem, eq_false, if◌then◌else◌,
}
use kdevops_ng.Prelude.Lists.{all}
use kdevops_ng.Prelude.Dict.{Dict, lookup, lookup-nil, lookup-cons, lookup-append_missed}
use kdevops_ng.Qsu.Drives.{
  Setting, text, DriveInputs, Made, made, refused, ◌>>=◌, ctrl_knobs, ns_knobs, blockconf_knobs,
  drive_pick, drive_onoff, bucket, pmr_of, flag, cmb_of, ctrl_of, null_base, file_base, ns_of,
}

pub made_of :
    {A B : Type 0} (x : Made A) (f : A → Made B) (b : B)
    → x >>= f ≡ made b
    → (a : A) × (x ≡ made a) × (f a ≡ made b)
unfolding ◌>>=◌
made_of (made a) f b h = (a, refl, h)
made_of (refused why) f b h = cc

pub made-injective : {A : Type 0} (a b : A) → made a ≡ made b → a ≡ b
made-injective a b h = cc

pub bucket-lookup :
    (knobs : Dict String) (table : List (String × String)) (i : ℕ) (k : String)
    → contains (map (λ (e : String × String). e.1) table) k ≡ false
    → lookup k (bucket knobs table i) ≡ none
unfolding bucket lookup
bucket-lookup knobs [] i k h = refl
bucket-lookup knobs ((param, key) ∷ table) i k h = ground (arith, bucket-lookup knobs table i k, h)

flag-lookup : (set : Bool) (key k : String) → (k == key) ≡ false → lookup k (flag set key) ≡ none
unfolding lookup
flag-lookup true key k h = rw h refl
flag-lookup false key k h = refl

pub missed :
    (k key : String) (v : Setting) (d : Dict Setting)
    → (k == key) ≡ false
    → lookup k d ≡ none
    → lookup k ((key, v) ∷ d) ≡ none
missed k key v d other gone = lookup-cons k key v d ∙ rw other gone

missed_if :
    (b : Bool) (k key : String) (v : Setting)
    → (k == key) ≡ false
    → lookup k (if b then (key, v) ∷ [] else []) ≡ none
missed_if true k key v other = missed k key v [] other (lookup-nil k)
missed_if false k key v other = lookup-nil k

-- A key that only the backend or the memory region has.
pub record Outside (k : String) : Type 0 where
  pub of_ctrl : contains (map (λ (e : String × String). e.1) ctrl_knobs) k ≡ false
  pub of_blockconf : contains (map (λ (e : String × String). e.1) blockconf_knobs) k ≡ false
  pub of_ns : contains (map (λ (e : String × String). e.1) ns_knobs) k ≡ false
  pub of_dn : (k == "atomic.dn") ≡ false
  pub of_mam : (k == "atomic.mam") ≡ false
  pub of_ioeventfd : (k == "ioeventfd") ≡ false
  pub of_cmb : (k == "cmb_size_mb") ≡ false
  pub of_legacy : (k == "legacy-cmb") ≡ false
  pub of_file : (k == "file") ≡ false
  pub of_format : (k == "format") ≡ false
  pub of_serial : (k == "serial") ≡ false
  pub of_driver : (k == "driver") ≡ false
  pub of_size : (k == "size") ≡ false

abbrev table_keys : List (String × String) → List String
table_keys table = map (λ (e : String × String). e.1) table

-- The keys of the other settings.
abbrev device_keys : List String
device_keys =
    table_keys ctrl_knobs
    ++ (table_keys blockconf_knobs
        ++ (table_keys ns_knobs
            ++ ("atomic.dn" ∷ "atomic.mam" ∷ "ioeventfd" ∷ "cmb_size_mb" ∷ "legacy-cmb" ∷ "file"
                ∷ "format" ∷ "serial" ∷ "driver" ∷ "size" ∷ [])))

among_same :
    (k key : String) (keys : List String)
    → contains keys k ≡ false
    → contains keys key ≡ true
    → (k == key) ≡ false
among_same k key keys gone there = elim (string_eq.dec k key) [
  | no n ↦ eq_false k key n
  | yes p ↦ cc
]

among_none :
    (k : String) (some_keys keys : List String)
    → contains keys k ≡ false
    → all (contains keys) some_keys ≡ true
    → contains some_keys k ≡ false
among_none k [] keys gone there = refl
among_none k (key ∷ some_keys) keys gone there =
    ground (arith, among_same k key keys gone, among_none k some_keys keys gone, there)

pub outside : (k : String) → contains device_keys k ≡ false → Outside k
unfolding string_eq
outside k gone = record {
  of_ctrl = among_none k (table_keys ctrl_knobs) device_keys gone refl;
  of_blockconf = among_none k (table_keys blockconf_knobs) device_keys gone refl;
  of_ns = among_none k (table_keys ns_knobs) device_keys gone refl;
  of_dn = among_same k "atomic.dn" device_keys gone refl;
  of_mam = among_same k "atomic.mam" device_keys gone refl;
  of_ioeventfd = among_same k "ioeventfd" device_keys gone refl;
  of_cmb = among_same k "cmb_size_mb" device_keys gone refl;
  of_legacy = among_same k "legacy-cmb" device_keys gone refl;
  of_file = among_same k "file" device_keys gone refl;
  of_format = among_same k "format" device_keys gone refl;
  of_serial = among_same k "serial" device_keys gone refl;
  of_driver = among_same k "driver" device_keys gone refl;
  of_size = among_same k "size" device_keys gone refl;
}

pub Outside-aio : Outside "aio"
unfolding string_eq
Outside-aio = outside "aio" refl

pub Outside-cache : Outside "cache"
unfolding string_eq
Outside-cache = outside "cache" refl

pub Outside-discard : Outside "discard"
unfolding string_eq
Outside-discard = outside "discard" refl

pub Outside-zeroes : Outside "detect-zeroes"
unfolding string_eq
Outside-zeroes = outside "detect-zeroes" refl

pub Outside-pmr : Outside "pmr"
unfolding string_eq
Outside-pmr = outside "pmr" refl

module _ (k : String) (o : Outside k) where
  cmb_of-lookup : (inputs : DriveInputs) (i : ℕ) → lookup k (cmb_of inputs i) ≡ none
  unfolding cmb_of
  cmb_of-lookup inputs i =
      let cmb = drive_pick (lookup "cmb_size_mb" inputs.knobs) i in
      let legacy = flag inputs.legacy_cmb "legacy-cmb" in
      if-lem (λ (d : Dict Setting). lookup k d ≡ none) (cmb != "" && cmb != "0")
        (("cmb_size_mb", text cmb) ∷ legacy) []
        (λ _.
          missed k "cmb_size_mb" (text cmb) legacy o.of_cmb
            (flag-lookup inputs.legacy_cmb "legacy-cmb" k o.of_legacy))
        (λ _. lookup-nil k)

  pub ns_of-lookup : (inputs : DriveInputs) (i : ℕ) → lookup k (ns_of inputs i) ≡ none
  unfolding ns_of
  ns_of-lookup inputs i =
      lookup-append_missed k _ _ (bucket-lookup inputs.knobs ns_knobs i k o.of_ns)
      ∙ flag-lookup _ "atomic.mam" k o.of_mam

  -- Of such a key the controller's settings have what the memory region's have.
  pub ctrl_of-lookup :
      (page : ℕ) (inputs : DriveInputs) (i : ℕ) (ctrl : Dict Setting)
      → ctrl_of page inputs i ≡ made ctrl
      → (pmr : Dict Setting) × (pmr_of page inputs i ≡ made pmr) × (lookup k ctrl ≡ lookup k pmr)
  unfolding ctrl_of
  ctrl_of-lookup page inputs i ctrl h =
      let (events, _, h₁) =
        made_of (drive_onoff (lookup "ioeventfd" inputs.knobs) i true) _ ctrl h in
      let (pmr, is_pmr, h₂) = made_of (pmr_of page inputs i) _ ctrl h₁ in
      (
        pmr,
        is_pmr,
        ap (lookup k) (sym (made-injective _ ctrl h₂))
            ∙ lookup-append_missed k _ _ (bucket-lookup inputs.knobs ctrl_knobs i k o.of_ctrl)
            ∙ lookup-append_missed k _ _ (flag-lookup _ "atomic.dn" k o.of_dn)
            ∙ lookup-append_missed k _ _ (flag-lookup _ "ioeventfd" k o.of_ioeventfd)
            ∙ lookup-append_missed k _ _ (cmb_of-lookup inputs i),
      )

  pub blockconf-lookup :
      (inputs : DriveInputs) (i : ℕ) → lookup k (bucket inputs.knobs blockconf_knobs i) ≡ none
  blockconf-lookup inputs i = bucket-lookup inputs.knobs blockconf_knobs i k o.of_blockconf

  pub file_base-lookup : (inputs : DriveInputs) (i : ℕ) → lookup k (file_base inputs i).place ≡ none
  unfolding file_base
  file_base-lookup inputs i =
      missed k _ _ _ o.of_file
        (missed k _ _ _ o.of_format (missed k _ _ _ o.of_serial (lookup-nil k)))

  pub null_base-lookup :
      (inputs : DriveInputs) (driver : String) (i : ℕ)
      → lookup k (null_base inputs driver i).place ≡ none
  unfolding null_base
  null_base-lookup inputs driver i =
      missed k _ _ _ o.of_driver (missed k _ _ _ o.of_serial (missed_if _ k "size" _ o.of_size))
