-- ===== src/Governor/Snapshot.antt =====
-- `read_policy` and `snapshot` of scripts/governor/governor.py. What the kernel says of memory, disk,
-- load, swap and temperature is an argument, and the doubles are not rounded for display.
pub mod Admitted
use frankensteinz_hermes.Base.{
  ◌>>◌, ℕ, ◌*◌, ◌^◌, Bool, true, false, not, ◌&&◌, String, List, [], ◌∷◌, ◌++◌, Option, none, some,
  Result, ok, err, ◌>>=◌, if◌then◌else◌, ◌==◌, is_empty,
}
use frankensteinz_hermes.Python.{
  Float, Value, dict, end, bool, Exn, Dict, entries, lookup, truthy, type_error, key_error,
  attribute_error, value_error, eq_nat, null,
}
use frankensteinz_hermes.Checks.{get_or}
use frankensteinz_hermes.Gate.Policy.{has_schema_version}
use frankensteinz_hermes.Governor.Numbers.{to_float, times, less, at_most, of_nat}

-- What the governor has read of the host.
pub record Readings : Type 0 where
  pub total : ℕ
  pub available : ℕ
  pub disk_free : ℕ
  pub disk_used_percent : Float
  pub load1 : Float
  pub cpus : ℕ
  pub swap_percent : Float
  pub temperature : Option Float

pub data WorkClass : Type 0 where
  light heavy : WorkClass

pub record Snapshot : Type 0 where
  pub work_class : WorkClass
  pub admitted : Bool
  pub reasons : List String
  pub readings : Readings

abbrev pub gib : ℕ
gib = 2 ^ 30

-- `v[key]`
unfoldable pub item : String → Value → Result Exn Value
unfolding lookup
item key (dict fs) = elim (lookup key (entries fs)) [ none ↦ err key_error | some v ↦ ok v ]
item key v = err type_error

-- `data.get("version") == 1`, of a mapping that `yaml.safe_load` returns
unfoldable pub read_policy : Value → Result Exn Value
unfolding lookup eq_nat
read_policy (dict fs) =
    if eq_nat (get_or null (lookup "version" (entries fs))) 1
    then ok (dict fs)
    else err (value_error "resource policy must be a version: 1 mapping")
read_policy v = err (value_error "resource policy must be a version: 1 mapping")

abbrev pub memory_key : WorkClass → String
memory_key heavy = "heavy_min_available_gib"
memory_key light = "light_min_available_gib"

-- `if b: reasons.append(reason)`
abbrev pub reason_if : Bool → String → List String
reason_if true reason = reason ∷ []
reason_if false reason = []

module _ (parse : String → Result Exn Float) where
  -- `float(policy[section][key])`
  unfoldable pub setting : Value → String → String → Result Exn Float
  unfolding item to_float
  setting policy section key = do v ← item section policy; x ← item key v; to_float parse x

  unfoldable pub memory_reasons : Value → WorkClass → Readings → Result Exn (List String)
  unfolding setting
  memory_reasons policy work_class r = do
    minimum ← setting policy "memory" (memory_key work_class)
    ok (reason_if (less (of_nat r.available) (times minimum gib)) "memory_pressure")

  unfoldable pub disk_reasons : Value → Readings → Result Exn (List String)
  unfolding setting
  disk_reasons policy r = do
    minimum ← setting policy "root_disk" "min_free_gib"
    maximum ← setting policy "root_disk" "max_used_percent"
    ok (
        reason_if (less (of_nat r.disk_free) (times minimum gib)) "disk_free_below_minimum"
        ++ reason_if (at_most maximum r.disk_used_percent) "disk_usage_above_maximum")

  -- `thermal["heavy_max_celsius"]` is read where the test is on and there is a temperature.
  abbrev pub is_hot : Value → Bool → Option Float → Result Exn Bool
  is_hot thermal true (some t) = do
    v ← item "heavy_max_celsius" thermal
    limit ← to_float parse v
    ok (at_most limit t)
  is_hot thermal enabled t = ok false

  unfoldable pub thermal_reasons : Value → Option Float → Result Exn (List String)
  unfolding lookup truthy
  thermal_reasons (dict fs) t = do
    hot ← is_hot (dict fs) (truthy (get_or (bool false) (lookup "enabled" (entries fs)))) t
    ok (reason_if hot "thermal_pressure")
  thermal_reasons v t = err attribute_error

  -- `policy.get("thermal", {})`
  unfoldable pub thermal_section : Value → Result Exn Value
  unfolding lookup
  thermal_section (dict fs) = ok (get_or (dict end) (lookup "thermal" (entries fs)))
  thermal_section v = err attribute_error

  unfoldable pub load_reasons : Value → Readings → Result Exn (List String)
  unfolding setting
  load_reasons policy r = do
    per_cpu ← setting policy "load" "heavy_max_load_per_cpu"
    swap_limit ← setting policy "swap" "heavy_max_used_percent"
    ok (
        reason_if (less (times per_cpu r.cpus) r.load1) "load_pressure"
        ++ reason_if (less swap_limit r.swap_percent) "swap_pressure")

  -- The tests that a heavy job has beside those of a light one.
  unfoldable pub heavy_reasons : Value → WorkClass → Readings → Result Exn (List String)
  unfolding load_reasons thermal_section thermal_reasons
  heavy_reasons policy light r = ok []
  heavy_reasons policy heavy r = do
    load ← load_reasons policy r
    section ← thermal_section policy
    thermal ← thermal_reasons section r.temperature
    ok (load ++ thermal)

  unfoldable pub snapshot : Value → WorkClass → Readings → Result Exn Snapshot
  unfolding memory_reasons disk_reasons heavy_reasons
  snapshot policy work_class r = do
    memory ← memory_reasons policy work_class r
    disk ← disk_reasons policy r
    more ← heavy_reasons policy work_class r
    let reasons = memory ++ (disk ++ more) in
        ok (record {
          work_class = work_class;
          admitted = is_empty reasons;
          reasons = reasons;
          readings = r;
        })
