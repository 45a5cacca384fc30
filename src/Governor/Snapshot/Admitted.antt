-- ===== src/Governor/Snapshot/Admitted.antt =====
-- What an admitted snapshot of scripts/governor/governor.py says of the host.
use frankensteinz_hermes.Governor.Snapshot.{
  gib, thermal_section, memory_key, Snapshot, setting, item, disk_reasons, memory_reasons,
  load_reasons, is_hot, WorkClass, Readings, thermal_reasons, snapshot, heavy_reasons, reason_if,
  heavy,
}
use frankensteinz_hermes.Base.{
  some-injective, ok-injective, >>=-eq-ok, is_empty, Bool, List, Result, Option, String, subst, ap,
  ◌∙◌, false, true, none, some, ok, refl, [], ◌≡◌, ◌++◌, ◌∷◌,
}
use frankensteinz_hermes.Python.{
  entries, lookup, truthy, Fields, Value, Float, Exn, list, str, dict, float, int, bool, null,
}
use frankensteinz_hermes.Checks.{get_or}
use frankensteinz_hermes.Governor.Numbers.{times, of_nat, less, at_most, to_float}

reason_if-nil : (b : Bool) (s : String) → reason_if b s ≡ [] → b ≡ false
reason_if-nil false s h = refl
reason_if-nil true s h = cc

append-eq-nil {ℓ} : {A : Type ℓ} (xs ys : List A) → xs ++ ys ≡ [] → (xs ≡ []) × (ys ≡ [])
append-eq-nil [] ys h = (refl, h)
append-eq-nil (x ∷ xs) ys h = cc

is_empty-nil {ℓ} : {A : Type ℓ} (xs : List A) → is_empty xs ≡ true → xs ≡ []
is_empty-nil [] h = refl
is_empty-nil (x ∷ xs) h = cc

module _ (parse : String → Result Exn Float) where
  -- The temperature, where there is one and the policy watches it, is below the limit.
  pub record IsCool (thermal : Value) (t : Option Float) : Type 0 where
    pub fields : Fields
    pub given : thermal ≡ dict fields
    pub cool :
        (x : Float)
        → truthy (get_or (bool false) (lookup "enabled" (entries fields))) ≡ true
        → t ≡ some x
        → (v : Value) × (limit : Float) × (item "heavy_max_celsius" thermal ≡ ok v)
          × (to_float parse v ≡ ok limit)
          × (at_most limit x ≡ false)

  -- The limits of a heavy job are kept.
  pub record IsCalm (policy : Value) (r : Readings) : Type 0 where
    pub per_cpu : Float
    pub swap_limit : Float
    pub section : Value
    pub load_given : setting parse policy "load" "heavy_max_load_per_cpu" ≡ ok per_cpu
    pub swap_given : setting parse policy "swap" "heavy_max_used_percent" ≡ ok swap_limit
    pub section_given : thermal_section parse policy ≡ ok section
    pub load_kept : less (times per_cpu r.cpus) r.load1 ≡ false
    pub swap_kept : less swap_limit r.swap_percent ≡ false
    pub is_cool : IsCool section r.temperature

  -- The limits of every job are kept, and those of a heavy one where the job is heavy.
  pub record IsRelaxed (policy : Value) (work_class : WorkClass) (r : Readings) : Type 0 where
    pub min_memory : Float
    pub min_free : Float
    pub max_used : Float
    pub memory_given : setting parse policy "memory" (memory_key work_class) ≡ ok min_memory
    pub free_given : setting parse policy "root_disk" "min_free_gib" ≡ ok min_free
    pub used_given : setting parse policy "root_disk" "max_used_percent" ≡ ok max_used
    pub memory_kept : less (of_nat r.available) (times min_memory gib) ≡ false
    pub free_kept : less (of_nat r.disk_free) (times min_free gib) ≡ false
    pub used_kept : at_most max_used r.disk_used_percent ≡ false
    pub heavy_kept : work_class ≡ heavy → IsCalm policy r

  thermal_reasons-IsCool :
      (thermal : Value) (t : Option Float)
      → thermal_reasons parse thermal t ≡ ok []
      → IsCool thermal t
  unfolding thermal_reasons
  thermal_reasons-IsCool (dict fs) t h =
      let on = truthy (get_or (bool false) (lookup "enabled" (entries fs))) in
      let (hot, e, h₁) = >>=-eq-ok (is_hot parse (dict fs) on t) _ h in
      let cold = reason_if-nil hot _ (ok-injective refl h₁) in
      record {
        fields = fs;
        given = refl;
        cool = λ x enabled found.
            cooled (dict fs) on t x enabled found
              (subst (λ b. is_hot parse (dict fs) on t ≡ ok b) cold e);
      }
    where
      cooled :
          (thermal : Value) (on : Bool) (t : Option Float) (x : Float)
          → on ≡ true
          → t ≡ some x
          → is_hot parse thermal on t ≡ ok false
          → (v : Value) × (limit : Float) × (item "heavy_max_celsius" thermal ≡ ok v)
            × (to_float parse v ≡ ok limit)
            × (at_most limit x ≡ false)
      cooled thermal false t x enabled found h = cc
      cooled thermal true none x enabled found h = cc
      cooled thermal true (some y) x enabled found h =
          let (v, given, h₁) = >>=-eq-ok (item "heavy_max_celsius" thermal) _ h in
          let (limit, number, h₂) = >>=-eq-ok (to_float parse v) _ h₁ in
          (
            v,
            limit,
            given,
            number,
            subst (λ z. at_most limit z ≡ false) (some-injective found) (ok-injective refl h₂),
          )
  thermal_reasons-IsCool null t h = cc
  thermal_reasons-IsCool (bool b) t h = cc
  thermal_reasons-IsCool (int z) t h = cc
  thermal_reasons-IsCool (float x) t h = cc
  thermal_reasons-IsCool (str s) t h = cc
  thermal_reasons-IsCool (list xs) t h = cc

  heavy_reasons-IsCalm :
      (policy : Value) (r : Readings) → heavy_reasons parse policy heavy r ≡ ok [] → IsCalm policy r
  unfolding heavy_reasons load_reasons
  heavy_reasons-IsCalm policy r h =
      let (load, e₁, h₁) = >>=-eq-ok (load_reasons parse policy r) _ h in
      let (section, given, h₂) = >>=-eq-ok (thermal_section parse policy) _ h₁ in
      let (thermal, e₂, h₃) = >>=-eq-ok (thermal_reasons parse section r.temperature) _ h₂ in
      let (no_load, no_thermal) = append-eq-nil load thermal (ok-injective refl h₃) in
      let (per_cpu, g₁, k₁) = >>=-eq-ok (setting parse policy "load" _) _ e₁ in
      let (limit, g₂, k₂) = >>=-eq-ok (setting parse policy "swap" _) _ k₁ in
      let (busy, swapped) =
        append-eq-nil (reason_if (less (times per_cpu r.cpus) r.load1) _) _
          (ok-injective refl k₂ ∙ no_load) in
      record {
        per_cpu = per_cpu;
        swap_limit = limit;
        section = section;
        load_given = g₁;
        swap_given = g₂;
        section_given = given;
        load_kept = reason_if-nil _ _ busy;
        swap_kept = reason_if-nil _ _ swapped;
        is_cool =
            thermal_reasons-IsCool section r.temperature
              (subst (λ xs. thermal_reasons parse section r.temperature ≡ ok xs) no_thermal e₂);
      }

  -- An admitted snapshot keeps every limit of the policy: memory and disk for each class, and load,
  -- swap and temperature for a heavy job.
  pub snapshot-IsRelaxed :
      (policy : Value) (work_class : WorkClass) (r : Readings) (s : Snapshot)
      → snapshot parse policy work_class r ≡ ok s
      → s.admitted ≡ true
      → IsRelaxed policy work_class r
  unfolding snapshot memory_reasons disk_reasons
  snapshot-IsRelaxed policy work_class r s h admitted =
      let (memory, e₁, h₁) = >>=-eq-ok (memory_reasons parse policy work_class r) _ h in
      let (disk, e₂, h₂) = >>=-eq-ok (disk_reasons parse policy r) _ h₁ in
      let (more, e₃, h₃) = >>=-eq-ok (heavy_reasons parse policy work_class r) _ h₂ in
      let none_left : is_empty (memory ++ (disk ++ more)) ≡ true =
        ap (λ x. x.admitted) (ok-injective refl h₃) ∙ admitted in
      let (no_memory, rest) = append-eq-nil memory (disk ++ more) (is_empty-nil _ none_left) in
      let (no_disk, no_more) = append-eq-nil disk more rest in
      relaxed (e₁ ∙ ap ok no_memory) (e₂ ∙ ap ok no_disk) (e₃ ∙ ap ok no_more)
    where
      relaxed :
          memory_reasons parse policy work_class r ≡ ok []
          → disk_reasons parse policy r ≡ ok []
          → heavy_reasons parse policy work_class r ≡ ok []
          → IsRelaxed policy work_class r
      relaxed e₁ e₂ e₃ =
          let (minimum, g₁, h₁) =
            >>=-eq-ok (setting parse policy "memory" (memory_key work_class)) _ e₁ in
          let (free, g₂, h₂) = >>=-eq-ok (setting parse policy "root_disk" "min_free_gib") _ e₂ in
          let (used, g₃, h₃) =
            >>=-eq-ok (setting parse policy "root_disk" "max_used_percent") _ h₂ in
          let (a, b) =
            append-eq-nil (reason_if (less (of_nat r.disk_free) (times free gib)) _) _
              (ok-injective refl h₃) in
          record {
            min_memory = minimum;
            min_free = free;
            max_used = used;
            memory_given = g₁;
            free_given = g₂;
            used_given = g₃;
            memory_kept = reason_if-nil _ _ (ok-injective refl h₁);
            free_kept = reason_if-nil _ _ a;
            used_kept = reason_if-nil _ _ b;
            heavy_kept = λ e.
                heavy_reasons-IsCalm policy r
                  (subst (λ c. heavy_reasons parse policy c r ≡ ok []) e e₃);
          }
