-- ===== src/Paths/Allowed/Permitted.antt =====
-- What `path_allowed` of scripts/engineering_worker/worker.py lets through.
use mathlib.Core.List.{Memᴰ}
use frankensteinz_hermes.Paths.Posix.{parts}
use frankensteinz_hermes.Paths.Relative.{validate_rel_path}
use frankensteinz_hermes.Paths.Relative.Safe.{IsSafe, validate_rel_path-idempotent}
use frankensteinz_hermes.Paths.Allowed.{
  is_within, path_allowed, any_within, allowed_list, validate_prefix, traverse, iterate,
  entry_or_nil, rstrip_slash,
}
use frankensteinz_hermes.Paths.Allowed.Scope.{Below, is_within_iff}
use frankensteinz_hermes.Base.{
  or-eq-false, if-else, contains, Bool-cases, >>=-eq-ok, All, is_empty, any, Bool, List, Result,
  String, subst, arith, inr, inl, false, true, ok, refl, [], ◌≡◌, ◌||◌, ◌∷◌,
}
use frankensteinz_hermes.Python.{lookup, Dict, Value, Exn}

-- The path is under this base, unless the base is ".", which only allows itself.
abbrev pub Inside : String → String → Type 0
Inside path base = IsSafe base × (is_empty (parts base) ≡ false → Below path base)

-- The path is not under this base, unless the base is ".".
abbrev pub Outside : String → String → Type 0
Outside path base = IsSafe base × (is_empty (parts base) ≡ false → ¬ Below path base)

any-false-All :
    {A : Type 0} (p : A → Bool) (xs : List A) → any p xs ≡ false → All (λ x. p x ≡ false) xs
any-false-All p [] h = tt
any-false-All p (x ∷ xs) h = ground (arith, any-false-All p xs)

module _ (raise : String → Exn) where
  validate_prefix-IsSafe :
      (v : Value) (base : String) → validate_prefix raise v ≡ ok base → IsSafe base
  unfolding validate_prefix
  validate_prefix-IsSafe v base h =
      let (w, _, h₁) = >>=-eq-ok (rstrip_slash v) _ h in
      (validate_rel_path-idempotent raise w base h₁).0

  traverse-All :
      (f : Value → Result Exn String) (P : String → Type 0)
      → ((v : Value) (s : String) → f v ≡ ok s → P s)
      → (vs : List Value) (ss : List String) → traverse f vs ≡ ok ss
      → All P ss
  unfolding traverse
  traverse-All f P k [] [] h = tt
  traverse-All f P k [] (s ∷ ss) h = cc
  traverse-All f P k (v ∷ vs) ss h =
      let (s, e, h₁) = >>=-eq-ok (f v) _ h in
      let (rest, es, h₂) = >>=-eq-ok (traverse f vs) _ h₁ in
      let same : s ∷ rest ≡ ss = cc h₂ in
      subst (All P) same (k v s e, traverse-All f P k vs rest es)

  any_within-true :
      (path : String) (raws : List Value)
      → any_within raise path raws ≡ ok true
      → (raw : Value) × (base : String) × Memᴰ raw raws
        × (validate_prefix raise raw ≡ ok base)
        × (is_within path base ≡ true)
  unfolding any_within
  any_within-true path [] h = cc
  any_within-true path (raw ∷ raws) h =
      let (base, e, h₁) = >>=-eq-ok (validate_prefix raise raw) _ h in
      elim (Bool-cases (is_within path base)) [
        | inl inside ↦ (raw, base, Memᴰ.head refl, e, inside)
        | inr outside ↦
            let (raw', base', m, e', inside) = any_within-true path raws (ground arith) in
            (raw', base', Memᴰ.tail m, e', inside)
      ]

  -- What is let through: the path is safe, it lies under one of the job's allowed paths, it is none
  -- of the forbidden paths, and it lies under none of the forbidden prefixes.
  pub record Permitted (raw : Value) (payload config : Dict) (path : String) : Type 0 where
    pub normal : validate_rel_path raise raw ≡ ok path
    pub safe : IsSafe path
    pub allowed : Value
    pub allowed_in : Memᴰ allowed (allowed_list (lookup "allowed_paths" payload))
    pub base : String
    pub allowed_base : validate_prefix raise allowed ≡ ok base
    pub inside : Inside path base
    pub forbidden_values : List Value
    pub forbidden_found :
        iterate (entry_or_nil (lookup "forbidden_paths" config)) ≡ ok forbidden_values
    pub forbidden : List String
    pub forbidden_paths : traverse (validate_rel_path raise) forbidden_values ≡ ok forbidden
    pub not_forbidden : contains forbidden path ≡ false
    pub prefix_values : List Value
    pub prefixes_found :
        iterate (entry_or_nil (lookup "forbidden_path_prefixes" config)) ≡ ok prefix_values
    pub prefixes : List String
    pub prefix_paths : traverse (validate_prefix raise) prefix_values ≡ ok prefixes
    pub outside : All (Outside path) prefixes

  prefixes-Outside :
      (path : String) (ps : List String)
      → IsSafe path
      → All IsSafe ps
      → All (λ p. is_within path p ≡ false) ps
      → All (Outside path) ps
  prefixes-Outside path [] s _ _ = tt
  prefixes-Outside path (p ∷ ps) s (b, bs) (n, ns) = (
    (b, λ proper below. cc ((is_within_iff path p s b proper).1 below)),
    prefixes-Outside path ps s bs ns,
  )

  -- A path that is let through is permitted by the job and by the configuration.
  pub path_allowed-Permitted :
      (raw : Value) (payload config : Dict)
      → path_allowed raise raw payload config ≡ ok true
      → (path : String) × Permitted raw payload config path
  unfolding path_allowed
  path_allowed-Permitted raw payload config h =
      let (path, normal, h₁) = >>=-eq-ok (validate_rel_path raise raw) _ h in
      let (fv, fv_found, h₂) =
        >>=-eq-ok (iterate (entry_or_nil (lookup "forbidden_paths" config))) _ h₁ in
      let (forbidden, f_ok, h₃) = >>=-eq-ok (traverse (validate_rel_path raise) fv) _ h₂ in
      let (pv, pv_found, h₄) =
        >>=-eq-ok (iterate (entry_or_nil (lookup "forbidden_path_prefixes" config))) _ h₃ in
      let (prefixes, p_ok, h₅) = >>=-eq-ok (traverse (validate_prefix raise) pv) _ h₄ in
      let (clear, h₆) =
        if-else (contains forbidden path || any (is_within path) prefixes) h₅ (λ e. cc) in
      let (allowed, base, m, b_ok, inside) = any_within-true path _ h₆ in
      let safe = (validate_rel_path-idempotent raise raw path normal).0 in
      let base_safe = validate_prefix-IsSafe allowed base b_ok in
      let (no_path, no_prefix) =
        or-eq-false (contains forbidden path) (any (is_within path) prefixes) clear in
      (
        path,
        record {
          normal = normal;
          safe = safe;
          allowed = allowed;
          allowed_in = m;
          base = base;
          allowed_base = b_ok;
          inside = (base_safe, λ proper. (is_within_iff path base safe base_safe proper).0 inside);
          forbidden_values = fv;
          forbidden_found = fv_found;
          forbidden = forbidden;
          forbidden_paths = f_ok;
          not_forbidden = no_path;
          prefix_values = pv;
          prefixes_found = pv_found;
          prefixes = prefixes;
          prefix_paths = p_ok;
          outside =
              prefixes-Outside path prefixes safe
                (traverse-All (validate_prefix raise) IsSafe validate_prefix-IsSafe pv prefixes
                  p_ok)
                (any-false-All (is_within path) prefixes no_prefix);
        },
      )
