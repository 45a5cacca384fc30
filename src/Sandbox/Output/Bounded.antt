-- ===== src/Sandbox/Output/Bounded.antt =====
-- What `collect_bounded` of scripts/engineering_qa/bwrap_sandbox_adapter.py guarantees: it returns,
-- and what it returns is bounded.
use frankensteinz_hermes.Sandbox.Output.{
  stdout, stderr, final_status, nothing_read, finish, Finished, Bytes, is_open, Stream, Round,
  unregister, read_all, collect_bounded, collect, append, Collected,
}
use frankensteinz_hermes.Sandbox.Output.Undisturbed.{Undisturbed, collect-Undisturbed}
use frankensteinz_hermes.Base.{
  ◌∙◌, eq_iff, ◌≢◌, if◌then◌else◌, eqb→≡, some-injective, eqb, Bool, subst, ◌⊎◌, length-append, ltb,
  is_empty, Bool-cases, ℕ, List, Option, String, length, ap, arith, inr, inl, false, true, none,
  some, refl, [], ◌≤◌, ◌+◌, ◌≡◌, ◌∷◌,
}
use frankensteinz_hermes.Python.{negsuc, ℤ, pos}

-- What has been collected is what has been counted, and is within the maximum.
record IsWithin (maximum : ℕ) (c : Collected) : Type 0 where
  counted : length c.out + length c.errors ≡ c.total
  bounded : c.total ≤ maximum

unregister-IsWithin :
    (maximum : ℕ) (s : Stream) (c : Collected)
    → IsWithin maximum c
    → IsWithin maximum (unregister s c)
unfolding unregister
unregister-IsWithin maximum stdout c w = record { counted = w.counted; bounded = w.bounded }
unregister-IsWithin maximum stderr c w = record { counted = w.counted; bounded = w.bounded }

append-IsWithin :
    (maximum : ℕ) (s : Stream) (chunk : Bytes) (c : Collected)
    → IsWithin maximum c
    → ltb maximum (c.total + length chunk) ≡ false
    → IsWithin maximum (append s chunk c)
unfolding append
append-IsWithin maximum stdout chunk c w fits = record {
  counted = omega (arith, length-append c.out chunk, w.counted);
  bounded = ground arith;
}
append-IsWithin maximum stderr chunk c w fits = record {
  counted = omega (arith, length-append c.errors chunk, w.counted);
  bounded = ground arith;
}

read_all-IsWithin :
    (maximum : ℕ) (reads : List (Stream × Bytes)) (c : Collected)
    → IsWithin maximum c
    → IsWithin maximum (read_all maximum reads c).1
unfolding read_all
read_all-IsWithin maximum [] c w = w
read_all-IsWithin maximum ((s, chunk) ∷ reads) c w = elim (Bool-cases (is_empty chunk)) [
  | inl e ↦
      rw e (read_all-IsWithin maximum reads (unregister s c) (unregister-IsWithin maximum s c w))
  | inr e ↦ elim (Bool-cases (ltb maximum (c.total + length chunk))) [
    | inl over ↦ rw (e, over) w
    | inr fits ↦
        rw (e, fits)
          (read_all-IsWithin maximum reads (append s chunk c)
            (append-IsWithin maximum s chunk c w fits))
  ]
]

-- The outcome of the loop, where it has one, is within the maximum; without a forced status both
-- pipes have been read to their ends.
abbrev IsOutcome : ℕ → Option (Option String × Collected) → Type 0
IsOutcome maximum none = Unit
IsOutcome maximum (some (forced, c)) =
    IsWithin maximum c
    × ((((forced ≡ none) × (is_open c ≡ false)) ⊎ (forced ≡ some "timeout"))
        ⊎ (forced ≡ some "output_exhausted"))

collect-IsOutcome :
    (maximum : ℕ) (rounds : List Round) (c : Collected)
    → IsWithin maximum c
    → IsOutcome maximum (collect maximum rounds c)
unfolding collect
collect-IsOutcome maximum [] c w = elim (Bool-cases (is_open c)) [
  | inl e ↦ rw e tt
  | inr e ↦ rw e (w, inl (inl (refl, e)))
]
collect-IsOutcome maximum (r ∷ rounds) c w =
    let p = read_all maximum r.reads c in
    let v = read_all-IsWithin maximum r.reads c w in
    elim (Bool-cases (is_open c)) [
      | inr e ↦ rw e (w, inl (inl (refl, e)))
      | inl e ↦ elim (Bool-cases r.late) [
        | inl l ↦ rw (e, l) (w, inl (inr refl))
        | inr l ↦ elim (Bool-cases (p.0)) [
          | inl x ↦ rw (e, l, x) (v, inr refl)
          | inr x ↦ rw (e, l, x) (collect-IsOutcome maximum rounds (p.1) v)
        ]
      ]
    ]

fail_ne_pass : ◌≢◌ {A = String} "fail" "pass"
fail_ne_pass h = grind (arith, h, eq_iff "fail" "pass")

exit_pass : (b : Bool) → ◌≡◌ {A = String} (if b then "pass" else "fail") "pass" → b ≡ true
exit_pass true h = refl
exit_pass false h = absurd (fail_ne_pass h)

passes :
    (rc : ℤ) (forced : Option String) (closed : Bool)
    → (((forced ≡ none) × (closed ≡ false)) ⊎ (forced ≡ some "timeout"))
      ⊎ (forced ≡ some "output_exhausted")
    → final_status forced rc ≡ "pass"
    → (rc ≡ pos 0) × (forced ≡ none)
passes rc (some t) closed (inl (inl p)) h = cc
passes rc (some t) closed (inl (inr e)) h = cc
passes rc (some t) closed (inr e) h = cc
passes (pos n) none closed w h = (ap pos (eqb→≡ n 0 (exit_pass (eqb n 0) h)), refl)
passes (negsuc n) none closed w h = absurd (fail_ne_pass h)

-- A run that passes has ended with 0, before the time was up, and its output is all that has been
-- read until both pipes were at their ends.
pub record IsPassed (rounds : List Round) (rc : ℤ) (f : Finished) : Type 0 where
  pub zero : rc ≡ pos 0
  pub returned : f.returncode ≡ rc
  pub collected : Collected
  pub undisturbed : Undisturbed rounds nothing_read collected
  pub output : f.output ≡ collected.out
  pub error_output : f.error_output ≡ collected.errors

-- However the process writes, the output that is returned has no more bytes than the maximum; and
-- a run passes only where the process has ended with 0, no round was late before both pipes were at
-- their ends, and nothing of what was read has been left out.
pub collect_bounded_bounds :
    (maximum : ℕ) (rounds : List Round) (rc : ℤ) (f : Finished)
    → collect_bounded maximum rounds rc ≡ some f
    → (length f.output + length f.error_output ≤ maximum)
      × ((f.status ≡ "pass") → IsPassed rounds rc f)
unfolding collect_bounded
collect_bounded_bounds maximum rounds rc f h =
    let start : IsWithin maximum nothing_read = record { counted = refl; bounded = omega arith } in
    finished (collect maximum rounds nothing_read) refl
      (collect-IsOutcome maximum rounds nothing_read start) h
  where
    finished :
        (o : Option (Option String × Collected))
        → collect maximum rounds nothing_read ≡ o
        → IsOutcome maximum o
        → finish rc o ≡ some f
        → (length f.output + length f.error_output ≤ maximum)
          × ((f.status ≡ "pass") → IsPassed rounds rc f)
    finished none given w e = cc
    finished (some (forced, c)) given w e =
        subst
          (λ (f : Finished).
            (length f.output + length f.error_output ≤ maximum)
            × ((f.status ≡ "pass") → IsPassed rounds rc f))
          (some-injective e)
          (
            omega (arith, w.0.counted, w.0.bounded),
            λ p.
                let (zero, free) = passes rc forced (is_open c) w.1 p in
                record {
                  zero = zero;
                  returned = refl;
                  collected = c;
                  undisturbed =
                      collect-Undisturbed maximum rounds nothing_read c
                        (given ∙ ap (λ o. some (o, c)) free);
                  output = refl;
                  error_output = refl;
                },
          )
