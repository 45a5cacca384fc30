-- ===== src/Checks/Reports.antt =====
-- The report of a failure in the handlers of the three workers: `call_ledger` is called behind its
-- arguments, the delay of the config and the time that is left, each of which may raise. The command
-- of the adapter and the fields of the job were checked before the run.
use frankensteinz_hermes.Base.{
  arith, ltb, leb, ℕ, Bool, Result, Option, false, true, none, some, err, ok, refl, ◌>>=◌,
  if◌then◌else◌, ◌-◌, ◌≡◌, ◌&&◌,
}
use frankensteinz_hermes.Python.{Value, Exn, key_error}

-- `config["ledger"].get("retry_delay_seconds")`, the seconds that have passed, and the budget.
pub record Reporting : Type 0 where
  pub delay : Option Value
  pub elapsed : ℕ
  pub wall : ℕ

abbrev pub is_present : Option Value → Bool
is_present none = false
is_present (some v) = true

abbrev pub is_ok : Result Exn (Unit {0}) → Bool
is_ok (ok u) = true
is_ok (err e) = false

-- `d[key]`, for the entry that `d.get(key)` gives
abbrev pub require_key : Option Value → Result Exn Value
require_key none = err key_error
require_key (some v) = ok v

-- The arguments of the call, in the order in which they are evaluated. `left` is `remaining`.
unfoldable pub arguments : (ℕ → ℕ → Result Exn ℕ) → Reporting → Result Exn (Unit {0})
arguments left r = do delay ← require_key r.delay; timeout ← left r.elapsed r.wall; ok tt

-- The config has the delay, and the budget is not exhausted.
abbrev pub can_report : Reporting → Bool
can_report r = is_present r.delay && ltb r.elapsed r.wall

pub arguments-can_report :
    (left : ℕ → ℕ → Result Exn ℕ) (e : Exn) (r : Reporting)
    → ((elapsed wall : ℕ)
        → left elapsed wall ≡ (if leb wall elapsed then err e else ok (wall - elapsed)))
    → is_ok (arguments left r) ≡ can_report r
unfolding arguments
arguments-can_report left e r same = go r.delay (left r.elapsed r.wall) (same r.elapsed r.wall)
  where
    go :
        (o : Option Value) (l : Result Exn ℕ)
        → l ≡ (if leb r.wall r.elapsed then err e else ok (r.wall - r.elapsed))
        → is_ok (require_key o >>= λ delay. l >>= λ timeout. ok tt)
          ≡ (is_present o && ltb r.elapsed r.wall)
    go none l h = refl
    go (some v) (err x) h = ground arith
    go (some v) (ok n) h = ground arith
