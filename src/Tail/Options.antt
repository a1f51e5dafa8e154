-- ===== src/Tail/Options.antt =====
-- `TailOptions` and `validateTailOptions`. Times are in nanoseconds, as in Go.
use log_reader.Prelude.{
  ℕ, ◌*◌, ◌≤◌, Bool, true, false, ◌≡◌, refl, ◌⊎◌, inl, inr, arith, Result, ok, err, ltb, ◌==◌,
  if◌then◌else◌, Bool-cases, ℤ, pos, negsuc, IsPositive,
}

pub record TailOptions : Type 0 where
  pub n : ℤ
  pub follow : Bool
  pub interval : ℤ

pub data OptionsError : Type 0 where
  invalid_n invalid_interval : OptionsError

abbrev pub default_tail_n : ℕ
default_tail_n = 10

abbrev pub default_follow_interval : ℕ
default_follow_interval = 500 * 1000000

abbrev pub max_tail_records : ℕ
max_tail_records = 100000

-- The default for 0, and the cap.
abbrev pub adjust_n : ℕ → ℕ
adjust_n n =
    let n' : ℕ = if n == 0 then default_tail_n else n in
    if ltb max_tail_records n' then max_tail_records else n'

abbrev pub check_interval : TailOptions → ℤ → Result OptionsError TailOptions
check_interval o (negsuc i) = err invalid_interval
check_interval o (pos i) =
    ok (record o { interval = if i == 0 then pos default_follow_interval else pos i })

abbrev pub check_n : TailOptions → ℤ → Result OptionsError TailOptions
check_n o (negsuc n) = err invalid_n
check_n o (pos n) =
    let o' : TailOptions = record o { n = pos (adjust_n n) } in
    if o.follow then check_interval o' o.interval else ok o'

unfoldable pub validate_tail_options : TailOptions → Result OptionsError TailOptions
validate_tail_options o = check_n o o.n

-- What each outcome of the check says.
abbrev pub IsNegative : ℤ → Type 0
IsNegative i = (k : ℕ) × (i ≡ negsuc k)

abbrev pub OptionsVerdict : TailOptions → Result OptionsError TailOptions → Type 0
OptionsVerdict o (err invalid_n) = IsNegative o.n
OptionsVerdict o (err invalid_interval) = (o.follow ≡ true) × IsNegative o.interval
OptionsVerdict o (ok d) =
    ((k : ℕ) × (d.n ≡ pos k) × (1 ≤ k) × (k ≤ max_tail_records))
    × (d.follow ≡ o.follow)
    × ((d.follow ≡ false) ⊎ IsPositive d.interval)
    × (validate_tail_options d ≡ ok d)

adjust_n_bounds : (n : ℕ) → (1 ≤ adjust_n n) × (adjust_n n ≤ max_tail_records)
adjust_n_bounds n = ground arith

adjust_n-adjust_n : (n : ℕ) → adjust_n (adjust_n n) ≡ adjust_n n
adjust_n-adjust_n n = ground arith

abbrev adjust_interval : ℕ → ℤ
adjust_interval i = if i == 0 then pos default_follow_interval else pos i

adjust_interval_bounds :
    (i : ℕ) → (k : ℕ) × (adjust_interval i ≡ pos k) × (1 ≤ k) × (adjust_interval k ≡ pos k)
adjust_interval_bounds i = elim (Bool-cases (i == 0)) [
  | inl z ↦ (default_follow_interval, rw z, omega arith, refl)
  | inr p ↦ (i, rw p, ground arith, rw p)
]

validate_fields :
    (n i : ℤ) (f : Bool)
    → let o : TailOptions = record { n = n; follow = f; interval = i } in
      OptionsVerdict o (validate_tail_options o)
unfolding validate_tail_options
validate_fields (negsuc n) i f = (n, refl)
validate_fields (pos n) i false = (
  (adjust_n n, refl, (adjust_n_bounds n).0, (adjust_n_bounds n).1),
  refl,
  inl refl,
  rw (adjust_n-adjust_n n) refl,
)
validate_fields (pos n) (negsuc i) true = (refl, (i, refl))
validate_fields (pos n) (pos i) true =
    let (k, e, p, again) = adjust_interval_bounds i in
    (
      (adjust_n n, refl, (adjust_n_bounds n).0, (adjust_n_bounds n).1),
      refl,
      inr (rw e (ground arith)),
      rw (e, adjust_n-adjust_n n, again) refl,
    )

-- For any options: if they are accepted, the number of records is then between 1 and 100000, the
-- interval is positive where the file is followed, and a second check changes nothing. An error says
-- that the number is negative, or that the file is followed and the interval is negative.
pub validate_tail_options-OptionsVerdict :
    (o : TailOptions) → OptionsVerdict o (validate_tail_options o)
validate_tail_options-OptionsVerdict o = validate_fields o.n o.interval o.follow
