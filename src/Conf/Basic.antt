-- ===== src/Conf/Basic.antt =====
-- `ConfBasic` and its check, reader_conf/conf_basic.go. An `int` is an integer without a bound here:
-- the check does no arithmetic on it that could overflow.
use log_reader.Prelude.{
  ℕ, ◌≤◌, ◌%◌, String, Bool, true, false, not, ◌||◌, ◌≡◌, refl, subst, ◌⊎◌, inl, inr, arith, Result,
  ok, err, ◌>>=◌, ltb, leb, ◌==◌, if◌then◌else◌, if_elim_eq, ℤ, pos, negsuc, le_const, lt_const,
  upto, upto_sound, Bool-cases,
}

pub record ConfBasic : Type 0 where
  pub max_cpus : ℤ
  pub http_port : ℤ
  pub http_addr : String
  pub monitor_interval : ℤ
  pub program_name : String

pub data BasicError : Type 0 where
  max_cpus_too_small http_port_out_of_range monitor_not_divisor monitor_too_small : BasicError

-- The part on `MonitorInterval`: its new value, or an error.
unfoldable pub check_monitor : ℤ → Result BasicError ℤ
check_monitor (negsuc n) = ok (pos 20)
check_monitor (pos n) =
    if leb n 0
    then ok (pos 20)
    else if ltb 60 n
    then ok (pos 60)
    else if ltb 0 (60 % n)
    then err monitor_not_divisor
    else if ltb n 20
    then err monitor_too_small
    else ok (pos n)

unfoldable pub basic_conf_check : ConfBasic → Result BasicError ConfBasic
unfolding check_monitor
basic_conf_check c =
    if le_const c.max_cpus 0
    then err max_cpus_too_small
    else if lt_const c.http_port 0 || not (le_const c.http_port 65535)
    then err http_port_out_of_range
    else do m ← check_monitor c.monitor_interval; ok (record c { monitor_interval = m })

abbrev allowed : ℕ → Bool
allowed n = n == 20 || (n == 30 || n == 60)

-- Of the divisors of 60 from 20 on there are three.
divisors : upto (λ n. (ltb 0 (60 % n) || ltb n 20) || allowed n) 60 ≡ true
divisors = refl

-- What each outcome of the check says.
abbrev pub IntervalVerdict : ℤ → Result BasicError ℤ → Type 0
IntervalVerdict m (ok i) = ((i ≡ pos 20) ⊎ ((i ≡ pos 30) ⊎ (i ≡ pos 60))) × (check_monitor i ≡ ok i)
IntervalVerdict (pos n) (err monitor_not_divisor) = (n ≤ 60) × (1 ≤ 60 % n)
IntervalVerdict (pos n) (err monitor_too_small) = (1 ≤ n) × (n ≤ 19)
IntervalVerdict _ (err _) = ⊥

not_cpus : (m : ℤ) → IntervalVerdict m (err max_cpus_too_small) → ⊥
not_cpus (pos n) v = v
not_cpus (negsuc n) v = v

not_port : (m : ℤ) → IntervalVerdict m (err http_port_out_of_range) → ⊥
not_port (pos n) v = v
not_port (negsuc n) v = v

abbrev Kept : ℕ → Type 0
Kept n = IntervalVerdict (pos n) (ok (pos n))

allowed-Kept : (n : ℕ) → allowed n ≡ true → Kept n
unfolding check_monitor
allowed-Kept n e = elim (Bool-cases (n == 20)) [
  | inl a ↦ subst Kept (same 20 a) (inl refl, refl)
  | inr a ↦ elim (Bool-cases (n == 30)) [
    | inl b ↦ subst Kept (same 30 b) (inr (inl refl), refl)
    | inr b ↦ subst Kept (same 60 (ground arith)) (inr (inr refl), refl)
  ]
]
  where
    same : (k : ℕ) → (n == k) ≡ true → k ≡ n
    same k t = ground arith

check_monitor-IntervalVerdict : (m : ℤ) → IntervalVerdict m (check_monitor m)
unfolding check_monitor
check_monitor-IntervalVerdict (negsuc n) = (inl refl, refl)
check_monitor-IntervalVerdict (pos n) =
    let V : Result BasicError ℤ → Type 0 = IntervalVerdict (pos n) in
    if_elim_eq V (leb n 0) _ _ (λ z. (inl refl, refl))
      (λ p.
        if_elim_eq V (ltb 60 n) _ _ (λ b. (inr (inr refl), refl))
          (λ s.
            if_elim_eq V (ltb 0 (60 % n)) _ _ (λ d. (ground arith, ground arith))
              (λ d.
                if_elim_eq V (ltb n 20) _ _ (λ t. (ground arith, ground arith))
                  (λ t. allowed-Kept n (found p s d t)))))
  where
    found :
        leb n 0 ≡ false
        → ltb 60 n ≡ false
        → ltb 0 (60 % n) ≡ false
        → ltb n 20 ≡ false
        → allowed n ≡ true
    found p s d t =
        let row : ((ltb 0 (60 % n) || ltb n 20) || allowed n) ≡ true =
          upto_sound (λ k. (ltb 0 (60 % k) || ltb k 20) || allowed k) 60 n (ground arith)
            divisors in
        ground arith

-- What each outcome of the check says of the settings.
abbrev pub BasicVerdict : ConfBasic → Result BasicError ConfBasic → Type 0
BasicVerdict c (ok d) =
    (le_const d.max_cpus 0 ≡ false)
    × (lt_const d.http_port 0 ≡ false)
    × (le_const d.http_port 65535 ≡ true)
    × ((d.monitor_interval ≡ pos 20)
        ⊎ ((d.monitor_interval ≡ pos 30) ⊎ (d.monitor_interval ≡ pos 60)))
    × (basic_conf_check d ≡ ok d)
BasicVerdict c (err max_cpus_too_small) = le_const c.max_cpus 0 ≡ true
BasicVerdict c (err http_port_out_of_range) =
    (lt_const c.http_port 0 || not (le_const c.http_port 65535)) ≡ true
BasicVerdict c (err e) = IntervalVerdict c.monitor_interval (err e)

-- For any settings: if the check succeeds, then MaxCpus is positive, HttpPort is between 0 and 65535,
-- MonitorInterval is 20, 30 or 60, and a second check changes nothing. If it fails, the error says
-- which setting is at fault: MaxCpus is not positive, HttpPort is not in that range, or
-- MonitorInterval is positive, at most 60, and does not divide 60 or is less than 20.
pub basic_conf_check-BasicVerdict : (c : ConfBasic) → BasicVerdict c (basic_conf_check c)
unfolding basic_conf_check
basic_conf_check-BasicVerdict c =
    if_elim_eq (BasicVerdict c) (le_const c.max_cpus 0) _ _ (λ e. e)
      (λ m.
        if_elim_eq (BasicVerdict c) (lt_const c.http_port 0 || not (le_const c.http_port 65535)) _ _
          (λ e. e)
          (λ p.
            go m p (check_monitor c.monitor_interval)
              (check_monitor-IntervalVerdict c.monitor_interval)))
  where
    go :
        le_const c.max_cpus 0 ≡ false
        → (lt_const c.http_port 0 || not (le_const c.http_port 65535)) ≡ false
        → (r : Result BasicError ℤ) → IntervalVerdict c.monitor_interval r
        → BasicVerdict c (r >>= λ m. ok (record c { monitor_interval = m }))
    go m p (ok i) (v, again) = (m, ground arith, ground arith, v, rw (m, p, again) refl)
    go m p (err monitor_not_divisor) v = v
    go m p (err monitor_too_small) v = v
    go m p (err max_cpus_too_small) v = absurd (not_cpus c.monitor_interval v)
    go m p (err http_port_out_of_range) v = absurd (not_port c.monitor_interval v)
