-- ===== src/Conf/AccessLog.antt =====
-- `PbAccessLogConf` and its check, reader_conf/conf_access_pb.go.
use log_reader.Prelude.{
  is_nil, String, Bool, true, false, not, ◌&&◌, ◌≡◌, refl, sym, ◌∙◌, arith, List, [], ◌∷◌, ◌++◌,
  append-nil, append_assoc, Result, ok, err, ◌>>=◌, str_eq, if◌then◌else◌, if_elim_eq, inl, inr,
  ◌⊎◌, IsPositive, false≢true, All, ℤ, negsuc, le_const,
}
use log_reader.Fields.Names.{contains}
use log_reader.Conf.Modules.{parse_module, modules_support}

pub record PbAccessLogConf : Type 0 where
  pub log_file : String
  pub modules : List String
  pub max_size_per_batch : ℤ
  pub final_modules : List String

pub data AccessLogError : Type 0 where
  modules_missing log_file_missing : AccessLogError
  not_supported : String → AccessLogError

-- The loop over the modules.
unfoldable pub check_modules : List String → List String → Result AccessLogError (List String)
unfolding parse_module
check_modules [] final = ok final
check_modules (m ∷ ms) final =
    let (name, enable) = parse_module m in
    let more : Result AccessLogError (List String) =
      check_modules ms (if enable then final ++ (name ∷ []) else final) in
    if not (contains name modules_support) then err (not_supported m) else more

-- `Check`.
unfoldable pub pb_access_log_conf_check : PbAccessLogConf → Result AccessLogError PbAccessLogConf
unfolding check_modules
pb_access_log_conf_check c =
    let size : ℤ = if le_const c.max_size_per_batch 0 then negsuc 0 else c.max_size_per_batch in
    if not (str_eq c.log_file "") && is_nil c.modules
    then err modules_missing
    else if str_eq c.log_file "" && not (is_nil c.modules)
    then err log_file_missing
    else if not (str_eq c.log_file "") && not (is_nil c.modules)
    then check_modules c.modules c.final_modules
      >>= (λ final. ok (record c { final_modules = final; max_size_per_batch = size }))
    else ok (record c { max_size_per_batch = size })

-- The names of the modules that are not disabled, in order.
abbrev pub enabled : List String → List String
enabled [] = []
enabled (m ∷ ms) =
    let rest : List String = enabled ms in
    if (parse_module m).1 then (parse_module m).0 ∷ rest else rest

abbrev pub Supported : String → Type 0
Supported m = contains (parse_module m).0 modules_support ≡ true

-- What each outcome of the loop says.
abbrev pub ModulesVerdict : List String → List String → Result AccessLogError (List String) → Type 0
ModulesVerdict ms final (ok out) = (out ≡ final ++ enabled ms) × All Supported ms
ModulesVerdict ms final (err (not_supported m)) =
    contains (parse_module m).0 modules_support ≡ false
ModulesVerdict ms final (err e) = ⊥

check_modules-ModulesVerdict :
    (ms final : List String) → ModulesVerdict ms final (check_modules ms final)
unfolding check_modules
check_modules-ModulesVerdict [] final = (sym (append-nil final), tt)
check_modules-ModulesVerdict (m ∷ ms) final =
    if_elim_eq (ModulesVerdict (m ∷ ms) final) (not (contains (parse_module m).0 modules_support)) _
      _ (λ n. ground arith)
      (λ s.
        step
          (check_modules ms
            (if (parse_module m).1 then final ++ ((parse_module m).0 ∷ []) else final))
          (ground arith)
          (check_modules-ModulesVerdict ms
            (if (parse_module m).1 then final ++ ((parse_module m).0 ∷ []) else final)))
  where
    same :
        (b : Bool) (n : String)
        → (if b then final ++ (n ∷ []) else final) ++ enabled ms
          ≡ final ++ (if b then n ∷ enabled ms else enabled ms)
    same true n = append_assoc final (n ∷ []) (enabled ms)
    same false n = refl

    step :
        (r : Result AccessLogError (List String))
        → Supported m
        → ModulesVerdict ms
            (if (parse_module m).1 then final ++ ((parse_module m).0 ∷ []) else final)
            r
        → ModulesVerdict (m ∷ ms) final r
    step (ok out) s (e, a) = (e ∙ same (parse_module m).1 (parse_module m).0, (s, a))
    step (err (not_supported k)) s v = v
    step (err modules_missing) s v = v
    step (err log_file_missing) s v = v

-- What each outcome of the check says.
abbrev pub AccessLogVerdict : PbAccessLogConf → Result AccessLogError PbAccessLogConf → Type 0
AccessLogVerdict c (ok d) =
    (str_eq c.log_file "" ≡ is_nil c.modules)
    × (d.final_modules ≡ c.final_modules ++ enabled c.modules)
    × All Supported c.modules
    × ((d.max_size_per_batch ≡ negsuc 0) ⊎ IsPositive d.max_size_per_batch)
AccessLogVerdict c (err modules_missing) =
    (str_eq c.log_file "" ≡ false) × (is_nil c.modules ≡ true)
AccessLogVerdict c (err log_file_missing) =
    (str_eq c.log_file "" ≡ true) × (is_nil c.modules ≡ false)
AccessLogVerdict c (err (not_supported m)) = contains (parse_module m).0 modules_support ≡ false

-- For any settings: if the check succeeds, the log file is empty exactly when there are no modules,
-- every module is supported, the modules to load are those there were before and then the names of
-- the listed modules that are not disabled, in order, and the batch size is -1 or positive. An error
-- says that only one of log file and modules is set, or names a module that is not supported.
pub pb_access_log_conf_check-AccessLogVerdict :
    (c : PbAccessLogConf) → AccessLogVerdict c (pb_access_log_conf_check c)
unfolding pb_access_log_conf_check
pb_access_log_conf_check-AccessLogVerdict c =
    if_elim_eq (AccessLogVerdict c) (not (str_eq c.log_file "") && is_nil c.modules) _ _
      (λ e. (ground arith, ground arith))
      (λ a.
        if_elim_eq (AccessLogVerdict c) (str_eq c.log_file "" && not (is_nil c.modules)) _ _
          (λ e. (ground arith, ground arith))
          (λ b.
            if_elim_eq (AccessLogVerdict c) (not (str_eq c.log_file "") && not (is_nil c.modules)) _
              _
              (λ d.
                loaded (ground arith) (check_modules c.modules c.final_modules)
                  (check_modules-ModulesVerdict c.modules c.final_modules))
              (λ d. none_set c.modules (ground arith) (ground arith))))
  where
    sized :
        (n : ℤ)
        → ((if le_const n 0 then negsuc 0 else n) ≡ negsuc 0)
          ⊎ IsPositive (if le_const n 0 then negsuc 0 else n)
    sized n =
        if_elim_eq (λ (s : ℤ). (s ≡ negsuc 0) ⊎ IsPositive s) (le_const n 0) (negsuc 0) n
          (λ e. inl refl) (λ e. inr e)

    loaded :
        str_eq c.log_file "" ≡ is_nil c.modules
        → (r : Result AccessLogError (List String)) → ModulesVerdict c.modules c.final_modules r
        → AccessLogVerdict c (
            r >>= λ final. ok (record c {
              final_modules = final;
              max_size_per_batch =
                  if le_const c.max_size_per_batch 0 then negsuc 0 else c.max_size_per_batch;
            }))
    loaded h (ok out) (e, a) = (h, e, a, sized c.max_size_per_batch)
    loaded h (err (not_supported m)) v = v
    loaded h (err modules_missing) v = absurd v
    loaded h (err log_file_missing) v = absurd v

    none_set :
        (ms : List String)
        → is_nil ms ≡ true
        → str_eq c.log_file "" ≡ is_nil ms
        → (str_eq c.log_file "" ≡ is_nil ms)
          × (c.final_modules ≡ c.final_modules ++ enabled ms)
          × All Supported ms
          × (((if le_const c.max_size_per_batch 0 then negsuc 0 else c.max_size_per_batch)
                ≡ negsuc 0)
              ⊎ IsPositive
                  (if le_const c.max_size_per_batch 0 then negsuc 0 else c.max_size_per_batch))
    none_set [] n h = (h, sym (append-nil c.final_modules), tt, sized c.max_size_per_batch)
    none_set (m ∷ ms) n h = absurd (false≢true n)
