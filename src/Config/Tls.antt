-- ===== src/Config/Tls.antt =====
-- The TLS credentials of a listener and of the admin server: src/config/ConfigResolver.cpp. The
-- file system, the environment and loadPkcs12File are parameters.
pub mod Credentials
pub mod Examples
use moqx.Base.{
  ℕ, ◌+◌, List, [], ◌∷◌, ◌++◌, Option, none, some, Bool, true, false, ◌&&◌, ◌||◌, not,
  if◌then◌else◌, ltb, nat_eq, Bytes,
}

-- The fields that ParsedListenerTlsConfig and ParsedAdminTlsConfig share.
pub record ParsedTls : Type 0 where
  pub cert_file : Option Bytes
  pub key_file : Option Bytes
  pub pkcs12_file : Option Bytes
  pub pkcs12_password : Option Bytes
  pub pkcs12_password_file : Option Bytes
  pub pkcs12_password_env : Option Bytes

pub record TlsConfig (Material : Type 0) : Type 0 where
  pub cert_file : Bytes
  pub key_file : Bytes
  pub alpn : List Bytes
  pub material : Option Material

pub data TlsProblem : Type 0 where
  several_passwords pkcs12_exclusive credentials_required : TlsProblem
  password_unreadable password_unset pkcs12_failed : TlsProblem

-- `has_value() && !empty()`
pub is_set : Option Bytes → Bool
is_set none = false
is_set (some []) = false
is_set (some (c ∷ cs)) = true

is_given : Option Bytes → Bool
is_given none = false
is_given (some cs) = true

or_empty : Option Bytes → Bytes
or_empty none = []
or_empty (some cs) = cs

-- validatePkcs12PasswordExclusivity
validate_passwords : ParsedTls → List TlsProblem
unfolding is_set is_given
validate_passwords tls =
    let inline_one = (if is_given tls.pkcs12_password then 1 else 0) in
    let file_one = (if is_set tls.pkcs12_password_file then 1 else 0) in
    let env_one = (if is_set tls.pkcs12_password_env then 1 else 0) in
    if ltb 1 (inline_one + file_one + env_one) then several_passwords ∷ [] else []

-- validateAdminTlsConfig
pub validate_admin_tls : ParsedTls → List TlsProblem
unfolding validate_passwords is_set
validate_admin_tls tls =
    if is_set tls.pkcs12_file
    then (if is_set tls.cert_file || is_set tls.key_file then pkcs12_exclusive ∷ [] else [])
      ++ validate_passwords tls
    else if not (is_set tls.cert_file) || not (is_set tls.key_file)
    then credentials_required ∷ []
    else []

-- validateListenerTlsConfig: the errors, and whether it warns
pub validate_listener_tls : Bool → ParsedTls → List TlsProblem × Bool
unfolding validate_admin_tls is_set
validate_listener_tls insecure tls =
    if insecure
    then ([], is_set tls.cert_file || is_set tls.key_file || is_set tls.pkcs12_file)
    else (validate_admin_tls tls, false)

pub data PasswordResult : Type 0 where
  password : Bytes → PasswordResult
  failed : TlsProblem → PasswordResult

-- The text without a last character, if it is this one.
strip_last : ℕ → Bytes → Bytes
strip_last c [] = []
strip_last c (d ∷ []) = if nat_eq d c then [] else d ∷ []
strip_last c (d ∷ e ∷ ds) = d ∷ strip_last c (e ∷ ds)

of_file : Option Bytes → PasswordResult
unfolding strip_last
of_file none = failed password_unreadable
of_file (some text) = password (strip_last 13 (strip_last 10 text))

of_env : Option Bytes → PasswordResult
of_env none = failed password_unset
of_env (some value) = password value

module _ {Material : Type 0} (read_file getenv : Bytes → Option Bytes)
    (load_pkcs12_file : Bytes → Bytes → Option Material) where
  pub resolve_pkcs12_password : ParsedTls → PasswordResult
  unfolding of_file of_env is_set or_empty
  resolve_pkcs12_password tls =
      if is_set tls.pkcs12_password_file
      then of_file (read_file (or_empty tls.pkcs12_password_file))
      else if is_set tls.pkcs12_password_env
      then of_env (getenv (or_empty tls.pkcs12_password_env))
      else password (or_empty tls.pkcs12_password)

  loaded : Option Material → Option Material × List TlsProblem
  loaded none = (none, pkcs12_failed ∷ [])
  loaded (some m) = (some m, [])

  with_password : Bytes → PasswordResult → Option Material × List TlsProblem
  unfolding loaded
  with_password file (failed problem) = (none, problem ∷ [])
  with_password file (password pw) = loaded (load_pkcs12_file file pw)

  -- resolvePkcs12Material: the material, and the errors that it adds
  pub resolve_pkcs12_material : ParsedTls → Option Material × List TlsProblem
  unfolding is_set or_empty
  resolve_pkcs12_material tls =
      if not (is_set tls.pkcs12_file)
      then (none, [])
      else if is_set tls.cert_file || is_set tls.key_file
      then (none, [])
      else with_password (or_empty tls.pkcs12_file) (resolve_pkcs12_password tls)

  file_unless : Option Material → Option Bytes → Bytes
  unfolding or_empty
  file_unless none file = or_empty file
  file_unless (some m) file = []

  pub resolve_tls_config : ParsedTls → Option Material → TlsConfig Material
  unfolding file_unless
  resolve_tls_config tls material = record {
    cert_file = file_unless material tls.cert_file;
    key_file = file_unless material tls.key_file;
    alpn = [];
    material = material;
  }
