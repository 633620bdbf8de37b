-- ===== src/Config/Tls/Examples.antt =====
-- A listener of src/config/ConfigResolver.cpp with a PKCS#12 bundle.
use moqx.Base.{◌≡◌, refl, [], ◌∷◌, Option, none, some, false, Bytes}
use moqx.Config.Tls.{
  ParsedTls, validate_listener_tls, resolve_pkcs12_password, with_password, resolve_pkcs12_material,
  resolve_tls_config,
}
use moqx.Config.Tls.Credentials.{HasCredentials, resolve_tls_config-HasCredentials}

abbrev bundle : ParsedTls
bundle = record {
  cert_file = none;
  key_file = none;
  pkcs12_file = some (98 ∷ []);
  pkcs12_password = none;
  pkcs12_password_file = some (112 ∷ []);
  pkcs12_password_env = none;
}

abbrev read_secret : Bytes → Option Bytes
read_secret name = some (115 ∷ 13 ∷ 10 ∷ [])

abbrev no_variable : Bytes → Option Bytes
no_variable name = none

abbrev load_by_password : Bytes → Bytes → Option Bytes
load_by_password file [] = none
load_by_password file (c ∷ cs) = some (c ∷ cs)

valid_bundle : (validate_listener_tls false bundle).0 ≡ []
unfolding validate_listener_tls
valid_bundle = refl

bundle_loads : (resolve_pkcs12_material read_secret no_variable load_by_password bundle).1 ≡ []
unfolding resolve_pkcs12_material resolve_pkcs12_password with_password
bundle_loads = refl

resolve_tls_config-HasCredentials_example : HasCredentials (
    resolve_tls_config read_secret no_variable load_by_password bundle
      (resolve_pkcs12_material read_secret no_variable load_by_password bundle).0)
resolve_tls_config-HasCredentials_example =
    resolve_tls_config-HasCredentials read_secret no_variable load_by_password bundle valid_bundle
      bundle_loads
