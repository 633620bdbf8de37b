-- ===== src/Config/Tls/Credentials.antt =====
-- A server of src/config/ConfigResolver.cpp never starts without credentials that it needs.
use moqx.Base.{
  ◌≡◌, refl, ◌⊎◌, inl, inr, [], ◌∷◌, Option, none, some, Bool, true, false, ◌||◌, Bytes, Bool-cases,
}
use moqx.Config.Tls.{
  ParsedTls, TlsConfig, is_set, or_empty, validate_admin_tls, validate_listener_tls, PasswordResult,
  password, failed, resolve_pkcs12_password, loaded, with_password, resolve_pkcs12_material,
  file_unless, resolve_tls_config,
}

abbrev pub is_full : Bytes → Bool
is_full [] = false
is_full (c ∷ cs) = true

-- Loaded key material, or a certificate file and a key file.
abbrev pub HasCredentials : {Material : Type 0} → TlsConfig Material → Type 0
HasCredentials {Material} c =
    ((m : Material) × (c.material ≡ some m))
    ⊎ ((is_full c.cert_file ≡ true) × (is_full c.key_file ≡ true))

full_if_set : (o : Option Bytes) → is_set o ≡ true → is_full (or_empty o) ≡ true
unfolding is_set or_empty
full_if_set none e = cc
full_if_set (some []) e = cc
full_if_set (some (c ∷ cs)) e = refl

module _ {Material : Type 0} (read_file getenv : Bytes → Option Bytes)
    (load_pkcs12_file : Bytes → Bytes → Option Material) where
  loaded_lem :
      (o : Option Material)
      → (loaded read_file getenv load_pkcs12_file o).1 ≡ []
      → (m : Material) × ((loaded read_file getenv load_pkcs12_file o).0 ≡ some m)
  unfolding loaded
  loaded_lem none e = cc
  loaded_lem (some m) e = (m, refl)

  with_password_lem :
      (file : Bytes) (pw : PasswordResult)
      → (with_password read_file getenv load_pkcs12_file file pw).1 ≡ []
      → (m : Material) × ((with_password read_file getenv load_pkcs12_file file pw).0 ≡ some m)
  unfolding with_password
  with_password_lem file (failed problem) e = cc
  with_password_lem file (password pw) e = loaded_lem (load_pkcs12_file file pw) e

  -- Listener settings that are not insecure, whose validation and whose PKCS#12 bundle report no
  -- error, resolve to loaded key material or to a certificate file and a key file.
  pub resolve_tls_config-HasCredentials :
      (tls : ParsedTls)
      → (validate_listener_tls false tls).0 ≡ []
      → (resolve_pkcs12_material read_file getenv load_pkcs12_file tls).1 ≡ []
      → HasCredentials (
          resolve_tls_config read_file getenv load_pkcs12_file tls
            (resolve_pkcs12_material read_file getenv load_pkcs12_file tls).0)
  unfolding validate_listener_tls validate_admin_tls resolve_pkcs12_material resolve_tls_config
  resolve_tls_config-HasCredentials tls e r = elim (Bool-cases (is_set tls.pkcs12_file)) [
    | inr p ↦ elim (Bool-cases (is_set tls.cert_file)) [
      | inr c ↦ cc (rw (p, c) at e)
      | inl c ↦ elim (Bool-cases (is_set tls.key_file)) [
        | inr k ↦ cc (rw (p, c, k) at e)
        | inl k ↦
            rw (p, file_unless) (inr (full_if_set tls.cert_file c, full_if_set tls.key_file k))
      ]
    ]
    | inl p ↦ elim (Bool-cases (is_set tls.cert_file || is_set tls.key_file)) [
      | inl both ↦ cc (rw (p, both) at e)
      | inr neither ↦
          let (m, q) =
            with_password_lem (or_empty tls.pkcs12_file)
              (resolve_pkcs12_password read_file getenv load_pkcs12_file tls)
              (rw (p, neither) at r) in
          rw (p, neither) (inl (m, q))
    ]
  ]
