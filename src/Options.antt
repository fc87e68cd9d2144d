-- ===== src/Options.antt =====
-- options.go: the options of a client, and the TLS settings. Files, key pairs and certificates are
-- read by the standard library; what it answers is the record `Files`.
pub mod Laws
use fq_client_go.Common.{
  ℕ, Bool, true, false, not, ◌&&◌, ◌||◌, Option, none, some, List, [], ◌∷◌, ◌++◌, Bytes, codes,
  if◌then◌else◌,
}
use fq_client_go.Errors.{
  Error, sentinel, message, wrap, annotate, tls_key_pair_incomplete, tls_unknown_min_version,
  Result, ok, err, ◌>>=◌,
}
use fq_client_go.Text.{bytes_eq}

pub record TlsConfig : Type 0 where
  pub ca_file : Bytes
  pub cert_file : Bytes
  pub key_file : Bytes
  pub server_name : Bytes
  pub skip_verify : Bool
  pub min_version : Bytes

-- The fields of `tls.Config` that are set here. `root_cas` is the text of the certificates.
pub record TlsSettings : Type 0 where
  pub min_version : ℕ
  pub server_name : Bytes
  pub insecure_skip_verify : Bool
  pub root_cas : Option Bytes
  pub certificates : List Bytes

pub record Files : Type 0 where
  -- `os.ReadFile`
  pub read_file : Bytes → Result Bytes
  -- `pool.AppendCertsFromPEM`
  pub has_certificates : Bytes → Bool
  -- `tls.LoadX509KeyPair`
  pub key_pair : Bytes → Bytes → Result Bytes

abbrev pub version_tls12 : ℕ
version_tls12 = 0x0303

abbrev pub version_tls13 : ℕ
version_tls13 = 0x0304

abbrev pub is_empty_text : Bytes → Bool
is_empty_text [] = true
is_empty_text (c ∷ s) = false

unfoldable pub empty : TlsConfig → Bool
empty c =
    is_empty_text c.ca_file
    && (is_empty_text c.cert_file
        && (is_empty_text c.key_file
            && (is_empty_text c.server_name && (is_empty_text c.min_version && not c.skip_verify))))

unfoldable pub tls_min_version : Bytes → Result ℕ
tls_min_version value =
    if is_empty_text value || bytes_eq value (codes "1.2")
    then ok version_tls12
    else if bytes_eq value (codes "1.3")
    then ok version_tls13
    else err (annotate (sentinel tls_unknown_min_version) value)

unfoldable pub map_error {ℓ} : {A : Type ℓ} → (Error → Error) → Result A → Result A
map_error f (ok a) = ok a
map_error f (err e) = err (f e)

unfoldable pub cert_pool : Files → Bytes → Result Bytes
cert_pool files path = do
  text ← map_error (wrap (codes "read ca file " ++ path)) (files.read_file path)
  if files.has_certificates text
      then ok text
      else err (message (codes "no certificates found in " ++ path))

-- `if c.CAFile != ""`
unfoldable pub with_roots : Files → Bytes → TlsSettings → Result TlsSettings
with_roots files [] config = ok config
with_roots files (c ∷ path) config = do
  pool ← cert_pool files (c ∷ path)
  ok (record config { root_cas = some pool })

-- `if c.CertFile != "" || c.KeyFile != ""`
unfoldable pub with_pair : Files → Bytes → Bytes → TlsSettings → Result TlsSettings
with_pair files [] [] config = ok config
with_pair files (c ∷ cert) [] config = err (sentinel tls_key_pair_incomplete)
with_pair files [] (k ∷ key) config = err (sentinel tls_key_pair_incomplete)
with_pair files (c ∷ cert) (k ∷ key) config = do
  certificate ← map_error (wrap (codes "load key pair")) (files.key_pair (c ∷ cert) (k ∷ key))
  ok (record config { certificates = certificate ∷ [] })

-- The literal that `build` starts from.
abbrev pub first_config : TlsConfig → ℕ → TlsSettings
first_config c version = record {
  min_version = version;
  server_name = c.server_name;
  insecure_skip_verify = c.skip_verify;
  root_cas = none;
  certificates = [];
}

unfoldable pub build_config : Files → TlsConfig → Result TlsSettings
build_config files c = do
  version ← tls_min_version c.min_version
  config ← with_roots files c.ca_file (first_config c version)
  with_pair files c.cert_file c.key_file config

unfoldable pub build : Files → TlsConfig → Result (Option TlsSettings)
unfolding build_config
build files c = if empty c then ok none else build_config files c >>= λ t. ok (some t)

pub record ClientOptions : Type 0 where
  pub token : Bytes
  pub tls_config : Option TlsSettings

-- An `Option` is a function that changes the options or fails; nil is `none` in a list of them.
abbrev pub ClientOption : Type 0
ClientOption = ClientOptions → Result ClientOptions

unfoldable pub with_token : Bytes → ClientOption
with_token token o = ok (record o { token = token })

unfoldable pub with_tls : Files → TlsConfig → ClientOption
with_tls files config o = do built ← build files config; ok (record o { tls_config = built })

unfoldable pub with_tls_config : Option TlsSettings → ClientOption
with_tls_config config o = ok (record o { tls_config = config })

abbrev pub zero_options : ClientOptions
zero_options = record { token = []; tls_config = none }

-- The loop of `applyOptions`.
unfoldable pub apply_from : ClientOptions → List (Option ClientOption) → Result ClientOptions
apply_from settings [] = ok settings
apply_from settings (none ∷ opts) = apply_from settings opts
apply_from settings (some opt ∷ opts) = opt settings >>= λ next. apply_from next opts

unfoldable pub apply_options : List (Option ClientOption) → Result ClientOptions
unfolding apply_from
apply_options opts = apply_from zero_options opts
