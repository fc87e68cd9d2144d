-- ===== src/Options/Laws.antt =====
-- What the TLS settings keep, and how options combine.
use fq_client_go.Common.{
  ℕ, true, Option, none, some, List, [], ◌∷◌, ◌++◌, Bytes, codes, ◌≡◌, ◌≢◌, refl, ap, subst, sym,
  ◌∙◌, ◌⊎◌, inl, inr, arith, Bool-cases, if◌then◌else◌,
}
use fq_client_go.Errors.{Error, message, wrap, Result, ok, err, ◌>>=◌, >>=-succeeds}
use fq_client_go.Text.{bytes_eq}
use fq_client_go.Text.Cut.{bytes_eq-≡}
use fq_client_go.Options.{
  TlsConfig, TlsSettings, Files, tls_min_version, with_roots, with_pair, cert_pool, map_error,
  first_config, build_config, version_tls12, version_tls13,
}

-- The version that the configuration names, 1.2 where it names none.
abbrev VersionKept : Bytes → ℕ → Type 0
VersionKept s v =
    (((s ≡ []) ⊎ (s ≡ codes "1.2")) × (v ≡ version_tls12))
    ⊎ ((s ≡ codes "1.3") × (v ≡ version_tls13))

-- The text of the CA file, which holds certificates, or no roots where no file is named.
abbrev RootsKept : Files → Bytes → Option Bytes → Type 0
RootsKept files path roots =
    ((path ≡ []) × (roots ≡ none))
    ⊎ ((path ≢ [])
        × (text : Bytes) × (files.read_file path ≡ ok text)
        × (files.has_certificates text ≡ true)
        × (roots ≡ some text))

-- The pair that the two files hold, or none where neither is named.
abbrev PairKept : Files → Bytes → Bytes → List Bytes → Type 0
PairKept files cert key certificates =
    ((cert ≡ []) × (key ≡ []) × (certificates ≡ []))
    ⊎ ((cert ≢ [])
        × (key ≢ [])
        × (pair : Bytes) × (files.key_pair cert key ≡ ok pair)
        × (certificates ≡ pair ∷ []))

-- What built settings owe the configuration.
pub record Built (files : Files) (c : TlsConfig) (t : TlsSettings) : Type 0 where
  pub version : VersionKept c.min_version t.min_version
  pub server_name : t.server_name ≡ c.server_name
  pub skip_verify : t.insecure_skip_verify ≡ c.skip_verify
  pub roots : RootsKept files c.ca_file t.root_cas
  pub pair : PairKept files c.cert_file c.key_file t.certificates

named-VersionKept : (s : Bytes) (v : ℕ) → s ≢ [] → tls_min_version s ≡ ok v → VersionKept s v
unfolding tls_min_version
named-VersionKept [] v n h = absurd (n refl)
named-VersionKept (c ∷ s) v n h = elim (Bool-cases (bytes_eq (c ∷ s) (codes "1.2"))) [
  | inl y ↦ inl (inr (bytes_eq-≡ (c ∷ s) (codes "1.2") y), ground arith)
  | inr n ↦ elim (Bool-cases (bytes_eq (c ∷ s) (codes "1.3"))) [
    | inl y ↦ inr (bytes_eq-≡ (c ∷ s) (codes "1.3") y, ground arith)
    | inr m ↦ ground arith
  ]
]

tls_min_version-VersionKept : (s : Bytes) (v : ℕ) → tls_min_version s ≡ ok v → VersionKept s v
unfolding tls_min_version
tls_min_version-VersionKept [] v h = inl (inl refl, ground arith)
tls_min_version-VersionKept (c ∷ s) v h = named-VersionKept (c ∷ s) v (λ x. cc) h

map_error-succeeds :
    {A : Type 0} (f : Error → Error) (r : Result A) (a : A) → map_error f r ≡ ok a → r ≡ ok a
unfolding map_error
map_error-succeeds f (ok b) a h = h
map_error-succeeds f (err e) a h = grind arith

cert_pool-read :
    (files : Files) (path pool : Bytes)
    → cert_pool files path ≡ ok pool
    → (files.read_file path ≡ ok pool) × (files.has_certificates pool ≡ true)
unfolding cert_pool
cert_pool-read files path pool h =
    let (text, got, rest) =
      >>=-succeeds (map_error (wrap (codes "read ca file " ++ path)) (files.read_file path))
        (λ text.
          if files.has_certificates text
          then ok text
          else err (message (codes "no certificates found in " ++ path)))
        h in
    let found = map_error-succeeds _ (files.read_file path) text got in
    elim (Bool-cases (files.has_certificates text)) [
      | inl y ↦
          let same : ok text ≡ ok pool = rw y at rest in
          let eq : text ≡ pool = cc in (found ∙ same, ap files.has_certificates (sym eq) ∙ y)
      | inr n ↦ absurd (
          let x : err (message (codes "no certificates found in " ++ path)) ≡ ok pool =
            rw n at rest in
          cc)
    ]

with_roots-keeps :
    (files : Files) (path : Bytes) (config t : TlsSettings)
    → with_roots files path config ≡ ok t
    → config.root_cas ≡ none
    → (t.min_version ≡ config.min_version)
      × (t.server_name ≡ config.server_name)
      × (t.insecure_skip_verify ≡ config.insecure_skip_verify)
      × (t.certificates ≡ config.certificates)
      × RootsKept files path t.root_cas
unfolding with_roots
with_roots-keeps files [] config t h e =
    let same : config ≡ t = grind arith in
    (
      ground arith,
      ground arith,
      ground arith,
      ground arith,
      inl (refl, ap (λ (x : TlsSettings). x.root_cas) (sym same) ∙ e),
    )
with_roots-keeps files (c ∷ path) config t h e =
    let (pool, got, set) =
      >>=-succeeds (cert_pool files (c ∷ path))
        (λ pool. ok (record config { root_cas = some pool })) h in
    let (read, found) = cert_pool-read files (c ∷ path) pool got in
    (
      ground arith,
      ground arith,
      ground arith,
      ground arith,
      inr ((λ x. cc), pool, read, found, ground arith),
    )

with_pair-keeps :
    (files : Files) (cert key : Bytes) (config t : TlsSettings)
    → with_pair files cert key config ≡ ok t
    → config.certificates ≡ []
    → (t.min_version ≡ config.min_version)
      × (t.server_name ≡ config.server_name)
      × (t.insecure_skip_verify ≡ config.insecure_skip_verify)
      × (t.root_cas ≡ config.root_cas)
      × PairKept files cert key t.certificates
unfolding with_pair
with_pair-keeps files [] [] config t h e =
    let same : config ≡ t = grind arith in
    (
      ground arith,
      ground arith,
      ground arith,
      ground arith,
      inl (refl, refl, ap (λ (x : TlsSettings). x.certificates) (sym same) ∙ e),
    )
with_pair-keeps files (c ∷ cert) [] config t h e = ground arith
with_pair-keeps files [] (k ∷ key) config t h e = ground arith
with_pair-keeps files (c ∷ cert) (k ∷ key) config t h e =
    let (certificate, got, set) =
      >>=-succeeds (map_error (wrap (codes "load key pair")) (files.key_pair (c ∷ cert) (k ∷ key)))
        (λ certificate. ok (record config { certificates = certificate ∷ [] })) h in
    (
      ground arith,
      ground arith,
      ground arith,
      ground arith,
      inr (
        (λ x. cc),
        (λ x. cc),
        certificate,
        map_error-succeeds _ (files.key_pair (c ∷ cert) (k ∷ key)) certificate got,
        ground arith,
      ),
    )

-- Building the settings from a configuration fails, or keeps what the configuration asks for: the
-- version that it names, 1.2 where it names none; its server name and its skip flag; the text of its
-- CA file as the roots, which holds certificates, and no roots where it names none; and the pair that
-- its certificate and key files hold when it names both, and no pair when it names neither.
pub build_config-Built :
    (files : Files) (c : TlsConfig) (t : TlsSettings)
    → build_config files c ≡ ok t
    → Built files c t
unfolding build_config
build_config-Built files c t h =
    let rest : ℕ → Result TlsSettings = λ version.
      with_roots files c.ca_file (first_config c version) >>= λ config.
      with_pair files c.cert_file c.key_file config in
    let (version, known, h1) = >>=-succeeds (tls_min_version c.min_version) rest h in
    let (config, rooted, h2) =
      >>=-succeeds (with_roots files c.ca_file (first_config c version))
        (λ config. with_pair files c.cert_file c.key_file config) h1 in
    let (v, n, k, e, r) =
      with_roots-keeps files c.ca_file (first_config c version) config rooted refl in
    let (v2, n2, k2, r2, p) = with_pair-keeps files c.cert_file c.key_file config t h2 e in
    record {
      version =
          subst (VersionKept c.min_version) (sym (v2 ∙ v))
            (tls_min_version-VersionKept c.min_version version known);
      server_name = n2 ∙ n;
      skip_verify = k2 ∙ k;
      roots = subst (RootsKept files c.ca_file) (sym r2) r;
      pair = p;
    }
