-- ===== src/Ssl/Manager.antt =====
-- server/ssl_manager.go and ssl_provider.go: the two providers of certificates. The ACME client,
-- the network and the caller's context are arguments, and may change the world `W`.
use go_api_boot.Base.{
  ℕ, Str, codes, [], ◌++◌, Option, none, some, Result, ok, err, Result-cases, inl, inr, ◌≡◌, refl,
  ◌⊎◌,
}
use go_api_boot.Base.Exec.{Exec}
use go_api_boot.Config.{BootConfig}
use go_api_boot.Retry.{RateLimiter, retry_with_exponential_backoff}

-- A tls.Config, as far as the providers set it, and a server's field of it; `C` is a certificate.
pub record TlsConfig (C : Type 0) : Type 0 where
  pub get_certificate : Option C
  -- The fields that no provider sets.
  pub other : Str

pub record HttpServer (C : Type 0) : Type 0 where
  pub tls_config : Option (TlsConfig C)

-- What autocert, net and net/http do, with a listener `L`; `A` is an autocert.Manager and `K` an
-- autocert.Cache.
pub record Acme (W A C L K : Type 0) : Type 0 where
  -- The manager that accepts the terms of service, for the hosts of the whitelist, if there is one,
  -- and with this cache.
  pub manager : Option Str → K → A
  pub dir_cache : Str → K
  pub certificate_of : A → C
  -- GetCertificate for a server's name
  pub fetch : A → Str → Exec W Str (Unit {0})
  pub listen : Str → Str → Exec W Str L
  -- The server of the challenges begins to serve, in a goroutine of its own.
  pub serve : A → L → W → W
  pub shutdown : L → W → W
  -- <-ctx.Done()
  pub await_done : W → W

pub record SslManager (A : Type 0) : Type 0 where
  pub cert_manager : A
  pub domain : Str

module _ {W A C L K : Type 0} (acme : Acme W A C L K) where
  -- NewSSLManager
  unfoldable pub new_ssl_manager : Str → K → SslManager A
  new_ssl_manager domain cache = record {
    cert_manager = acme.manager (some domain) cache;
    domain = domain;
  }

  -- CloudCacheProvider; the cache is that of NewSslCloudCache.
  unfoldable pub cloud_cache_provider : (BootConfig → K) → BootConfig → SslManager A
  cloud_cache_provider new_ssl_cloud_cache cfg =
      new_ssl_manager cfg.domain (new_ssl_cloud_cache cfg)

  -- `if srv.TLSConfig == nil`
  abbrev config_of : Option (TlsConfig C) → TlsConfig C
  config_of none = record { get_certificate = none; other = [] }
  config_of (some cfg) = cfg

  -- SSLManager.Configure; it returns no error.
  unfoldable pub configure : SslManager A → HttpServer C → HttpServer C
  configure s srv =
      let cfg = config_of srv.tls_config in
      record srv {
        tls_config =
            some (record cfg { get_certificate = some (acme.certificate_of s.cert_manager) });
      }

  -- dirCache.Configure
  unfoldable pub configure_dir : Str → HttpServer C → HttpServer C
  configure_dir dir srv =
      let cfg = config_of srv.tls_config in
      record srv {
        tls_config = some (record cfg {
          get_certificate = some (acme.certificate_of (acme.manager none (acme.dir_cache dir)));
        });
      }

  -- dirCache.Run
  unfoldable pub run_dir : Exec W Str (Unit {0})
  run_dir w = (ok tt, acme.await_done w)

  module _ (rate : RateLimiter W Str) where
    -- 2 * time.Second
    abbrev pub two_seconds : ℕ
    two_seconds = 2000000000

    -- The certificate is fetched; an error is logged at most.
    unfoldable pub prefetch : SslManager A → W → W
    unfolding retry_with_exponential_backoff
    prefetch s w =
        (retry_with_exponential_backoff rate two_seconds (acme.fetch s.cert_manager s.domain) 10
          w).1

    unfoldable pub run_listening : SslManager A → L → Exec W Str (Unit {0})
    run_listening s ln w =
        (ok tt, acme.shutdown ln (acme.await_done (prefetch s (acme.serve s.cert_manager ln w))))

    abbrev listening : SslManager A → Result Str L → Exec W Str (Unit {0})
    listening s (ok ln) w = run_listening s ln w
    listening s (err e) w = (err (codes "acme listener: " ++ e), w)

    -- SSLManager.Run
    unfoldable pub run_manager : SslManager A → Exec W Str (Unit {0})
    run_manager s w = let (r, w') = acme.listen (codes "tcp") (codes ":http") w in listening s r w'

    -- Run returns at once if the port cannot be listened on; else without an error, and only behind
    -- the end of its context, whether a certificate was fetched or not.
    pub run_manager_cases :
        (s : SslManager A) (w : W)
        → ((e : Str) × (v : W) × (run_manager s w ≡ (err (codes "acme listener: " ++ e), v)))
          ⊎ ((ln : L) × (v : W) × (run_manager s w ≡ (ok tt, acme.shutdown ln (acme.await_done v))))
    unfolding run_manager run_listening
    run_manager_cases s w =
        let (r, w') = acme.listen (codes "tcp") (codes ":http") w in
        elim (Result-cases (acme.listen (codes "tcp") (codes ":http") w).0) [
          | inl (ln, e) ↦ inr (ln, prefetch s (acme.serve s.cert_manager ln w'), rw e refl)
          | inr (x, e) ↦ inl (x, w', rw e refl)
        ]
