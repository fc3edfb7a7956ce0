-- ===== src/Redis/Tls.antt =====
-- When package redis connects with TLS, and under which settings.
use samsara_components.Prelude.{not, ◌||◌, str_eq, none, some, if◌then◌else◌}
use samsara_components.Go.Tls.{Files, client_config}
use samsara_components.Go.Tls.Client.{
  IsOutcome, is_loadable, asked, client_config-IsOutcome, switch-IsOutcome,
}
use samsara_components.Redis.Config.{Config, server_name, tls_texts, tls_config}

-- `tlsConfig` fails if and only if TLS is on and the settings cannot be loaded: the version is unknown, a
-- CA file is named that cannot be read or holds no certificate, or a certificate or a key is named
-- without the other or the two do not load. Otherwise there is no TLS if it is off, and if it is on the
-- configuration is, field by field, the one asked for: TLS 1.3 if that is the least version named and
-- 1.2 otherwise, the authorities in the CA file if one is named, the certificate if one is, and the
-- server verified under the name that is set, or else the host.
pub tls_config-IsOutcome :
    (f : Files) (c : Config)
    → IsOutcome
        (not c.tls.tls || is_loadable f c.tls)
        (if c.tls.tls
          then some
              (asked c.tls (if str_eq c.tls.server_name "" then c.host else c.tls.server_name))
          else none)
        (tls_config f c)
unfolding tls_config
tls_config-IsOutcome f c =
    switch-IsOutcome c.tls.tls (is_loadable f c.tls) (asked c.tls (server_name c))
      (client_config tls_texts f c.tls (server_name c))
      (client_config-IsOutcome tls_texts f c.tls (server_name c))
