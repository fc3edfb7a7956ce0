-- ===== src/Grpcclient/Tls.antt =====
-- When package grpcclient connects with TLS, and under which settings.
use samsara_components.Prelude.{not, ◌||◌, none, some, if◌then◌else◌}
use samsara_components.Go.Tls.{Files, ClientSettings, client_config}
use samsara_components.Go.Tls.Client.{
  IsOutcome, is_loadable, asked, client_config-IsOutcome, switch-IsOutcome,
}
use samsara_components.Grpcclient.Config.{tls_texts, transport_credentials}

-- The credentials of a connection cannot be built if and only if TLS is on and its settings cannot be loaded;
-- they are plaintext if TLS is off, and otherwise those asked for, with the server verified under the name
-- that is set.
pub transport_credentials-IsOutcome :
    (f : Files) (s : ClientSettings)
    → IsOutcome
        (not s.tls || is_loadable f s)
        (if s.tls then some (asked s s.server_name) else none)
        (transport_credentials f s)
unfolding transport_credentials
transport_credentials-IsOutcome f s =
    switch-IsOutcome s.tls (is_loadable f s) (asked s s.server_name)
      (client_config tls_texts f s s.server_name)
      (client_config-IsOutcome tls_texts f s s.server_name)
