-- ===== src/Grpcclient/Connect/Options.antt =====
-- Which options are in effect on a connection of package grpcclient.
use samsara_components.Prelude.{◌≡◌, List, ◌∷◌, Option, none, some, ℤ, or_else}
use samsara_components.Go.Options.{in_effect, in_effect-append}
use samsara_components.Go.Tls.{TlsConfig}
use samsara_components.Grpcclient.Config.{
  Config, ClientParameters, CallOption, max_call_recv_msg_size, max_call_send_msg_size, DialOption,
  credentials, default_call_options, keepalive_params, max_recv_msg_size_bytes,
  max_send_msg_size_bytes, client_parameters, dial_options,
}
use samsara_components.Grpcclient.Connect.{dial_opts}

abbrev pub recv_of : CallOption → Option ℤ
recv_of (max_call_recv_msg_size n) = some n
recv_of _ = none

abbrev pub send_of : CallOption → Option ℤ
send_of (max_call_send_msg_size n) = some n
send_of _ = none

abbrev pub per_call : {B : Type 0} → (CallOption → Option B) → DialOption → Option B
per_call f (default_call_options opts) = in_effect f opts
per_call f _ = none

abbrev pub keepalive_of : DialOption → Option ClientParameters
keepalive_of (keepalive_params p) = some p
keepalive_of _ = none

abbrev pub creds_of : DialOption → Option (Option TlsConfig)
creds_of (credentials tls) = some tls
creds_of _ = none

-- Whatever the caller sets is in effect, and otherwise what the Config asks for: the limits on messages,
-- the keepalive parameters and the credentials.
pub dial_opts_lem :
    (c : Config) (opts : List DialOption) (tls : Option TlsConfig)
    → let all = dial_opts c opts tls in
      (in_effect (per_call recv_of) all
        ≡ or_else (in_effect (per_call recv_of) opts) (some (max_recv_msg_size_bytes c)))
      × (in_effect (per_call send_of) all
          ≡ or_else (in_effect (per_call send_of) opts) (some (max_send_msg_size_bytes c)))
      × (in_effect keepalive_of all
          ≡ or_else (in_effect keepalive_of opts) (some (client_parameters c)))
      × (in_effect creds_of all ≡ or_else (in_effect creds_of opts) (some tls))
unfolding dial_opts dial_options
dial_opts_lem c opts tls =
    let own = credentials tls ∷ dial_options c in
    (
      in_effect-append (per_call recv_of) own opts,
      in_effect-append (per_call send_of) own opts,
      in_effect-append keepalive_of own opts,
      in_effect-append creds_of own opts,
    )
