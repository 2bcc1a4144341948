-- ===== src/Whmcs/Client.antt =====
-- apps/whmcs/client.py: the blocking client and the asynchronous one.
pub mod Allowlist
use whmcstemplate_bridge.Base.{Exec, lift, ◌>>=◌, ◌>>◌, String}
use whmcstemplate_bridge.Json.{Fields, str}
use whmcstemplate_bridge.Whmcs.Actions.{check_action}
use whmcstemplate_bridge.Whmcs.Transport.{Wire, Net, request}
use whmcstemplate_bridge.Whmcs.Transport.Async.{request_async}

unfoldable pub call : Wire → String → Fields → Exec Net Fields
unfolding check_action request
call E action params = do
  name ← lift (check_action (E.repr (str action)) action)
  request E name params

-- `AsyncWhmcsClient.call`
unfoldable pub call_async : Wire → String → Fields → Exec Net Fields
unfolding check_action request_async
call_async E action params = do
  name ← lift (check_action (E.repr (str action)) action)
  request_async E name params
