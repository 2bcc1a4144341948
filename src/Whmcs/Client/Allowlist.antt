-- ===== src/Whmcs/Client/Allowlist.antt =====
-- Which actions reach the network.
use mathlib.Core.Path.{fun_ext}
use whmcstemplate_bridge.Base.{
  ap, lift, Exec, ◌>>=◌, Bool-cases, one_of, String, ◌≡◌, refl, ◌⊎◌, inl, inr, true, false,
}
use whmcstemplate_bridge.Json.{str, Fields}
use whmcstemplate_bridge.Whmcs.Actions.{allowed_actions, forbidden_actions, check_action}
use whmcstemplate_bridge.Whmcs.Transport.{Wire, Net, request}
use whmcstemplate_bridge.Whmcs.Transport.Async.{request_async-request}
use whmcstemplate_bridge.Whmcs.Client.{call, call_async}

-- A call either changes nothing and posts nothing, or its action is on the allowlist and not among
-- the forbidden ones, and it is the transport's request.
pub call-allowed :
    (E : Wire) (action : String) (params : Fields) (w : Net)
    → ((call E action params w).1 ≡ w)
      ⊎ ((one_of action allowed_actions ≡ true)
          × (one_of action forbidden_actions ≡ false)
          × (call E action params w ≡ request E action params w))
unfolding call check_action
call-allowed E action params w = elim (Bool-cases (one_of action forbidden_actions)) [
  | inl forbidden ↦ rw forbidden (inl refl)
  | inr harmless ↦ elim (Bool-cases (one_of action allowed_actions)) [
    | inl allowed ↦ rw harmless (rw allowed (inr (refl, refl, refl)))
    | inr unknown ↦ rw harmless (rw unknown (inl refl))
  ]
]

-- The asynchronous client does what the blocking one does.
call_async-call :
    (E : Wire) (action : String) (params : Fields)
    → call_async E action params ≡ call E action params
unfolding call call_async
call_async-call E action params =
    ap
      (λ (next : String → Exec Net Fields).
        lift (check_action (E.repr (str action)) action) >>= next)
      (fun_ext (λ name. request_async-request E name params))
