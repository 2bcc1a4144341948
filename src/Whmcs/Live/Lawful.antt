-- ===== src/Whmcs/Live/Lawful.antt =====
-- What reaches WHMCS' API, whatever the customers request.
use whmcstemplate_bridge.Base.{
  All, length, one_of, Outcome, returned, ℕ, zero, suc, ◌+◌, ◌≤◌, String, ◌≡◌, refl, sym, ap, subst,
  true, false, some, List, [], ◌∷◌, arith,
}
use whmcstemplate_bridge.Json.{Fields}
use whmcstemplate_bridge.Whmcs.Actions.{allowed_actions, forbidden_actions, check_action}
use whmcstemplate_bridge.Whmcs.Form.{Form, lookup}
use whmcstemplate_bridge.Whmcs.Transport.{Wire, Net, body_of, attempts_for, request}
use whmcstemplate_bridge.Whmcs.Transport.Bodies.{body-action}
use whmcstemplate_bridge.Whmcs.Transport.Retries.{
  reposted, IsEnded, unbuilt, decided, exhausted, request-IsEnded,
}
use whmcstemplate_bridge.Whmcs.Client.{call}
use whmcstemplate_bridge.Whmcs.Services.{Call, Site, World}
use whmcstemplate_bridge.Whmcs.Services.Isolation.Requests.{Reach}
use whmcstemplate_bridge.Whmcs.Services.Calls.{IsPermitted}
use whmcstemplate_bridge.Whmcs.Services.Calls.Kept.{Reach-IsPermitted}
use whmcstemplate_bridge.Whmcs.Live.{net_after, live_site}

-- The body names an action that is on the allowlist and not among the forbidden ones.
pub record IsLawful (body : Form) : Type 0 where
  pub action : String
  pub named : lookup "action" body ≡ some action
  pub allowed : one_of action allowed_actions ≡ true
  pub harmless : one_of action forbidden_actions ≡ false

All-reposted :
    (P : Form → Type 0) (n : ℕ) (body : Form) (requests : List Form)
    → P body
    → All P requests
    → All P (reposted n body requests)
All-reposted P zero body requests p all = all
All-reposted P (suc n) body requests p all = All-reposted P n body (body ∷ requests) p (p, all)

length-reposted :
    (n : ℕ) (body : Form) (requests : List Form)
    → length (reposted n body requests) ≡ n + length requests
length-reposted zero body requests = omega arith
length-reposted (suc n) body requests = omega (arith, length-reposted n body (body ∷ requests))

module _ (E : Wire) where
  -- the attempts that the calls may make, together
  abbrev pub budget : List Call → ℕ
  budget [] = 0
  budget (c ∷ calls) = attempts_for E c.action + budget calls

  -- the POSTs of a call, if any, are of one body
  data ArePosts (action : String) (params : Fields) (w v : Net) : Type 0 where
    none_posted : v ≡ w → ArePosts action params w v
    posted :
        (body : Form) (n : ℕ)
        → body_of E action params ≡ returned body
        → n ≤ attempts_for E action
        → v.requests ≡ reposted n body w.requests
        → ArePosts action params w v

  ended-ArePosts :
      {action : String} {params : Fields} {w : Net} {r : Outcome Fields × Net}
      → IsEnded E action params w r
      → ArePosts action params w r.1
  ended-ArePosts (unbuilt e refused is) = none_posted (cc is)
  ended-ArePosts (decided body n built d is) =
      posted body (suc n) built d.in_time (ap (λ (r : Outcome Fields × Net). r.1.requests) is)
  ended-ArePosts {action} (exhausted body built retried failed is) =
      posted body (attempts_for E action) built (omega arith) (ap (λ (v : Net). v.requests) is)

  posts-All :
      (P : Form → Type 0) {action : String} {params : Fields} {w v : Net}
      → ((body : Form) → body_of E action params ≡ returned body → P body)
      → ArePosts action params w v
      → All P w.requests
      → All P v.requests
  posts-All P good (none_posted is) all = subst (λ (v : Net). All P v.requests) (sym is) all
  posts-All P {w = w} good (posted body n built few is) all =
      subst (All P) (sym is) (All-reposted P n body w.requests (good body built) all)

  posts-length :
      {action : String} {params : Fields} {w v : Net}
      → ArePosts action params w v
      → length v.requests ≤ attempts_for E action + length w.requests
  posts-length (none_posted is) = omega (arith, ap (λ (v : Net). length v.requests) is)
  posts-length {w = w} (posted body n built few is) =
      omega (arith, ap length is, length-reposted n body w.requests)

  call-permitted :
      (c : Call) (w : Net)
      → IsPermitted c
      → call E c.action c.params w ≡ request E c.action c.params w
  unfolding call check_action
  call-permitted c w (allowed, harmless) = rw harmless (rw allowed refl)

  -- What the calls came to, one after the other: each is the transport's request.
  abbrev pub ArePassed : Net → List Call → Type 0
  ArePassed start [] = Unit
  ArePassed start (c ∷ calls) =
      (call E c.action c.params (net_after E start calls)
        ≡ request E c.action c.params (net_after E start calls))
      × ArePassed start calls

  calls-ArePosts :
      (c : Call) (w : Net)
      → IsPermitted c
      → ArePosts c.action c.params w (call E c.action c.params w).1
  calls-ArePosts c w may =
      subst (λ (r : Outcome Fields × Net). ArePosts c.action c.params w r.1)
        (sym (call-permitted c w may)) (ended-ArePosts (request-IsEnded E c.action c.params w))

  body-IsLawful :
      (c : Call) (body : Form)
      → IsPermitted c
      → body_of E c.action c.params ≡ returned body
      → IsLawful body
  body-IsLawful c body (allowed, harmless) built = record {
    action = c.action;
    named = body-action E c.action c.params body built;
    allowed = allowed;
    harmless = harmless;
  }

  passed :
      (start : Net) (calls : List Call)
      → All IsPermitted calls
      → All IsLawful start.requests
      → ArePassed start calls
        × All IsLawful (net_after E start calls).requests
        × (length (net_after E start calls).requests ≤ budget calls + length start.requests)
  unfolding net_after
  passed start [] all lawful = (tt, lawful, omega arith)
  passed start (c ∷ calls) (may, all) lawful =
      let (before, good, few) = passed start calls all lawful in
      let posts = calls-ArePosts c (net_after E start calls) may in
      (
        (call-permitted c (net_after E start calls) may, before),
        posts-All IsLawful (λ body built. body-IsLawful c body may built) posts good,
        omega (arith, few, posts-length posts),
      )

  -- With the services over the client and the transport, and whatever customers request and is
  -- refreshed in the background: the client refuses none of the services' calls, each is the
  -- transport's request; every body that was posted names an action that is on the allowlist and not
  -- among the forbidden ones; and there are no more POSTs than the attempts that the calls may make,
  -- which is one for an action that is not idempotent.
  pub Reach-ArePassed :
      (start : Net) (S : Site) (u w : World)
      → start.requests ≡ []
      → u.upstream ≡ []
      → Reach (live_site E start S) u w
      → ArePassed start w.upstream
        × All IsLawful (net_after E start w.upstream).requests
        × (length (net_after E start w.upstream).requests ≤ budget w.upstream)
  Reach-ArePassed start S u w quiet fresh reached =
      let (calls, lawful, few) =
        passed start w.upstream
          (Reach-IsPermitted (live_site E start S) reached (subst (All IsPermitted) (sym fresh) tt))
          (subst (All IsLawful) (sym quiet) tt) in
      (calls, lawful, omega (arith, few, ap (length {A = Form}) quiet))
