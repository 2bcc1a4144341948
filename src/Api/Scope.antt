-- ===== src/Api/Scope.antt =====
-- Who may call a customer's endpoint, and for which client: apps/core/permissions.py and
-- apps/core/views_mixins.py.
use whmcstemplate_bridge.Base.{
  if◌then◌else◌, Bool-cases, Option-cases, ◌∙◌, Exn, runtime, Outcome, returned, raised, Exec,
  raise, lift, ◌>>=◌, ℕ, zero, suc, String, ◌≡◌, refl, ◌⊎◌, inl, inr, Bool, true, false, not, ◌&&◌,
  Option, none, some,
}
use whmcstemplate_bridge.Core.Pagination.{PageRequest, from_query}

-- what is read of `request.user`
pub record Account : Type 0 where
  pub email : String
  pub is_authenticated : Bool
  pub whmcs_client_id : Option ℕ

-- A request: its user, its address, and the query parameters that the views read.
pub record Http : Type 0 where
  pub user : Option Account
  pub client_ip : String
  pub page : Option String
  pub page_size : Option String
  pub status : Option String

-- What the framework raises where a permission is refused, the setting of the page size, and
-- Django's `escape_uri_path`.
pub record Framework : Type 0 where
  pub denied : Exn
  pub default_size : ℕ
  pub escape_uri_path : String → String

-- an id that is there and is not 0
abbrev pub is_id : Option ℕ → Bool
is_id none = false
is_id (some zero) = false
is_id (some (suc n)) = true

-- `IsLinkedToWhmcsClient.has_permission`
unfoldable pub has_permission : Option Account → Bool
has_permission none = false
has_permission (some user) = user.is_authenticated && is_id user.whmcs_client_id

-- `ClientScopedAPIView.whmcs_client_id`
unfoldable pub whmcs_client_id : Option Account → Outcome ℕ
whmcs_client_id none = raised (runtime "AttributeError")
whmcs_client_id (some user) = elim user.whmcs_client_id [
  | none ↦ raised (runtime "TypeError")
  | some n ↦ returned n
]

module _ (F : Framework) where
  -- `ClientScopedAPIView.page`
  unfoldable pub page : Http → PageRequest
  unfolding from_query
  page q = from_query q.page q.page_size F.default_size

  -- A view's method, behind its permission; it reads the client's id of the user.
  unfoldable pub for_client : {W A : Type 0} → Http → (ℕ → Exec W A) → Exec W A
  unfolding has_permission whmcs_client_id
  for_client q method =
      if not (has_permission q.user)
      then raise F.denied
      else do client ← lift (whmcs_client_id q.user); method client

  -- the user is linked to the client
  pub record IsLinked (q : Http) (n : ℕ) : Type 0 where
    pub user : Account
    pub is_user : q.user ≡ some user
    pub authenticated : user.is_authenticated ≡ true
    pub linked : user.whmcs_client_id ≡ some n

  -- What a user who is linked to a client gets: an id of 0 has no permission.
  pub for_client-linked :
      {W A : Type 0} (q : Http) (method : ℕ → Exec W A) (n : ℕ) (w : W)
      → IsLinked q n
      → for_client q method w ≡ (if is_id (some n) then method n w else (raised F.denied, w))
  unfolding for_client
  for_client-linked {W} {A} q method n w l = rw l.is_user (
      rw l.authenticated (
        rw l.linked (elim (Bool-cases (is_id (some n))) [ inl e ↦ rw e refl | inr e ↦ rw e refl ])))

  pub for_client-cases :
      {W A : Type 0} (q : Http) (method : ℕ → Exec W A) (w : W)
      → (for_client q method w ≡ (raised F.denied, w))
        ⊎ ((n : ℕ) × IsLinked q n × (for_client q method w ≡ method n w))
  unfolding for_client
  for_client-cases q method w = elim (Option-cases q.user) [
    | inl nobody ↦ inl (rw nobody refl)
    | inr (user, is) ↦ elim (Bool-cases user.is_authenticated) [
      | inr anonymous ↦ inl (rw is (rw anonymous refl))
      | inl auth ↦ elim (Option-cases user.whmcs_client_id) [
        | inl unlinked ↦ inl (rw is (rw auth (rw unlinked refl)))
        | inr (n, id) ↦
            let linked : IsLinked q n = record {
              user = user;
              is_user = is;
              authenticated = auth;
              linked = id;
            } in
            let runs = for_client-linked q method n w linked in
            elim (Bool-cases (is_id (some n))) [
              | inl there ↦ inr (n, linked, runs ∙ rw there refl)
              | inr zeroed ↦ inl (runs ∙ rw zeroed refl)
            ]
      ]
    ]
  ]
