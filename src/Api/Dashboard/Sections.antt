-- ===== src/Api/Dashboard/Sections.antt =====
-- What the dashboard shows: the customer's own data, or that a section is unavailable.
use whmcstemplate_bridge.Base.{
  Outcome, returned, raised, Exec, pure, lift, continue, ◌>>=◌, ℕ, String, ◌≡◌, refl, sym, ap, ◌∙◌,
  subst, ◌⊎◌, inl, inr, Bool, List, [], ◌∷◌,
}
use whmcstemplate_bridge.Json.{Value}
use whmcstemplate_bridge.Core.Aggregate
use whmcstemplate_bridge.Core.Aggregate.{gather}
use whmcstemplate_bridge.Core.Aggregate.Slots.{AreSlots, gather-AreSlots}
use whmcstemplate_bridge.Core.Cache.Isolated.{Post}
use whmcstemplate_bridge.Core.Cache.Keeps.{AllAllowed}
use whmcstemplate_bridge.Whmcs.Services.{Site, World}
use whmcstemplate_bridge.Whmcs.Services.Isolation.{
  profile, services, domains, invoices, tickets, Fetch, MayStand, IsIsolated,
}
use whmcstemplate_bridge.Whmcs.Services.Isolation.Requests.{Reach}
use whmcstemplate_bridge.Whmcs.Services.Isolation.Kept.{Reach-IsIsolated}
use whmcstemplate_bridge.Whmcs.Services.Isolation.Places.{read}
use whmcstemplate_bridge.Whmcs.Services.Isolation.Own.{IsOwn, read-IsFetched, Post-IsOwn}
use whmcstemplate_bridge.Api.Scope.{Http, Framework, IsLinked, for_client-cases}
use whmcstemplate_bridge.Api.Responses.{Response, respond}
use whmcstemplate_bridge.Api.Dashboard.{first_page, tasks, dashboard_body, dashboard}

module _ (S : Site) where
  read-IsTask :
      (f : Fetch) (n : ℕ) (w : World)
      → IsIsolated S w
      → IsIsolated S (read S f n w).1 × Post (IsOwn S n) (read S f n w).0
  read-IsTask f n w isolated =
      let (isolated', made) = read-IsFetched S f n w isolated in
      (isolated', Post-IsOwn S n (read S f n w).0 made)

  -- each of the five sections, by name, is None or the customer's own
  abbrev pub AreOwn : ℕ → Aggregate.Sections → Type 0
  AreOwn n sections =
      AreSlots (IsIsolated S) (IsOwn S n)
        ("profile" ∷ "services" ∷ "domains" ∷ "invoices" ∷ "tickets" ∷ []) sections

  gather-AreOwn :
      (n : ℕ) (schedule : List (String × Bool)) (w : World)
      → IsIsolated S w
      → (sections : Aggregate.Sections) × ((gather (tasks S n) schedule w).0 ≡ returned sections)
        × AreOwn n sections
  unfolding tasks Aggregate.from_keys
  gather-AreOwn n schedule w isolated =
      gather-AreSlots (IsIsolated S) (IsOwn S n) (tasks S n) schedule w
        (
          read-IsTask profile n,
          (
            read-IsTask (services first_page "Active") n,
            (
              read-IsTask (domains first_page) n,
              (
                read-IsTask (invoices first_page "Unpaid") n,
                (read-IsTask (tickets first_page "Open") n, tt),
              ),
            ),
          ),
        )
        isolated

  module _ (F : Framework) (q : Http) where
    -- the status with the body, or what it raises
    abbrev pub answer_of : Outcome Value → Outcome Response
    answer_of (returned body) = returned (record { status = 200; body = body })
    answer_of (raised e) = raised e

    respond-answer :
        {A : Type 0} (present : A → Outcome Value) (m : Exec World A) (a : A) (w : World)
        → (m w).0 ≡ returned a
        → (respond 200 present m w).0 ≡ answer_of (present a)
    unfolding respond
    respond-answer {A} present m a w h = given (m w).0 (m w).1 h
      where
        made : Value → Response
        made body = record { status = 200; body = body }

        shown :
            (o : Outcome Value) (w' : World)
            → (continue (λ (body : Value). pure {W = World} (made body)) o w').0 ≡ answer_of o
        shown (returned body) w' = refl
        shown (raised e) w' = refl

        given :
            (o : Outcome A) (w' : World)
            → o ≡ returned a
            → (continue
                (λ (b : A). lift {W = World} (present b) >>= λ body. pure (made body))
                o
                w').0
              ≡ answer_of (present a)
        given (returned b) w' h' =
            shown (present b) w' ∙ ap (λ (c : A). answer_of (present c)) (cc h')
        given (raised e) w' h' = absurd (cc h')

    -- After any requests from an empty cache on, and in whatever order the reads end, in time or not and
    -- returning or raising: the dashboard is refused to a user who is not linked to a client; else it is
    -- made of five sections, each of which is None, or was made of one reply of WHMCS to a call for the
    -- client that the user is linked to. No read's exception is its own.
    pub dashboard-AreOwn :
        (schedule : List (String × Bool)) (u w : World)
        → u.store ≡ []
        → Reach S u w
        → (dashboard F S q schedule w ≡ (raised F.denied, w))
          ⊎ ((n : ℕ) × IsLinked F q n
              × ((sections : Aggregate.Sections) × AreOwn n sections
                  × ((dashboard F S q schedule w).0 ≡ answer_of (dashboard_body sections))))
    unfolding dashboard
    dashboard-AreOwn schedule u w empty reached =
        let isolated =
          Reach-IsIsolated S reached (subst (AllAllowed (MayStand S)) (sym empty) tt) in
        elim (for_client-cases F q (λ n. respond 200 dashboard_body (gather (tasks S n) schedule))
          w) [
            | inl denied ↦ inl denied
            | inr (n, linked, runs) ↦
                let (sections, is, own) = gather-AreOwn n schedule w isolated in
                inr (
                  n,
                  linked,
                  (
                    sections,
                    own,
                    ap (λ (run : Outcome Response × World). run.0) runs
                        ∙ respond-answer dashboard_body (gather (tasks S n) schedule) sections w is,
                  ),
                )
          ]
