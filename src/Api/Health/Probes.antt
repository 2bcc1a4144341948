-- ===== src/Api/Health/Probes.antt =====
-- How often the readiness probe asks WHMCS.
use whmcstemplate_bridge.Base.{
  ltb, Exn, Outcome, returned, raised, ◌+◌, ◌<◌, ◌≡◌, refl, ap, subst, ◌∙◌, inl, inr, ◌⊎◌, Bool,
  true, false, none, some, ◌∷◌, arith, application, whmcs_config, whmcs_transport, whmcs_api, zibal,
  http_404, permission_denied, runtime,
}
use whmcstemplate_bridge.Json.{bool, end, truthy, Fields}
use whmcstemplate_bridge.Core.Cells.{plain, live, put_cell, cache_get, cache_set}
use whmcstemplate_bridge.Core.Cells.Laws.{live-put_cell}
use whmcstemplate_bridge.Whmcs.Services.{Call, Site, World, ask}
use whmcstemplate_bridge.Whmcs.Services.Apart.{IsUnder, health-IsForeign, apart_kept}
use whmcstemplate_bridge.Whmcs.Services.Isolation.Requests.{Reach}
use whmcstemplate_bridge.Whmcs.Services.Frames.Requests.{Reach-May}
use whmcstemplate_bridge.Api.Responses.{Response}
use whmcstemplate_bridge.Api.Health.{
  probe_key, probe_ttl, readiness_response, probe, reachable_now, whmcs_reachable, readiness,
}

abbrev pub details : Call
details = record { action = "WhmcsDetails"; params = end }

-- WHMCS was asked once more
abbrev pub asked : World → World
asked w = record w { upstream = details ∷ w.upstream }

-- ... and the verdict is kept
abbrev pub with_verdict : Bool → World → World
with_verdict b w = record w {
  upstream = details ∷ w.upstream;
  store =
      put_cell probe_key (record { content = plain (bool b); expires = w.clock + probe_ttl })
        w.store;
}

-- an error of the class WhmcsError
abbrev pub is_whmcs : Exn → Bool
is_whmcs (whmcs_config _) = true
is_whmcs (whmcs_transport _) = true
is_whmcs (whmcs_api _ _) = true
is_whmcs _ = false

abbrev pub has_replied : Outcome Fields → Bool
has_replied (returned _) = true
has_replied (raised _) = false

module _ (S : Site) where
  -- It raises what WHMCS' client raises, with one call made, if that is no error of WHMCS' own; or it
  -- gives a verdict, which is kept: whether WHMCS has replied.
  abbrev pub Probed : World → Outcome Bool × World → Type 0
  Probed w run =
      ((e : Exn) × (S.answer (details ∷ w.upstream) ≡ raised e)
        × (is_whmcs e ≡ false)
        × (run ≡ (raised e, asked w)))
      ⊎ (run ≡ (
        returned (has_replied (S.answer (details ∷ w.upstream))),
        with_verdict (has_replied (S.answer (details ∷ w.upstream))) w,
      ))

  probe-when :
      (w : World) (o : Outcome Fields)
      → S.answer (details ∷ w.upstream) ≡ o
      → Probed w (reachable_now S none w)
  unfolding reachable_now probe ask cache_set
  probe-when w (returned reply) is = rw is (inr refl)
  probe-when w (raised (whmcs_config m)) is = rw is (inr refl)
  probe-when w (raised (whmcs_transport m)) is = rw is (inr refl)
  probe-when w (raised (whmcs_api k m)) is = rw is (inr refl)
  probe-when w (raised (application k c m d)) is =
      rw is (inl (application k c m d, refl, refl, refl))
  probe-when w (raised (zibal m r)) is = rw is (inl (zibal m r, refl, refl, refl))
  probe-when w (raised http_404) is = rw is (inl (http_404, refl, refl, refl))
  probe-when w (raised permission_denied) is = rw is (inl (permission_denied, refl, refl, refl))
  probe-when w (raised (runtime c)) is = rw is (inl (runtime c, refl, refl, refl))

  kept-verdict :
      (b : Bool) (w u : World)
      → Reach S (with_verdict b w) u
      → u.clock < w.clock + probe_ttl
      → live u.clock probe_key u.store ≡ some (plain (bool b))
  kept-verdict b w u reach soon =
      let alive : ltb u.clock (w.clock + probe_ttl) ≡ true = ground (arith, soon) in
      let own : IsUnder "health:" probe_key = record { rest = "whmcs-reachable"; is = refl } in
      Reach-May S (apart_kept S "health:" probe_key own health-IsForeign) reach u.clock
      ∙ live-put_cell u.clock probe_key _ w.store
      ∙ rw alive refl

  -- whether WHMCS replies to the call that a probe makes
  abbrev pub replies : World → Bool
  replies w = has_replied (S.answer (details ∷ w.upstream))

  readiness-verdict :
      (database : Bool) (b : Bool) (u : World)
      → live u.clock probe_key u.store ≡ some (plain (bool b))
      → readiness S database u ≡ (returned (readiness_response database b), u)
  unfolding readiness whmcs_reachable reachable_now cache_get truthy
  readiness-verdict database b u kept = rw kept refl

  -- Where no verdict is kept, a readiness request calls WHMCS once. Either the call raises an exception
  -- that is no error of WHMCS' client, which is raised, and no verdict is kept; or the answer says
  -- whether WHMCS replied. In this case, whatever requests of the services and refreshes follow, any
  -- readiness request within the next 30 seconds says the same of WHMCS, whether the database then
  -- answers or not, calls no WHMCS action and changes nothing.
  pub readiness-again :
      (database later_database : Bool) (w u : World)
      → live w.clock probe_key w.store ≡ none
      → Reach S (readiness S database w).1 u
      → u.clock < w.clock + probe_ttl
      → ((e : Exn) × (S.answer (details ∷ w.upstream) ≡ raised e)
          × (is_whmcs e ≡ false)
          × (readiness S database w ≡ (raised e, asked w)))
        ⊎ ((readiness S database w
              ≡ (returned (readiness_response database (replies w)), with_verdict (replies w) w))
            × (readiness S later_database u
                ≡ (returned (readiness_response later_database (replies w)), u)))
  unfolding readiness whmcs_reachable cache_get
  readiness-again database later_database w u none_kept reach soon =
      elim (probe-when w (S.answer (details ∷ w.upstream)) refl) [
        | inl (e, raises, other, run) ↦ inl (e, raises, other, rw (none_kept, run) refl)
        | inr run ↦
            let first : readiness S database w
                ≡ (returned (readiness_response database (replies w)), with_verdict (replies w) w) =
              rw (none_kept, run) refl in
            let state = ap (λ (r : Outcome Response × World). r.1) first in
            inr (
              first,
              readiness-verdict later_database (replies w) u
                  (kept-verdict (replies w) w u (subst (λ s. Reach S s u) state reach) soon),
            )
      ]
