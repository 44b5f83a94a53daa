-- ===== src/Detection/Web/Flood.antt =====
-- NET-001 counts exactly the requests of its window.
use infra_red.Prelude.{
  ℕ, ◌+◌, ◌*◌, ◌<◌, ◌≡◌, refl, ap, String, Bool, true, false, [], ◌∷◌, leb, arith, map,
  if◌then◌else◌,
}
use infra_red.Prelude.Format.{truthy, or_empty}
use infra_red.Constants.{RuleId}
use infra_red.Redis.{Redis}
use infra_red.Redis.Sorted.{Sorted}
use infra_red.Detection.Login.Rules.{span}
use infra_red.Detection.Login.Counts.{young, Fresh, zcard-slide}
use infra_red.Detection.Intake.{NormalizedEvent}
use infra_red.Detection.Web.{WebSettings, WebSignal, web_signal, net_rate_ip}
use infra_red.Detection.Web.Rules.{window_rule, flood_rule, evaluate_net_rules}

-- a rule, how often it counted and whether it is an incident
abbrev pub digest : WebSignal → RuleId × ℕ × Bool
digest s = (s.rule_id, s.detected_count, s.escalate_to_incident)

module _ {R : Redis String} (Z : Sorted R) (now : ℕ) where
  -- The flood rule, where it is enabled, for a request with an address that is not stored yet and a window
  -- of at least a second: it counts the stored requests of the address on the asset that are younger than
  -- the window, and this one, and gives one signal with that count, an incident, exactly if the count
  -- reaches the threshold.
  pub net_rules_exact :
      (cfg : WebSettings) (e : NormalizedEvent) (db : R.Db)
      → truthy e.event.source_ip ≡ true
      → cfg.net_http_flood_enabled ≡ true
      → 0 < cfg.net_http_flood_window_seconds
      → let xs =
          Z.zrange now
            (net_rate_ip e.event.tenant_id e.event.asset_id (or_empty e.event.source_ip))
            db in
        Fresh e.event.event_id xs
        → let n = young (span cfg.net_http_flood_window_seconds) e.event.timestamp xs + 1 in
          map digest (evaluate_net_rules Z now cfg e db).1 ≡ (
            if leb cfg.net_http_flood_threshold n
            then (RuleId.net_http_flood, n, true) ∷ []
            else [])
  unfolding evaluate_net_rules flood_rule window_rule web_signal
  net_rules_exact cfg e db named enabled width fresh =
      let key = net_rate_ip e.event.tenant_id e.event.asset_id (or_empty e.event.source_ip) in
      let w = cfg.net_http_flood_window_seconds in
      let c = zcard-slide Z now key w (w * 2) e.event db (omega (arith, width)) width fresh in
      rw (named, enabled, c) (chosen (leb cfg.net_http_flood_threshold _) _ _ refl)
    where
      chosen :
          (b : Bool) (s : WebSignal) (d : RuleId × ℕ × Bool)
          → digest s ≡ d
          → map digest (if b then s ∷ [] else []) ≡ (if b then d ∷ [] else [])
      chosen true s d q = ap (λ (z : RuleId × ℕ × Bool). z ∷ []) q
      chosen false s d q = refl
