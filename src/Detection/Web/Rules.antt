-- ===== src/Detection/Web/Rules.antt =====
-- backend/app/workers/detection/web_rules.py: `evaluate_web_rules` and `evaluate_net_rules`.
use infra_red.Prelude.{
  ℕ, zero, suc, ◌*◌, String, Bool, not, ◌&&◌, List, [], ◌∷◌, ◌++◌, leb, ◌==◌, or_else,
  if◌then◌else◌,
}
use infra_red.Prelude.Format.{◌^^◌, show, truthy, or_empty, slice_to}
use infra_red.Prelude.Strip.{before_char}
use infra_red.Constants.{KillChainStage, RuleId}
use infra_red.Redis.{Redis}
use infra_red.Redis.Sorted.{Sorted}
use infra_red.Detection.Login.Rules.{slide, window_event_ids}
use infra_red.Detection.Intake.{NormalizedEvent}
use infra_red.Detection.Web.{
  WebSettings, WebPatterns, WebSignal, web_signal, web_admin_req, web_404, net_rate_ip,
  evaluate_honeypot,
}

-- `xs[:n]`
abbrev pub take : {A : Type 0} → ℕ → List A → List A
take zero xs = []
take (suc n) [] = []
take (suc n) (x ∷ xs) = x ∷ take n xs

-- a signal of one event
abbrev single :
    Bool
    → RuleId
    → NormalizedEvent
    → String
    → String
    → String
    → KillChainStage
    → String
    → List WebSignal
single found rule_id e rule_name tactic technique stage note =
    if found then web_signal rule_id e rule_name tactic technique stage 1 note [] ∷ [] else []

module _ {R : Redis String} (Z : Sorted R) (now : ℕ) where
  -- The rules that count add the event to the window of their key; `make` is the signal of a count and
  -- of the events of the window.
  unfoldable pub window_rule :
      String
      → ℕ
      → ℕ
      → (ℕ → List String → WebSignal)
      → NormalizedEvent
      → R.Db
      → R.Db × List WebSignal
  unfolding slide
  window_rule key window threshold make e db =
      let slid = slide Z now key window (window * 2) e.event db in
      let count = Z.zcard now key slid in
      (
        slid,
        if leb threshold count
            then make count (window_event_ids Z now key window e.event slid) ∷ []
            else [],
      )

  -- WEB-002
  unfoldable pub admin_rule : WebSettings → NormalizedEvent → String → R.Db → R.Db × List WebSignal
  unfolding window_rule
  admin_rule cfg e ip db =
      window_rule (web_admin_req e.event.tenant_id e.event.asset_id ip)
        cfg.web_admin_scan_window_seconds cfg.web_admin_scan_threshold
        (λ count triggering.
          web_signal RuleId.web_admin_scan e "Admin Path Scan" "Reconnaissance" "T1595"
            KillChainStage.reconnaissance count
            (show cfg.web_admin_scan_threshold
              ^^ "+ admin/login path hits from one IP in "
              ^^ show cfg.web_admin_scan_window_seconds
              ^^ "s.")
            triggering)
        e db

  -- WEB-004
  unfoldable pub burst_rule : WebSettings → NormalizedEvent → String → R.Db → R.Db × List WebSignal
  unfolding window_rule
  burst_rule cfg e ip db =
      window_rule (web_404 e.event.tenant_id e.event.asset_id ip) cfg.web_404_window_seconds
        cfg.web_404_threshold
        (λ count triggering.
          web_signal RuleId.web_404_burst e "404 Burst" "Reconnaissance" "T1595"
            KillChainStage.reconnaissance count
            (show cfg.web_404_threshold
              ^^ "+ 404 responses from one IP in "
              ^^ show cfg.web_404_window_seconds
              ^^ "s.")
            triggering)
        e db

  -- WEB-001 to WEB-007 and WEB-HNY-001 on an event with an address and a path
  unfoldable pub evaluate_path :
      WebPatterns → WebSettings → NormalizedEvent → String → String → R.Db → R.Db × List WebSignal
  unfolding admin_rule burst_rule
  evaluate_path p cfg e ip path db =
      let status = or_else e.status_code 0 in
      let ua = or_empty e.user_agent in
      let probe_path = before_char b'?' path in
      let admin = if p.admin_path path then admin_rule cfg e ip db else (db, []) in
      let burst = if status == 404 then burst_rule cfg e ip admin.0 else (admin.0, []) in
      (
        burst.0,
        single (status == 200 && p.webshell_path path) RuleId.web_shell_access e "Web Shell Access"
              "Persistence" "T1505.003" KillChainStage.execution
              ("Possible web shell accessed: " ^^ path ^^ " (HTTP 200).")
            ++ (admin.1
                ++ (single (p.automation_ua ua && not (p.normal_path path)) RuleId.web_automation e
                      "Automation Tool Access" "Initial Access" "T1190"
                      KillChainStage.reconnaissance
                      ("Automation UA detected: " ^^ slice_to 80 ua ^^ " on path " ^^ path ^^ ".")
                    ++ (burst.1
                        ++ (single (cfg.web_sql_injection_enabled && p.sqli path)
                              RuleId.web_sql_injection e "SQL Injection Attempt" "Initial Access"
                              "T1190" KillChainStage.initial_access
                              ("SQL injection pattern detected: " ^^ slice_to 120 path)
                            ++ (single (cfg.web_path_traversal_enabled && p.path_traversal path)
                                  RuleId.web_path_traversal e "Path Traversal / LFI" "Discovery"
                                  "T1083" KillChainStage.reconnaissance
                                  ("Directory traversal pattern detected: " ^^ slice_to 120 path)
                                ++ (single (cfg.web_cve_probe_enabled && p.cve_probe probe_path)
                                      RuleId.web_cve_probe e "CVE Probe Path Access"
                                      "Reconnaissance" "T1595.002" KillChainStage.reconnaissance
                                      ("Sensitive/CVE probe path accessed: " ^^ probe_path)
                                    ++ evaluate_honeypot e)))))),
      )

  -- `evaluate_web_rules`
  unfoldable pub evaluate_web_rules :
      WebPatterns → WebSettings → NormalizedEvent → R.Db → R.Db × List WebSignal
  unfolding evaluate_path
  evaluate_web_rules p cfg e db =
      if truthy e.event.source_ip && truthy e.request_path
      then evaluate_path p cfg e (or_empty e.event.source_ip) (or_empty e.request_path) db
      else (db, [])

  -- NET-001 on an event with an address
  unfoldable pub flood_rule : WebSettings → NormalizedEvent → String → R.Db → R.Db × List WebSignal
  unfolding window_rule
  flood_rule cfg e ip db =
      window_rule (net_rate_ip e.event.tenant_id e.event.asset_id ip)
        cfg.net_http_flood_window_seconds cfg.net_http_flood_threshold
        (λ count triggering.
          web_signal RuleId.net_http_flood e "HTTP Flood" "Impact" "T1595"
            KillChainStage.reconnaissance count
            ("HTTP Flood detected: "
              ^^ show count
              ^^ " requests from "
              ^^ ip
              ^^ " in "
              ^^ show cfg.net_http_flood_window_seconds
              ^^ "s (threshold="
              ^^ show cfg.net_http_flood_threshold
              ^^ ").")
            (take 50 triggering))
        e db

  -- `evaluate_net_rules`
  unfoldable pub evaluate_net_rules : WebSettings → NormalizedEvent → R.Db → R.Db × List WebSignal
  unfolding flood_rule
  evaluate_net_rules cfg e db =
      if truthy e.event.source_ip && cfg.net_http_flood_enabled
      then flood_rule cfg e (or_empty e.event.source_ip) db
      else (db, [])
