-- ===== src/Response/Policy/Matrix.antt =====
-- backend/app/autoresponse/engine.py: the block matrix of `_get_v3_action`.
use infra_red.Prelude.{ℕ, ◌≤◌, ◌<◌, ◌≡◌, ◌↔◌, String, Bool, true, false, eq_iff, arith}
use infra_red.Prelude.Case.{upper}
use infra_red.Response.Policy.{get_v3_action}

-- Approval is asked for exactly if the address is not on the allow list, the severity is critical and
-- the confidence is below 0.85; the address is blocked on the host at once exactly if it is not on the
-- allow list, the severity is critical and the confidence is at least 0.85.
pub v3_matrix :
    (severity : String) (confidence : ℕ) (allowed : Bool)
    → (((get_v3_action severity confidence allowed).approval_required ≡ true)
        ↔ ((allowed ≡ false) × (upper severity ≡ "CRITICAL") × (confidence < 850)))
      × (((get_v3_action severity confidence allowed).action ≡ "iptables_block")
          ↔ ((allowed ≡ false) × (upper severity ≡ "CRITICAL") × (850 ≤ confidence)))
unfolding get_v3_action
v3_matrix severity confidence allowed = (
  ground (arith, eq_iff (upper severity) "CRITICAL"),
  ground (
    arith,
    eq_iff (upper severity) "CRITICAL",
    eq_iff "watchlist_only" "iptables_block",
    eq_iff "service_block_pending_approval" "iptables_block",
    eq_iff "service_block" "iptables_block",
    eq_iff "watchlist_notify" "iptables_block",
  ),
)
