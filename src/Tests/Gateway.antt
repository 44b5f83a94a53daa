-- ===== src/Tests/Gateway.antt =====
-- Runs of backend/app/middleware/rate_limit.py.
use infra_red.Prelude.{ℕ, ◌≡◌, ◌≤◌, refl, String, none, some, List, [], ◌∷◌, length, arith}
use infra_red.Prelude.Format.{show}
use infra_red.Redis.Sorted.{Sorted}
use infra_red.Redis.Instance.{server, nothing}
use infra_red.Redis.Ranks.{sorted}
use infra_red.Gateway.RateLimit.{
  ByMode, Request, admitted, refused, serve, overlap, dependency, bucket_key, member,
  extract_identifier, client_ip,
}
use infra_red.Gateway.RateLimit.Window.{ideal_run}
use infra_red.Gateway.RateLimit.Refine.{serve_refines}
use infra_red.Gateway.RateLimit.Bound.{admissions, within, serve_bound}
use infra_red.Gateway.RateLimit.Race.{overlap_counts_once}

abbrev zsets : Sorted (server String)
zsets = sorted String

abbrev bucket : String
bucket = "rl:login:ip:10.0.0.7"

-- two requests per ten seconds
abbrev times : List ℕ
times = 1000 ∷ 1000 ∷ 4000 ∷ 11000 ∷ []

-- the third waits for the end of the first
served : serve zsets 2 10 bucket times nothing ≡ admitted ∷ admitted ∷ refused 7 ∷ admitted ∷ []
unfolding serve member show
served = refl

fails_open : (dependency zsets 2 10 bucket 1000 none).1 ≡ admitted
unfolding dependency
fails_open = refl

abbrev request : Request
request = record {
  x_forwarded_for = some " 203.0.113.9 , 10.0.0.1";
  host = some "10.0.0.1";
  body = "";
  authorization = none;
  path_token = some "abcdefghijklmnopqrst";
}

-- the address that the request itself names
forwarded : client_ip request ≡ "203.0.113.9"
unfolding client_ip
forwarded = refl

by_token :
    bucket_key "breakglass" (extract_identifier (λ body. none) (λ text. text) request ByMode.token)
    ≡ "rl:breakglass:token:abcdefghijklmnop"
unfolding bucket_key extract_identifier
by_token = refl

serve_refines_example : serve zsets 2 10 bucket times nothing ≡ ideal_run 2 10 times []
serve_refines_example =
    serve_refines zsets 2 10 bucket times nothing (omega arith) (λ t. refl)
      (omega arith, (omega arith, (omega arith, (omega arith, tt))))

serve_bound_example :
    within 1000 10000 (admissions times (serve zsets 2 10 bucket times nothing)) ≤ 2
serve_bound_example =
    serve_bound 2 10 1000 zsets bucket times nothing (omega arith) (λ t. refl)
      (omega arith, (omega arith, (omega arith, (omega arith, tt))))

-- one place, and two requests at once
overlap_counts_once_example :
    let out = overlap zsets 1 10 bucket 1000 nothing in
    (out.1 ≡ admitted) × (out.2 ≡ admitted) × (length (zsets.zrange 1 bucket out.0) ≡ 1)
overlap_counts_once_example =
    overlap_counts_once zsets 1 10 bucket 0 1000 [] nothing
      (record { agrees = λ t h. refl; made = tt; ordered = tt }) (omega arith) (omega arith)
