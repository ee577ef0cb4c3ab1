-- ===== src/Tests/Gone.antt =====
-- The theorems on single requests at scripted answers.
use wikifame.Tests.Services.{shares}
use wikifame.Clients.Tokens.{
  loaded, Stream, opened, WikiWhoClient, some_tokens, token_params, revision_url, fetch_revision,
}
use wikifame.Base.{
  ◌≡◌, refl, inr, true, false, none, some, List, [], ◌∷◌, Text, codes, text_eq, decimal,
}
use wikifame.Clients.Whole.{IsWhole, fetch_revision-IsWhole}
use wikifame.Clients.Gone.{IsDead, SaysMissing, run_once-missing}
use wikifame.Json.{Json, boolean, string, get_or, at_zero, truthy}
use wikifame.Sites.{require_language}
use wikifame.Tests.Data.{clock_at, queue_of_two, first_lease, ascii, settings}
use wikifame.Errors.{ok}
use wikifame.Clients.Tokens.{
  loaded, Stream, opened, WikiWhoClient, some_tokens, token_params, revision_url, fetch_revision,
}
use wikifame.Repository.Queue.{enqueue_row, claim}
use wikifame.Tests.Scripts.{Script, python, client, net_of, only, two, one, last_answer}
use wikifame.Worker.{Worker, run_once}
use wikifame.Attribution.{Token}
use wikifame.Models.{page_eq, revision_eq}
use wikifame.Clients.Wired.{mediawiki_of, wikiwho_of}
use wikifame.Clients.{Net, query_member, action}
use wikifame.Upstream.{World}
use wikifame.Clients.Pages.{page_params}

abbrev missing_page : Json
missing_page = only "missing" (boolean true)

abbrev missing_answer : Json
missing_answer = last_answer "pages" (one missing_page)

abbrev tokens_answer : Json
tokens_answer = two "success" (boolean true) "revisions" (
    one (
      only "30"
        (only "tokens" (one (two "str" (string (codes "mot")) "editor" (string (codes "5")))))))

abbrev whole_response : Stream
whole_response = record {
  status_code = 200;
  raised = none;
  chunks = (123 ∷ 44 ∷ []) ∷ (125 ∷ []) ∷ [];
  broken_off = none;
}

abbrev wikiwho_client : WikiWhoClient Script
wikiwho_client = record {
  base_url = codes "https://wikiwho.example";
  max_response_bytes = 3;
  resolver = record { languages = codes "fr" ∷ [] };
  python = python;
  loads = λ bytes. loaded tokens_answer;
  stream = λ url params script. (opened whole_response, script);
}

abbrev whole_tokens : List Token
whole_tokens = record { str = some (codes "mot"); editor = some (codes "5") } ∷ []

tokens_read : (fetch_revision wikiwho_client (codes "frwiki") 30 []).0 ≡ ok whole_tokens
unfolding fetch_revision text_eq truthy decimal some_tokens
tokens_read = refl

fetch_revision-IsWhole_example :
    (language : Text) × (response : Stream) × (require_language wikiwho_client.resolver
        (codes "frwiki")
      ≡ ok language)
    × ((wikiwho_client.stream (revision_url wikiwho_client language 30) token_params []).0
        ≡ opened response)
    × IsWhole wikiwho_client 30 response whole_tokens
fetch_revision-IsWhole_example =
    fetch_revision-IsWhole wikiwho_client (codes "frwiki") 30 [] tokens_read

abbrev wired_worker : Worker (Net Script)
wired_worker = record {
  settings = settings;
  worker_id = codes "a";
  mediawiki = mediawiki_of client;
  wikiwho = wikiwho_of wikiwho_client;
  unicode = ascii;
  shares = shares;
}

abbrev wired_world : World (Net Script)
wired_world = record { db = queue_of_two; net = net_of (missing_answer ∷ []) }

taken_first : (claim (clock_at 300) (codes "a") 300 queue_of_two).1 ≡ some first_lease
unfolding claim enqueue_row revision_eq page_eq text_eq
taken_first = refl

asked_page :
    (action client (codes "frwiki") (page_params client 7) false (net_of (missing_answer ∷ []))).0
    ≡ ok missing_answer
unfolding action text_eq truthy
asked_page = refl

said_missing : SaysMissing client missing_answer
unfolding query_member truthy get_or at_zero text_eq
said_missing = (one missing_page, refl, inr (missing_page, boolean true, refl, refl, refl))

run_once-missing_example : IsDead 1 (run_once wired_worker (clock_at 300) wired_world).1.db
run_once-missing_example =
    run_once-missing client wired_worker (clock_at 300) wired_world first_lease missing_answer refl
      taken_first asked_page said_missing
