-- ===== src/Tests/Scripts.antt =====
-- The clients over a transport that answers from a script.
use wikifame.Base.Int.{pos}
use wikifame.Base.{ℕ, String, none, List, [], ◌∷◌, codes}
use wikifame.Json.{
  Json, integer, string, array, object, no_items, with_item, no_members, with_member,
}
use wikifame.Clients.{decoded, Sent, answered, failed, Http, Net, Python, MediaWikiClient}
use wikifame.Tests.Data.{ascii}

abbrev pub Script : Type 0
Script = List Json

abbrev pub reply_of : Script → Sent × Script
reply_of [] = (failed (codes "timeout"), [])
reply_of (received ∷ script) =
    (answered (record { status_code = 200; raised = none; json = decoded received }), script)

abbrev pub scripted : Http Script
scripted = record {
  get = λ url params script. reply_of script;
  post = λ url params script. reply_of script;
}

abbrev pub python : Python
python = record {
  unicode = ascii;
  repr = λ value. codes "?";
  fromisoformat = λ s. none;
  quote = λ s. s;
}

abbrev pub client : MediaWikiClient Script
client = record {
  resolver = record { languages = codes "fr" ∷ [] };
  python = python;
  client = scripted;
  max_rounds = 10;
}

abbrev pub net_of : Script → Net Script
net_of script = record { global_users = []; http = script }

-- A dictionary with one key.
abbrev pub only : String → Json → Json
only key value = object (with_member (codes key) value no_members)

abbrev pub two : String → Json → String → Json → Json
two key value other rest =
    object (with_member (codes key) value (with_member (codes other) rest no_members))

abbrev pub pair_of : Json → Json → Json
pair_of x y = array (with_item x (with_item y no_items))

abbrev pub one : Json → Json
one x = array (with_item x no_items)

-- A revision of an account.
abbrev pub by : ℕ → Json
by id = only "userid" (integer (pos id))

-- An answer with something under "query", and one that continues.
abbrev pub last_answer : String → Json → Json
last_answer key value = only "query" (only key value)

abbrev pub more_answer : String → Json → Json
more_answer key value = two "query" (only key value) "continue" (only "next" (integer (pos 1)))

abbrev pub listed : ℕ → String → Json
listed id title = two "pageid" (integer (pos id)) "title" (string (codes title))

abbrev pub category_script : Script
category_script =
    more_answer "categorymembers" (pair_of (listed 7 "A") (listed 8 "B"))
    ∷ last_answer "categorymembers" (pair_of (listed 9 "C") (listed 10 "D"))
    ∷ []
