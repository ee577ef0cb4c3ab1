-- ===== src/Clients/Tokens.antt =====
-- src/wikipeople/clients.py: the client of WikiWho.
use wikifame.Base.{
  ℕ, ◌+◌, Bool, ◌||◌, Option, none, some, List, [], ◌∷◌, ◌++◌, ltb, leb, ◌==◌, if◌then◌else◌,
  length, Text, codes, decimal,
}
use wikifame.Json.{
  Json, null, string, array, object, Members, lookup, get_or, list_items, elements, truthy,
  str_value,
}
use wikifame.Errors.{
  Failure, retryable_upstream, permanent_data, response_too_large, unexpected, Result, ok, err,
  Exec, lift, ◌>>=◌, ◌>>>◌,
}
use wikifame.Clients.{Python, fields, word}
use wikifame.Sites.{SiteResolver, language, require_language}
use wikifame.Clients.Pages.{no_pages}
use wikifame.Attribution.{Token}

-- What `json.loads` makes of bytes: a value, a `JSONDecodeError`, or another exception, such as the
-- `UnicodeDecodeError` of bytes that are no text.
pub data Loads : Type 0 where
  loaded : Json → Loads
  undecodable : Text → Loads
  unreadable : Text → Loads

-- A response that is read in chunks, and the message of the `httpx.HTTPError` that breaks it off
-- behind them, if one does.
pub record Stream : Type 0 where
  pub status_code : ℕ
  pub raised : Option Text
  pub chunks : List (List ℕ)
  pub broken_off : Option Text

-- How the request for a stream ends.
pub data Opened : Type 0 where
  opened : Stream → Opened
  failed_open : Text → Opened
  broken_open : Text → Opened

pub record WikiWhoClient (S : Type 0) : Type 0 where
  pub base_url : Text
  pub max_response_bytes : ℕ
  pub resolver : SiteResolver
  pub python : Python
  pub loads : List ℕ → Loads
  pub stream : Text → Members → S → Opened × S

abbrev pub unavailable : Text → Failure
unavailable m = retryable_upstream (codes "WikiWho indisponible : " ++ m)

-- The statuses that say the request may succeed later.
unfoldable pub is_transient : ℕ → Bool
is_transient status = status == 408 || status == 425 || status == 429 || leb 500 status

-- The fields of a token that the rankings read.
unfoldable pub text_field : Text → Json → Result (Option Text)
unfolding get_or
text_field key token =
    get_or key null token >>> λ value. elim value [ string s ↦ ok (some s) | _ ↦ ok none ]

unfoldable pub tokens_from : List Json → Result (List Token)
unfolding text_field
tokens_from [] = ok []
tokens_from (token ∷ tokens) =
    let rest = tokens_from tokens in
    text_field (codes "str") token >>> λ value. text_field (codes "editor") token >>> λ editor.
    rest >>> λ more. ok (record { str = value; editor = editor } ∷ more)

-- The list under "tokens" of a revision that is a dictionary.
unfoldable pub tokens_in : Json → Option (List Json)
unfolding lookup
tokens_in (object ms) = elim (lookup (codes "tokens") ms) [
  | some (array values) ↦ some (list_items values)
  | _ ↦ none
]
tokens_in _ = none

-- The loop over the wrappers of revisions: the tokens of the first that is the one asked for.
unfoldable pub exact_tokens : Text → List Json → Result (Option (List Json))
unfolding get_or tokens_in
exact_tokens revision [] = ok none
exact_tokens revision (wrapper ∷ wrappers) =
    let rest = exact_tokens revision wrappers in
    get_or revision null wrapper >>> λ found. elim (tokens_in found) [
      | some tokens ↦ ok (some tokens)
      | none ↦ rest
    ]

-- The tokens that were found, or the exception behind the loop.
unfoldable pub some_tokens : ℕ → Option (List Json) → Result (List Token)
unfolding tokens_from
some_tokens revision_id (some tokens) = tokens_from tokens
some_tokens revision_id none = err (
    retryable_upstream
      (codes "WikiWho n’a pas encore renvoyé la révision exacte " ++ decimal revision_id))

abbrev pub token_params : Members
token_params = fields (
    (codes "o_rev_id", word (codes "false"))
    ∷ (codes "editor", word (codes "true"))
    ∷ (codes "token_id", word (codes "false"))
    ∷ (codes "out", word (codes "false"))
    ∷ (codes "in", word (codes "false"))
    ∷ [])

module _ {S : Type 0} (c : WikiWhoClient S) where
  abbrev pub too_large : Failure
  too_large =
      response_too_large
        (codes "Réponse WikiWho supérieure à " ++ decimal c.max_response_bytes ++ codes " octets")

  -- The loop over the chunks behind `size` bytes: those that are kept, unless they are too many.
  unfoldable pub read_chunks : ℕ → List (List ℕ) → Result (List ℕ)
  read_chunks size [] = ok []
  read_chunks size (chunk ∷ chunks) =
      let size' = size + length chunk in
      let rest = read_chunks size' chunks in
      if ltb c.max_response_bytes size'
      then err too_large
      else rest >>> λ bytes. ok (chunk ++ bytes)

  -- The body of the `with`: the bytes of a response that serves the revision.
  unfoldable pub read_stream : ℕ → Stream → Result (List ℕ)
  unfolding is_transient read_chunks
  read_stream revision_id response =
      if response.status_code == 400
      then err (
          permanent_data (
            codes "WikiWho ne sert pas la révision " ++ decimal revision_id ++ codes " (HTTP 400)"))
      else if is_transient response.status_code
      then err (
          retryable_upstream (
            codes "WikiWho HTTP "
            ++ decimal response.status_code
            ++ codes " pour la révision "
            ++ decimal revision_id))
      else elim response.raised [
        | some m ↦ err (unavailable m)
        | none ↦ read_chunks 0 response.chunks >>> λ bytes. elim response.broken_off [
          | some m ↦ err (unavailable m)
          | none ↦ ok bytes
        ]
      ]

  unfoldable pub load : List ℕ → Result Json
  load bytes = elim (c.loads bytes) [
    | loaded value ↦ ok value
    | undecodable m ↦ err (unavailable m)
    | unreadable m ↦ err (unexpected m)
  ]

  -- What `fetch_revision` makes of the answer.
  unfoldable pub revision_tokens : ℕ → Json → Result (List Token)
  unfolding get_or truthy elements exact_tokens tokens_from str_value
  revision_tokens revision_id received = get_or (codes "success") null received >>> λ success.
      if truthy success
      then get_or (codes "revisions") no_pages received
        >>> elements
        >>> exact_tokens (decimal revision_id)
        >>> some_tokens revision_id
      else get_or (codes "message") null received >>> λ m. err (
          retryable_upstream (codes "WikiWho a refusé la révision : " ++ str_value c.python.repr m))

  abbrev pub revision_url : Text → ℕ → Text
  revision_url language revision_id =
      c.base_url
      ++ b'/' ∷ language
      ++ codes "/api/v1.0.0-beta/rev_content/rev_id/"
      ++ decimal revision_id
      ++ codes "/"

  -- The request, and what is made of how it ends.
  unfoldable pub read_opened : ℕ → Opened → Result (List Token)
  unfolding read_stream load revision_tokens
  read_opened revision_id (opened response) =
      read_stream revision_id response >>> load >>> revision_tokens revision_id
  read_opened revision_id (failed_open m) = err (unavailable m)
  read_opened revision_id (broken_open m) = err (unexpected m)

  unfoldable pub fetch_revision : Text → ℕ → Exec S (List Token)
  unfolding require_language read_opened
  fetch_revision wiki revision_id = lift (require_language c.resolver wiki) >>= λ language s.
      let (result, s') = c.stream (revision_url language revision_id) token_params s in
      (read_opened revision_id result, s')
