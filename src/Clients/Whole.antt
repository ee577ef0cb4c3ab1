-- ===== src/Clients/Whole.antt =====
-- What the client of WikiWho reads: whole responses within its limit.
use wikifame.Base.{
  ℕ, ◌+◌, ◌≤◌, ◌≡◌, refl, inl, inr, Bool, true, false, none, List, [], ◌∷◌, ◌++◌, arith, ltb, leb,
  ◌==◌, if◌then◌else◌, Bool-cases, Option-cases, length, length-append, Text,
}
use wikifame.Batches.{concat}
use wikifame.Json.{Json}
use wikifame.Clients.Tokens.{
  Loads, loaded, undecodable, unreadable, Stream, Opened, opened, failed_open, broken_open,
  WikiWhoClient, unavailable, is_transient, token_params, too_large, read_chunks, read_stream, load,
  revision_tokens, revision_url, read_opened, fetch_revision,
}
use wikifame.Errors.{unexpected, ok, err, lift, ◌>>>◌, >>>-eq-ok, >>=-eq-ok}
use wikifame.Attribution.{Token}
use wikifame.Sites.{language, require_language}
use wikifame.Policy.{whole}

module _ {S : Type 0} (c : WikiWhoClient S) where
  -- The loop over chunks is one test of the size of them all.
  read_chunks_lem :
      (size : ℕ) (chunks : List (List ℕ))
      → size ≤ c.max_response_bytes
      → read_chunks c size chunks ≡ (
          if leb (size + length (concat chunks)) c.max_response_bytes
          then ok (concat chunks)
          else err (too_large c))
  unfolding read_chunks
  read_chunks_lem size [] h =
      let fits : leb (size + 0) c.max_response_bytes ≡ true = ground arith in rw fits refl
  read_chunks_lem size (chunk ∷ chunks) h =
      elim (Bool-cases (ltb c.max_response_bytes (size + length chunk))) [
        | inl over ↦
            let over' : leb (size + length (chunk ++ concat chunks)) c.max_response_bytes ≡ false =
              ground (arith, length-append chunk (concat chunks)) in
            rw (read_chunks, over, over') refl
        | inr fits ↦
            let total : size + length (chunk ++ concat chunks)
                ≡ size + length chunk + length (concat chunks) =
              omega (arith, length-append chunk (concat chunks)) in
            rw
              (
                read_chunks,
                fits,
                total,
                read_chunks_lem (size + length chunk) chunks (ground arith),
              )
              (chunk_lem (leb (size + length chunk + length (concat chunks)) c.max_response_bytes))
      ]
    where
      chunk_lem :
          (fits : Bool)
          → ((if fits then ok (concat chunks) else err (too_large c)) >>> λ bytes.
              ok (chunk ++ bytes))
            ≡ (if fits then ok (chunk ++ concat chunks) else err (too_large c))
      chunk_lem true = refl
      chunk_lem false = refl

  -- The tokens are those of the revision in the JSON of all the bytes of a response that is within
  -- the limit, was not refused and did not break off.
  abbrev pub IsWhole : ℕ → Stream → List Token → Type 0
  IsWhole revision_id response tokens =
      (received : Json) × (response.raised ≡ none)
      × (response.broken_off ≡ none)
      × ((response.status_code == 400) ≡ false)
      × (is_transient response.status_code ≡ false)
      × (length (concat response.chunks) ≤ c.max_response_bytes)
      × (c.loads (concat response.chunks) ≡ loaded received)
      × (revision_tokens c revision_id received ≡ ok tokens)

  read_stream-ok :
      (revision_id : ℕ) (response : Stream) {bytes : List ℕ}
      → read_stream c revision_id response ≡ ok bytes
      → (response.raised ≡ none)
        × (response.broken_off ≡ none)
        × ((response.status_code == 400) ≡ false)
        × (is_transient response.status_code ≡ false)
        × (length (concat response.chunks) ≤ c.max_response_bytes)
        × (concat response.chunks ≡ bytes)
  unfolding read_stream
  read_stream-ok revision_id response {bytes} e = ground (
    arith,
    read_chunks_lem 0 response.chunks (omega arith),
    Bool-cases (response.status_code == 400),
    Bool-cases (is_transient response.status_code),
    Option-cases response.raised,
    Option-cases response.broken_off,
  )

  load-ok :
      (bytes : List ℕ) {received : Json}
      → load c bytes ≡ ok received
      → c.loads bytes ≡ loaded received
  unfolding load
  load-ok bytes {received} e = go (c.loads bytes) e
    where
      go :
          (l : Loads) {received : Json}
          → elim l [
            | loaded value ↦ ok value
            | undecodable m ↦ err (unavailable m)
            | unreadable m ↦ err (unexpected m)
          ]
            ≡ ok received
          → l ≡ loaded received
      go (loaded value) {received} e = ground arith
      go (undecodable m) e = cc
      go (unreadable m) e = cc

  read_opened-IsWhole :
      (revision_id : ℕ) (result : Opened) {tokens : List Token}
      → read_opened c revision_id result ≡ ok tokens
      → (response : Stream) × (result ≡ opened response) × IsWhole revision_id response tokens
  unfolding read_opened
  read_opened-IsWhole revision_id (opened response) e =
      let (received, r, e') =
        >>>-eq-ok (read_stream c revision_id response >>> load c) (revision_tokens c revision_id)
          e in
      let (bytes, b, l) = >>>-eq-ok (read_stream c revision_id response) (load c) r in
      let (accepted, unbroken, served, lasting, small, all) =
        read_stream-ok revision_id response b in
      (
        response,
        refl,
        (received, accepted, unbroken, served, lasting, small, rw all (load-ok bytes l), e'),
      )
  read_opened-IsWhole revision_id (failed_open m) e = cc
  read_opened-IsWhole revision_id (broken_open m) e = cc

  -- If the tokens of a revision are returned, they are those of this revision in the JSON of all the
  -- bytes of a response, which has at most as many bytes as the limit, no status that is refused,
  -- and did not break off.
  pub fetch_revision-IsWhole :
      (wiki : Text) (revision_id : ℕ) (s : S) {tokens : List Token}
      → (fetch_revision c wiki revision_id s).0 ≡ ok tokens
      → (language : Text) × (response : Stream) × (require_language c.resolver wiki ≡ ok language)
        × ((c.stream (revision_url c language revision_id) token_params s).0 ≡ opened response)
        × IsWhole revision_id response tokens
  unfolding fetch_revision
  fetch_revision-IsWhole wiki revision_id s {tokens} e =
      let (language, l, e') =
        >>=-eq-ok (lift (require_language c.resolver wiki))
          (λ language s.
            let (result, s') = c.stream (revision_url c language revision_id) token_params s in
            (read_opened c revision_id result, s'))
          s e in
      let (response, o, whole) =
        read_opened-IsWhole revision_id
          (c.stream (revision_url c language revision_id) token_params s).0 e' in
      (language, response, l, o, whole)
