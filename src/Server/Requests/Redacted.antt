-- ===== src/Server/Requests/Redacted.antt =====
-- What a URL shows after `redact_url`, and which URLs are fetched (server/src/lib.rs).
use sub_hub.Common.{
  ℕ, Bool, ◌||◌, ◌↔◌, none, ltb, trim, to_ascii_lowercase, ◌≤◌, ◌≡◌, refl, true, false, Bool-cases,
  inl, inr, Option, some, [], ◌∷◌, ◌++◌, Text, lit, length, starts_with, All, arith, ◌==◌,
}
use sub_hub.Parse.Uri.{Codecs}
use sub_hub.Parse.Dates.RoundTrip.{split_once-append}
use sub_hub.Server.Requests.{
  redact_url, before_question, behind_user, split_scheme_end, is_http, Sent, received, not_sent,
  document, error, read_sent, read_response, read_body, fetch_subscription_text, Response,
  states_too_much,
}

-- The character is nowhere in the text.
abbrev pub Lacks : ℕ → Text → Type 0
Lacks c = All (λ x. (x == c) ≡ false)

scheme_end-append :
    (scheme rest : Text)
    → Lacks 58 scheme
    → split_scheme_end (scheme ++ (lit "://" ++ rest)) ≡ some (scheme ++ lit "://", rest)
unfolding split_scheme_end starts_with
scheme_end-append [] rest h = refl
scheme_end-append (c ∷ s) rest (h, hs) = rw (h, scheme_end-append s rest hs) refl

before_question-append : (u query : Text) → Lacks 63 u → before_question (u ++ 63 ∷ query) ≡ u
unfolding before_question
before_question-append u query h = rw (before_question, split_once-append 63 u query h)

behind_user-append : (user rest : Text) → Lacks 64 user → behind_user (user ++ 64 ∷ rest) ≡ rest
unfolding behind_user
behind_user-append user rest h = rw (behind_user, split_once-append 64 user rest h)

-- A URL up to its query.
abbrev with_user : Text → Text → Text → Text
with_user scheme user rest = scheme ++ (lit "://" ++ (user ++ 64 ∷ rest))

-- The URL of a subscription with a user part and a query is shown without both, if the scheme has
-- no colon, the user part has no at sign, and no part before the query has a question mark.
redact_url-strips :
    (scheme user rest query : Text)
    → Lacks 58 scheme
    → Lacks 64 user
    → Lacks 63 (with_user scheme user rest)
    → redact_url (with_user scheme user rest ++ 63 ∷ query) ≡ (scheme ++ lit "://") ++ rest
unfolding redact_url
redact_url-strips scheme user rest query plain name marks =
    rw
      (
        redact_url,
        before_question-append (with_user scheme user rest) query marks,
        scheme_end-append scheme (user ++ 64 ∷ rest) plain,
        behind_user-append user rest name,
      )
      refl

-- The address has one of the two schemes, whatever the case of its letters and the space around it.
abbrev pub has_scheme : Text → Bool
has_scheme url =
    starts_with (to_ascii_lowercase (trim url)) (lit "http://")
    || starts_with (to_ascii_lowercase (trim url)) (lit "https://")

-- The response behind a document, with what holds of it.
pub record Accepted (k : Codecs) (s : Sent) (text : Text) (info : Option Text) : Type 0 where
  pub response : Response
  pub received_it : s ≡ received response
  pub stated : (n : ℕ) → response.content_length ≡ some n → n ≤ 16777216
  pub complete : response.read_error ≡ none
  pub fits : length response.body ≤ 16777216
  pub same_text : text ≡ k.from_utf8_lossy response.body
  pub same_info : info ≡ response.userinfo

read_response-facts :
    (k : Codecs) (r : Response) (text : Text) (info : Option Text)
    → read_response k r ≡ document text info
    → (states_too_much r.content_length ≡ false)
      × (r.read_error ≡ none)
      × (length r.body ≤ 16777216)
      × (text ≡ k.from_utf8_lossy r.body)
      × (info ≡ r.userinfo)
unfolding read_response read_body
read_response-facts k r text info e = ground (arith, e)

states_too_much-le : (o : Option ℕ) (n : ℕ) → states_too_much o ≡ false → o ≡ some n → n ≤ 16777216
unfolding states_too_much
states_too_much-le none n h e = absurd (ground (arith, e))
states_too_much-le (some m) n h e = ground (arith, h, e)

le-states_too_much :
    (o : Option ℕ) → ((n : ℕ) → o ≡ some n → n ≤ 16777216) → states_too_much o ≡ false
unfolding states_too_much
le-states_too_much none h = refl
le-states_too_much (some m) h = ground (arith, h m refl)

read_sent-Accepted :
    (k : Codecs) (s : Sent) (text : Text) (info : Option Text)
    → read_sent k s ≡ document text info
    → Accepted k s text info
unfolding read_sent
read_sent-Accepted k (not_sent e) text info h = cc
read_sent-Accepted k (received r) text info h =
    let (stated, complete, fits, same_text, same_info) = read_response-facts k r text info h in
    record {
      response = r;
      received_it = refl;
      stated = λ n e. states_too_much-le r.content_length n stated e;
      complete = complete;
      fits = fits;
      same_text = same_text;
      same_info = same_info;
    }

Accepted-read_sent :
    (k : Codecs) (s : Sent) (text : Text) (info : Option Text)
    → Accepted k s text info
    → read_sent k s ≡ document text info
unfolding read_sent read_response read_body
Accepted-read_sent k s text info a =
    let fits : ltb 16777216 (length a.response.body) ≡ false = ground (arith, a.fits) in
    rw
      (
        a.received_it,
        read_sent,
        le-states_too_much a.response.content_length a.stated,
        a.complete,
        fits,
        a.same_text,
        a.same_info,
      )
      refl

-- The fetch of an address gives a document exactly if the address has the scheme `http` or `https` and
-- its request is answered by a response that states no more than 16 MiB, if it states a length, that
-- is read without an error and has no more than 16 MiB; the document is then the text of its bytes
-- with its usage header.
pub fetch_subscription_text-bounds :
    (k : Codecs) (get : Text → Sent) (url text : Text) (info : Option Text)
    → (fetch_subscription_text k get url ≡ document text info)
      ↔ ((has_scheme url ≡ true) × Accepted k (get url) text info)
unfolding fetch_subscription_text is_http
fetch_subscription_text-bounds k get url text info = elim (Bool-cases (has_scheme url)) [
  | inl e ↦ (
    (λ h. (e, read_sent-Accepted k (get url) text info (rw (e, fetch_subscription_text) at h))),
    (λ h. rw (e, fetch_subscription_text) (Accepted-read_sent k (get url) text info h.1)),
  )
  | inr e ↦ (
    (λ h. absurd (not_document (rw (e, fetch_subscription_text) at h))),
    (λ h. absurd (ground (arith, h.0, e))),
  )
]
  where
    not_document : {t : Text} → error t ≡ document text info → ⊥
    not_document h = cc
